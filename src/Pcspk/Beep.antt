-- ===== src/Pcspk/Beep.antt =====
-- `beep` of kernel/audio/pcspk.c, over the clock of kernel/time.c.
use sesh_os.Base.{
  ℕ, zero, suc, ◌+◌, ◌*◌, ◌<◌, ◌≤◌, ◌≡◌, ◌≢◌, refl, ◌-◌, List, [], ◌∷◌, ◌++◌, arith, bit_and, ne→==,
}
use sesh_os.Base.Run.{done, bind-done}
use sesh_os.Rtc.{get_time}
use sesh_os.Rtc.Sleep.{sleep-ends}
use sesh_os.Idt.{Out, outb}
use sesh_os.Pcspk.{play_sound, no_sound, beep_loop, beep}

play_sound-done : (i tmp : ℕ) → i ≢ 0 → (outs : List Out) × (play_sound i tmp ≡ done outs)
unfolding play_sound
play_sound-done i tmp ne = rw (ne→== i 0 ne) (_, refl)

module _ (clock : ℕ → ℕ → ℕ) (gate : ℕ → ℕ) where
  -- The clock shows the next second within `rounds` readings from each reading before `last`.
  abbrev pub Ticks : (rounds last : ℕ) → Type 0
  Ticks rounds last =
      (n : ℕ) → n < last → (get_time clock n).sec + 1 ≤ (get_time clock (n + 8 + 8 * rounds)).sec

  beep_loop-ends :
      (fuel left i n rounds last : ℕ) (outs : List Out)
      → Ticks rounds last
      → n + left * (8 * rounds + 16) ≤ last
      → rounds + 1 < fuel
      → i ≢ 0
      → (n' : ℕ) × (outs' : List Out) × (beep_loop clock gate fuel left i n outs ≡ done (n', outs'))
        × (n' ≤ n + left * (8 * rounds + 16))
  unfolding beep_loop
  beep_loop-ends fuel zero i n rounds last outs ticks h enough ne = (n, outs, refl, omega arith)
  beep_loop-ends fuel (suc left) i n rounds last outs ticks h enough ne =
      let (played, plays) = play_sound-done i (gate (i - 1)) ne in
      let (r, sleeps, soon) = sleep-ends clock rounds n 1 fuel (ticks n (grind arith)) enough in
      let (n', outs', runs, bound) =
        beep_loop-ends fuel left (i + 1) r rounds last (outs ++ played) ticks (grind arith) enough
          (λ e. omega arith) in
      (n', outs', bind-done _ plays (bind-done _ sleeps runs), grind arith)

  -- `beep` ends if the clock shows the next second within `rounds` readings from each of its
  -- readings, and it switches the speaker off at last: the last byte sent is port 0x61's with its two
  -- low bits cleared. It takes at most 80 * (rounds + 2) readings.
  pub beep-ends :
      (fuel n rounds : ℕ)
      → Ticks rounds (n + 80 * (rounds + 2))
      → rounds + 1 < fuel
      → (n' : ℕ) × (outs : List Out) × (beep clock gate fuel n
          ≡ done (n', outs ++ outb 0x61 (bit_and (gate 10) 0xFC) ∷ []))
        × (n' ≤ n + 80 * (rounds + 2))
  unfolding beep no_sound
  beep-ends fuel n rounds ticks enough =
      let (n', outs, runs, bound) =
        beep_loop-ends fuel 10 1 n rounds (n + 80 * (rounds + 2)) [] ticks (omega arith) enough
          (λ e. omega arith) in
      (n', outs, bind-done _ runs refl, omega (arith, bound))

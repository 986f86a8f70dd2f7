-- ===== src/Pcspk.antt =====
-- kernel/audio/pcspk.c: the PC speaker, as the bytes sent to the timer and to the speaker's gate.
pub mod Divisor
pub mod Beep
use sesh_os.Base.{
  ℕ, zero, suc, ◌+◌, ◌-◌, ◌*◌, ◌/◌, ◌%◌, ◌^◌, List, [], ◌∷◌, ◌++◌, ◌==◌, bit_and, bit_or,
  if◌then◌else◌, u8,
}
use sesh_os.Base.Run.{Run, done, fault, ◌>>=◌}
use sesh_os.Idt.{Out, outb}
use sesh_os.Rtc.{sleep}

-- `tmp` is what is read from port 0x61. A division by zero is a fault.
unfoldable pub play_sound : (frequence tmp : ℕ) → Run (List Out)
play_sound frequence tmp =
    let div = 1193180 / frequence in
    let gate = if tmp == bit_or tmp 3 then [] else outb 0x61 (bit_or tmp 3) ∷ [] in
    if frequence == 0
    then fault
    else done (outb 0x43 0xB6 ∷ outb 0x42 (u8 div) ∷ outb 0x42 (u8 (div / 2 ^ 8)) ∷ gate)

unfoldable pub no_sound : (tmp : ℕ) → List Out
no_sound tmp = outb 0x61 (bit_and tmp 0xFC) ∷ []

-- `clock` answers the readings of the clock and `gate` those of port 0x61, each by the number of the
-- reading.
module _ (clock : ℕ → ℕ → ℕ) (gate : ℕ → ℕ) where
  -- `for (int i = 1; i < 11; i++)` with `left` rounds to go: the bytes sent and the readings of the
  -- clock so far
  unfoldable pub beep_loop : (fuel left i n : ℕ) → List Out → Run (ℕ × List Out)
  unfolding play_sound sleep
  beep_loop fuel zero i n outs = done (n, outs)
  beep_loop fuel (suc left) i n outs = play_sound i (gate (i - 1)) >>= λ played.
      sleep clock fuel n 1 >>= λ n'. beep_loop fuel left (i + 1) n' (outs ++ played)

  unfoldable pub beep : (fuel n : ℕ) → Run (ℕ × List Out)
  unfolding beep_loop no_sound
  beep fuel n = beep_loop fuel 10 1 n [] >>= λ state. done (state.0, state.1 ++ no_sound (gate 10))

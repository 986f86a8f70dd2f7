-- ===== src/Pcspk/Divisor.antt =====
-- The divisor that the timer gets.
use sesh_os.Base.{
  ℕ, ◌+◌, ◌*◌, ◌/◌, ◌%◌, ◌^◌, ◌<◌, ◌≤◌, ◌≡◌, ◌≢◌, refl, List, [], ◌∷◌, ◌==◌, bit_or, arith,
  if◌then◌else◌, ne→==,
}
use sesh_os.Base.Run.{done}
use sesh_os.Idt.{Out, outb}
use sesh_os.Pcspk.{play_sound}

-- For a frequency that is not 0 the two bytes sent to the timer are the divisor modulo 2^16: it is
-- the divisor of the frequency from 19 Hz on, and a smaller number for the frequencies from 1 to 18.
pub play_sound-divisor :
    (frequence tmp : ℕ)
    → frequence ≢ 0
    → (lo : ℕ) × (hi : ℕ) × (gate : List Out) × (play_sound frequence tmp
        ≡ done (outb 0x43 0xB6 ∷ outb 0x42 lo ∷ outb 0x42 hi ∷ gate))
      × (19 ≤ frequence → lo + hi * 2 ^ 8 ≡ 1193180 / frequence)
      × (frequence ≤ 18 → lo + hi * 2 ^ 8 < 1193180 / frequence)
unfolding play_sound
play_sound-divisor frequence tmp ne = (
  1193180 / frequence % 2 ^ 8,
  1193180 / frequence / 2 ^ 8 % 2 ^ 8,
  (if tmp == bit_or tmp 3 then [] else outb 0x61 (bit_or tmp 3) ∷ []),
  rw (ne→== frequence 0 ne) refl,
  (λ high. omega (arith, small frequence high)),
  λ low. omega (arith, large frequence ne low),
)
  where
    small : (n : ℕ) → 19 ≤ n → 1193180 / n < 2 ^ 16
    small n h = grind arith

    large : (n : ℕ) → n ≢ 0 → n ≤ 18 → 2 ^ 16 ≤ 1193180 / n
    large n nz h = grind arith

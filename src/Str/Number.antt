-- ===== src/Str/Number.antt =====
-- `atoi` of kernel/string.c.
use sesh_os.Base.{
  ℕ, zero, suc, ◌+◌, ◌-◌, ◌*◌, ◌%◌, ◌^◌, ◌≤◌, ◌<◌, ◌≡◌, refl, ◌∙◌, ap, List, [], ◌∷◌, arith, length,
}
use sesh_os.Base.Int.{signed32}
use sesh_os.Base.Run.{done}
use sesh_os.Base.Memory.{Memory, CStr}
use sesh_os.Str.{atoi_step, atoi_loop, atoi}

-- What the loop makes of the bytes of a string, digits or not.
unfoldable pub accumulate : ℕ → List ℕ → ℕ
unfolding atoi_step
accumulate res [] = res
accumulate res (c ∷ s) = accumulate (atoi_step res c) s

atoi_loop-accumulate :
    (fuel : ℕ) (m : Memory) (p res : ℕ) (s : List ℕ)
    → CStr m p s
    → length s < fuel
    → atoi_loop fuel m p res ≡ done (accumulate res s)
unfolding atoi_loop accumulate
atoi_loop-accumulate zero m p res s h f = absurd (omega arith)
atoi_loop-accumulate (suc fuel) m p res [] h f = ground arith
atoi_loop-accumulate (suc fuel) m p res (c ∷ s) h f =
    ground (arith, atoi_loop-accumulate fuel m (p + 1) (atoi_step res c) s)

-- `atoi` reads every byte up to the final zero and returns with that much fuel.
pub atoi-accumulate :
    (fuel : ℕ) (m : Memory) (p : ℕ) (s : List ℕ)
    → CStr m p s
    → length s < fuel
    → atoi fuel m p ≡ done (signed32 (accumulate 0 s))
unfolding atoi
atoi-accumulate fuel m p s h f = rw (atoi_loop-accumulate fuel m p 0 s h f)

abbrev pub AllDigits : List ℕ → Type 0
AllDigits [] = Unit {0}
AllDigits (c ∷ s) = (b'0' ≤ c) × (c ≤ b'9') × AllDigits s

-- The number that decimal digits stand for, behind the digits already read.
pub decimal : ℕ → List ℕ → ℕ
decimal n [] = n
decimal n (c ∷ s) = decimal (n * 10 + (c - b'0')) s

accumulate-decimal :
    (r n : ℕ) (s : List ℕ) → AllDigits s → r ≡ n % 2 ^ 32 → accumulate r s ≡ decimal n s % 2 ^ 32
unfolding accumulate decimal
accumulate-decimal r n [] h e = e
accumulate-decimal r n (c ∷ s) h e =
    accumulate-decimal (atoi_step r c) (n * 10 + (c - b'0')) s h.2 (ground arith)

-- `atoi` of decimal digits is their value, wrapped to an `int`.
pub atoi-decimal :
    (fuel : ℕ) (m : Memory) (p : ℕ) (s : List ℕ)
    → CStr m p s
    → AllDigits s
    → length s < fuel
    → atoi fuel m p ≡ done (signed32 (decimal 0 s % 2 ^ 32))
atoi-decimal fuel m p s h digits f =
    atoi-accumulate fuel m p s h f
    ∙ ap (λ (n : ℕ). done (signed32 n)) (accumulate-decimal 0 0 s digits refl)

-- ===== src/Str/Compare.antt =====
-- `strcmp` of kernel/string.c orders strings byte by byte.
use sesh_os.Base.{
  ℕ, zero, suc, ◌+◌, ◌<◌, ◌≡◌, refl, ◌↔◌, List, [], ◌∷◌, arith, length, if◌then◌else◌, ◌==◌,
}
use sesh_os.Base.Int.{ℤ, pos, sub_ℕ}
use sesh_os.Base.Run.{done}
use sesh_os.Base.Memory.{Memory, CStr, NonZero, CStr-NonZero}
use sesh_os.Str.{strcmp}

-- The difference of the first bytes that differ, the end of a string counting as 0.
pub difference : List ℕ → List ℕ → ℤ
difference [] [] = pos 0
difference [] (d ∷ t) = sub_ℕ 0 d
difference (c ∷ s) [] = pos c
difference (c ∷ s) (d ∷ t) = if c == d then difference s t else sub_ℕ c d

-- `strcmp` of two strings is the difference of the first bytes that differ, with fuel for the
-- bytes of the first string and its final zero.
pub strcmp-difference :
    (fuel : ℕ) (m : Memory) (p q : ℕ) (s t : List ℕ)
    → CStr m p s
    → CStr m q t
    → length s < fuel
    → strcmp fuel m p q ≡ done (difference s t)
unfolding strcmp difference
strcmp-difference zero m p q s t h k f = absurd (omega arith)
strcmp-difference (suc fuel) m p q [] [] h k f = ground arith
strcmp-difference (suc fuel) m p q [] (d ∷ t) h k f = ground arith
strcmp-difference (suc fuel) m p q (c ∷ s) [] h k f = ground arith
strcmp-difference (suc fuel) m p q (c ∷ s) (d ∷ t) h k f =
    ground (arith, strcmp-difference fuel m (p + 1) (q + 1) s t)

difference-eq : (s t : List ℕ) → NonZero s → NonZero t → difference s t ≡ pos 0 → s ≡ t
unfolding difference
difference-eq [] [] h k e = refl
difference-eq [] (d ∷ t) h k e = ground arith
difference-eq (c ∷ s) [] h k e = ground arith
difference-eq (c ∷ s) (d ∷ t) h k e = ground (arith, difference-eq s t h.1 k.1)

difference_self : (s : List ℕ) → difference s s ≡ pos 0
unfolding difference
difference_self [] = refl
difference_self (c ∷ s) = ground (arith, difference_self s)

-- `strcmp` returns, and is 0 exactly when the two strings are equal.
pub strcmp-zero_iff :
    (fuel : ℕ) (m : Memory) (p q : ℕ) (s t : List ℕ)
    → CStr m p s
    → CStr m q t
    → length s < fuel
    → (r : ℤ) × (strcmp fuel m p q ≡ done r) × ((r ≡ pos 0) ↔ (s ≡ t))
strcmp-zero_iff fuel m p q s t h k f = (
  difference s t,
  strcmp-difference fuel m p q s t h k f,
  (difference-eq s t (CStr-NonZero m p s h) (CStr-NonZero m q t k), λ e. rw e (difference_self t)),
)

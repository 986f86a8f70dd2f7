-- ===== src/Str/Search.antt =====
-- `strstr` of kernel/string.c finds the first occurrence.
use sesh_os.Base.{
  ℕ, zero, suc, ◌+◌, ◌^◌, ◌<◌, ◌≡◌, refl, ◌↔◌, inl, inr, ap, ◌∙◌, sym, Bool, true, false, ◌&&◌,
  Bool-cases, Option, none, some, List, [], ◌∷◌, arith, length, if◌then◌else◌, ◌==◌,
}
use sesh_os.Base.Int.{pos, is_zero, is_zero→eq, eq→is_zero}
use sesh_os.Base.Run.{done}
use sesh_os.Base.Memory.{Memory, CStr}
use sesh_os.Mem.{memcmp}
use sesh_os.Mem.Compare.{SameBytes, memcmp-zero_iff}
use sesh_os.Str.{strstr_loop, strstr}
use sesh_os.Str.Length.{strlen-length}

-- Does `t` stand at the front of `s`?
unfoldable pub is_prefix : List ℕ → List ℕ → Bool
is_prefix [] s = true
is_prefix (d ∷ t) [] = false
is_prefix (d ∷ t) (c ∷ s) = (c == d) && is_prefix t s

-- The place of the first occurrence of `t` in a string, the empty string having none.
unfoldable pub first_occurrence : List ℕ → List ℕ → Option ℕ
first_occurrence t [] = none
first_occurrence t (c ∷ s) =
    let rest = first_occurrence t s in
    if is_prefix t (c ∷ s) then some 0 else elim rest [ none ↦ none | some i ↦ some (i + 1) ]

-- The final zero of the string makes the comparison stop in time.
is_prefix-SameBytes :
    (m : Memory) (p q : ℕ) (s t : List ℕ)
    → CStr m p s
    → CStr m q t
    → is_prefix t s ≡ true
    → SameBytes m p q (length t)
unfolding is_prefix
is_prefix-SameBytes m p q s [] h k e i l = absurd (omega arith)
is_prefix-SameBytes m p q [] (d ∷ t) h k e i l = cc
is_prefix-SameBytes m p q (c ∷ s) (d ∷ t) h k e zero l = ground arith
is_prefix-SameBytes m p q (c ∷ s) (d ∷ t) h k e (suc i) l =
    ground (arith, is_prefix-SameBytes m (p + 1) (q + 1) s t h.2 k.2 (ground arith) i (omega arith))

SameBytes-is_prefix :
    (m : Memory) (p q : ℕ) (s t : List ℕ)
    → CStr m p s
    → CStr m q t
    → SameBytes m p q (length t)
    → is_prefix t s ≡ true
unfolding is_prefix
SameBytes-is_prefix m p q s [] h k e = refl
SameBytes-is_prefix m p q [] (d ∷ t) h k e = ground (arith, e 0)
SameBytes-is_prefix m p q (c ∷ s) (d ∷ t) h k e = ground (
  arith,
  e 0,
  SameBytes-is_prefix m (p + 1) (q + 1) s t h.2 k.2 (λ i l. ground (arith, e (suc i))),
)

memcmp-is_prefix :
    (m : Memory) (p q : ℕ) (s t : List ℕ)
    → CStr m p s
    → CStr m q t
    → is_zero (memcmp m p q (pos (length t))) ≡ is_prefix t s
memcmp-is_prefix m p q s t h k = elim (Bool-cases (is_prefix t s)) [
  | inl yes' ↦ rw yes' (eq→is_zero _ (same.1 (is_prefix-SameBytes m p q s t h k yes')))
  | inr no' ↦ elim (Bool-cases (is_zero (memcmp m p q (pos (length t))))) [
    | inl z ↦ absurd (ground (arith, SameBytes-is_prefix m p q s t h k (same.0 (is_zero→eq _ z))))
    | inr z ↦ z ∙ sym no'
  ]
]
  where
    same : (memcmp m p q (pos (length t)) ≡ pos 0) ↔ SameBytes m p q (length t)
    same = memcmp-zero_iff m p q (length t)

-- The address of the place found.
abbrev pub address_of : ℕ → Option ℕ → Option ℕ
address_of p none = none
address_of p (some i) = some (p + i)

strstr_loop-first_occurrence :
    (fuel : ℕ) (m : Memory) (p q : ℕ) (s t : List ℕ)
    → CStr m p s
    → CStr m q t
    → length s < fuel
    → strstr_loop fuel m p q (length t) ≡ done (address_of p (first_occurrence t s))
unfolding strstr_loop first_occurrence
strstr_loop-first_occurrence zero m p q s t h k f = absurd (omega arith)
strstr_loop-first_occurrence (suc fuel) m p q [] t h k f = ground arith
strstr_loop-first_occurrence (suc fuel) m p q (c ∷ s) t h k f =
    rw (memcmp-is_prefix m p q (c ∷ s) t h k) (
      ground
        (arith, strstr_loop-first_occurrence fuel m (p + 1) q s t, moved (first_occurrence t s)))
  where
    moved :
        (o : Option ℕ)
        → address_of p (elim o [ none ↦ none | some i ↦ some (i + 1) ]) ≡ address_of (p + 1) o
    moved none = refl
    moved (some i) = ap some (omega arith)

-- `strstr` of two strings returns the address of the first place of the haystack at which the
-- needle stands, and `NULL` if there is none or the haystack is empty.
pub strstr-first_occurrence :
    (fuel : ℕ) (m : Memory) (p q : ℕ) (s t : List ℕ)
    → CStr m p s
    → CStr m q t
    → length s < fuel
    → length t < fuel
    → length t < 2 ^ 32
    → strstr fuel m p q ≡ done (address_of p (first_occurrence t s))
unfolding strstr
strstr-first_occurrence fuel m p q s t h k fs ft b =
    rw (strlen-length fuel m q t k ft b) (strstr_loop-first_occurrence fuel m p q s t h k fs)

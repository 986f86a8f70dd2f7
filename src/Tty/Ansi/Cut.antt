-- ===== src/Tty/Ansi/Cut.antt =====
-- A string cut at the first occurrence of a byte, and `strstr` of a one-byte needle.
use sesh_os.Base.{
  ℕ, suc, ◌+◌, ◌<◌, ◌≡◌, refl, ◌∙◌, ap, Bool-cases, inl, inr, Option, none, some, List, [], ◌∷◌,
  arith, length, if◌then◌else◌, ◌==◌, ==→eq,
}
use sesh_os.Base.Run.{done}
use sesh_os.Base.Memory.{Memory, CStr, CStr-eq, Holds}
use sesh_os.Str.{strstr}
use sesh_os.Str.Search.{first_occurrence, is_prefix, address_of, strstr-first_occurrence}

-- The bytes before the first `c`, and those behind it.
unfoldable pub cut : ℕ → List ℕ → Option (List ℕ × List ℕ)
cut c [] = none
cut c (d ∷ s) =
    let rest = cut c s in
    if d == c then some ([], s) else elim rest [ none ↦ none | some (a, b) ↦ some (d ∷ a, b) ]

-- Where the first `c` stands.
abbrev pub place : Option (List ℕ × List ℕ) → Option ℕ
place none = none
place (some (a, b)) = some (length a)

first_occurrence-cut : (c : ℕ) (s : List ℕ) → first_occurrence (c ∷ []) s ≡ place (cut c s)
unfolding first_occurrence is_prefix cut
first_occurrence-cut c [] = refl
first_occurrence-cut c (d ∷ s) = ground (arith, first_occurrence-cut c s, shape (cut c s))
  where
    shape :
        (o : Option (List ℕ × List ℕ))
        → place (elim o [ none ↦ none | some (a, b) ↦ some (d ∷ a, b) ])
          ≡ elim (place o) [ none ↦ none | some i ↦ some (i + 1) ]
    shape none = refl
    shape (some (a, b)) = ap some (omega arith)

-- What is known of the parts, if there are any.
abbrev pub Parts : Memory → ℕ → ℕ → List ℕ → Option (List ℕ × List ℕ) → Type 0
Parts m p c s none = Unit {0}
Parts m p c s (some (a, b)) =
    (length s ≡ length a + 1 + length b)
    × CStr m (p + length a + 1) b
    × Holds m p a
    × (m (p + length a) ≡ c)

Parts-cons :
    (m : Memory) (p c d : ℕ) (s : List ℕ) (o : Option (List ℕ × List ℕ))
    → m p ≡ d
    → Parts m (p + 1) c s o
    → Parts m p c (d ∷ s) (elim o [ none ↦ none | some (a, b) ↦ some (d ∷ a, b) ])
Parts-cons m p c d s none h r = tt
Parts-cons m p c d s (some (a, b)) h r = (
  omega (arith, r.0),
  CStr-eq m (p + 1 + length a + 1) (p + suc (length a) + 1) b (omega arith) r.1,
  (h, r.2),
  ap m (omega arith) ∙ r.3,
)

pub cut-Parts : (m : Memory) (p c : ℕ) (s : List ℕ) → CStr m p s → Parts m p c s (cut c s)
unfolding cut
cut-Parts m p c [] h = tt
cut-Parts m p c (d ∷ s) h = elim (Bool-cases (d == c)) [
  | inl hit ↦ rw hit (
    omega arith,
    CStr-eq m (p + 1) (p + 0 + 1) s (omega arith) h.2,
    tt,
    ap m (omega arith) ∙ h.0 ∙ ==→eq d c hit,
  )
  | inr miss ↦ rw miss (Parts-cons m p c d s (cut c s) h.0 (cut-Parts m (p + 1) c s h.2))
]

-- `strstr` of a one-byte needle in a string that the fuel is enough for.
pub strstr-cut :
    (m : Memory) (p q c : ℕ) (s : List ℕ)
    → CStr m p s
    → CStr m q (c ∷ [])
    → length s < 257
    → strstr 257 m p q ≡ done (address_of p (place (cut c s)))
strstr-cut m p q c s h k l =
    strstr-first_occurrence 257 m p q s (c ∷ []) h k l (omega arith) (omega arith)
    ∙ ap (λ o. done (address_of p o)) (first_occurrence-cut c s)

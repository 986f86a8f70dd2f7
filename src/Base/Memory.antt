-- ===== src/Base/Memory.antt =====
-- The kernel's flat, byte-addressed memory. An address is a number; a C string is a run of
-- non-zero bytes followed by a zero byte.
use Prim.Native.Nat.{ℕ, ◌+◌, ◌≤◌, ◌<◌}
use mathlib.Core.Path.{◌≡◌, subst}
use mathlib.Core.Logic.{◌≢◌, ◌⊎◌}
use mathlib.Core.List.{List, [], ◌∷◌, ◌++◌}
use native.Mathlib.Omega.{arith}
use sesh_os.Base.Tests.{◌==◌, if◌then◌else◌}
use sesh_os.Base.Lists.{length}

abbrev pub Memory : Type 0
Memory = ℕ → ℕ

-- One byte is stored.
abbrev pub poke : Memory → ℕ → ℕ → Memory
poke m a v b = if a == b then v else m b

-- `m` holds the C string `s` at `p`.
abbrev pub CStr : Memory → ℕ → List ℕ → Type 0
CStr m p [] = m p ≡ 0
CStr m p (c ∷ s) = (m p ≡ c) × (c ≢ 0) × CStr m (p + 1) s

-- The bytes `s` stand at `p`.
abbrev pub Holds : Memory → ℕ → List ℕ → Type 0
Holds m p [] = Unit {0}
Holds m p (c ∷ s) = (m p ≡ c) × Holds m (p + 1) s

-- Two memories agree on [lo, hi).
abbrev pub SameOn : ℕ → ℕ → Memory → Memory → Type 0
SameOn lo hi m g = (a : ℕ) → lo ≤ a → a < hi → g a ≡ m a

-- Two memories agree off [lo, hi).
abbrev pub SameOff : ℕ → ℕ → Memory → Memory → Type 0
SameOff lo hi m g = (a : ℕ) → (a < lo) ⊎ (hi ≤ a) → g a ≡ m a

pub CStr-SameOn :
    {m g : Memory} (p : ℕ) (s : List ℕ) → CStr m p s → SameOn p (p + length s + 1) m g → CStr g p s
CStr-SameOn p [] h same = ground (arith, same p)
CStr-SameOn p (c ∷ s) h same = (
  ground (arith, same p),
  h.1,
  CStr-SameOn (p + 1) s h.2 (λ a l r. same a (omega arith) (omega arith)),
)

-- The same string at an address written in another way.
pub CStr-eq : (m : Memory) (p q : ℕ) (s : List ℕ) → p ≡ q → CStr m p s → CStr m q s
CStr-eq m p q s e h = subst (λ t. CStr m t s) e h

-- No byte of the list is 0.
abbrev pub NonZero : List ℕ → Type 0
NonZero [] = Unit {0}
NonZero (c ∷ s) = (c ≢ 0) × NonZero s

pub CStr-NonZero : (m : Memory) (p : ℕ) (s : List ℕ) → CStr m p s → NonZero s
CStr-NonZero m p [] h = tt
CStr-NonZero m p (c ∷ s) h = (h.1, CStr-NonZero m (p + 1) s h.2)

pub CStr-Holds : (m : Memory) (p : ℕ) (s : List ℕ) → CStr m p s → Holds m p s
CStr-Holds m p [] h = tt
CStr-Holds m p (c ∷ s) h = (h.0, CStr-Holds m (p + 1) s h.2)

-- A byte and a zero stored behind a string's bytes make a string that is longer by that byte.
pub CStr-snoc :
    (m : Memory) (p e c : ℕ) (s : List ℕ)
    → Holds m p s
    → NonZero s
    → e ≡ p + length s
    → c ≢ 0
    → CStr (poke (poke m e c) (e + 1) 0) p (s ++ c ∷ [])
CStr-snoc m p e c [] h nz eq ne = (ground arith, ne, ground arith)
CStr-snoc m p e c (d ∷ s) h nz eq ne =
    (ground arith, nz.0, CStr-snoc m (p + 1) e c s h.1 nz.1 (omega arith) ne)

-- ===== src/Base/Words.antt =====
-- 32-bit and 64-bit little-endian words in memory.
use Prim.Native.Nat.{ℕ, ◌+◌, ◌-◌, ◌*◌, ◌/◌, ◌%◌, ◌^◌, ◌<◌}
use mathlib.Core.Path.{◌≡◌, refl, ◌∙◌, ap}
use mathlib.Core.Logic.{inl}
use mathlib.Core.Bool.{◌&&◌}
use native.Mathlib.Omega.{arith}
use sesh_os.Base.Tests.{leb, ltb, if◌then◌else◌}
use sesh_os.Base.Memory.{Memory, SameOff}

unfoldable pub load64 : Memory → ℕ → ℕ
load64 m a =
    m a
    + m (a + 1) * 2 ^ 8
    + m (a + 2) * 2 ^ 16
    + m (a + 3) * 2 ^ 24
    + m (a + 4) * 2 ^ 32
    + m (a + 5) * 2 ^ 40
    + m (a + 6) * 2 ^ 48
    + m (a + 7) * 2 ^ 56

unfoldable pub store64 : Memory → ℕ → ℕ → Memory
store64 m a v b = if leb a b && ltb b (a + 8) then v / 256 ^ (b - a) % 256 else m b

store64-byte : (m : Memory) (a v k : ℕ) → k < 8 → store64 m a v (a + k) ≡ v / 256 ^ k % 256
unfolding store64
store64-byte m a v k h = ground (arith, ap (λ (n : ℕ). v / 256 ^ n % 256) e)
  where
    e : a + k - a ≡ k
    e = omega arith

store64-first : (m : Memory) (a v : ℕ) → store64 m a v a ≡ v % 256
store64-first m a v =
    ap (store64 m a v) (omega arith) ∙ store64-byte m a v 0 (omega arith) ∙ omega arith

-- A stored word is read back.
pub load64-store64 : (m : Memory) (a v : ℕ) → load64 (store64 m a v) a ≡ v % 2 ^ 64
unfolding load64
load64-store64 m a v = omega (
  arith,
  store64-first m a v,
  store64-byte m a v 1 (omega arith),
  store64-byte m a v 2 (omega arith),
  store64-byte m a v 3 (omega arith),
  store64-byte m a v 4 (omega arith),
  store64-byte m a v 5 (omega arith),
  store64-byte m a v 6 (omega arith),
  store64-byte m a v 7 (omega arith),
)

-- A store changes only its 8 bytes.
pub store64-SameOff : (m : Memory) (a v : ℕ) → SameOff a (a + 8) m (store64 m a v)
unfolding store64
store64-SameOff m a v b out = ground arith

-- A word is read alike from memories that agree on its bytes.
pub load64-eq :
    (m g : Memory) (a : ℕ) → ((k : ℕ) → k < 8 → g (a + k) ≡ m (a + k)) → load64 g a ≡ load64 m a
unfolding load64
load64-eq m g a h = omega (
  arith,
  h 0 (omega arith),
  ap g (plus_zero),
  ap m (plus_zero),
  h 1 (omega arith),
  h 2 (omega arith),
  h 3 (omega arith),
  h 4 (omega arith),
  h 5 (omega arith),
  h 6 (omega arith),
  h 7 (omega arith),
)
  where
    plus_zero : a + 0 ≡ a
    plus_zero = omega arith

unfoldable pub load32 : Memory → ℕ → ℕ
load32 m a = m a + m (a + 1) * 2 ^ 8 + m (a + 2) * 2 ^ 16 + m (a + 3) * 2 ^ 24

unfoldable pub store32 : Memory → ℕ → ℕ → Memory
store32 m a v b = if leb a b && ltb b (a + 4) then v / 256 ^ (b - a) % 256 else m b

-- A store changes only its 4 bytes.
pub store32-SameOff : (m : Memory) (a v : ℕ) → SameOff a (a + 4) m (store32 m a v)
unfolding store32
store32-SameOff m a v b out = ground arith

store32-byte : (m : Memory) (a v k : ℕ) → k < 4 → store32 m a v (a + k) ≡ v / 256 ^ k % 256
unfolding store32
store32-byte m a v k h = ground (arith, ap (λ (n : ℕ). v / 256 ^ n % 256) e)
  where
    e : a + k - a ≡ k
    e = omega arith

module _ (m : Memory) (a low high : ℕ) where
  -- The halves of a word stored side by side.
  halves : Memory
  halves = store32 (store32 m a low) (a + 4) high

  halves-low : (k j : ℕ) → k < 4 → j ≡ a + k → halves j ≡ low / 256 ^ k % 256
  unfolding halves
  halves-low k j h e =
      store32-SameOff (store32 m a low) (a + 4) high j (inl (omega arith))
      ∙ ap (store32 m a low) e
      ∙ store32-byte m a low k h

  halves-high : (k j : ℕ) → k < 4 → j ≡ a + 4 + k → halves j ≡ high / 256 ^ k % 256
  unfolding halves
  halves-high k j h e =
      ap (store32 (store32 m a low) (a + 4) high) e
      ∙ store32-byte (store32 m a low) (a + 4) high k h

  load64-halves : low < 2 ^ 32 → load64 halves a ≡ low + high % 2 ^ 32 * 2 ^ 32
  unfolding load64
  load64-halves h = omega (
    arith,
    halves-low 0 a (omega arith) (omega arith),
    halves-low 1 (a + 1) (omega arith) refl,
    halves-low 2 (a + 2) (omega arith) refl,
    halves-low 3 (a + 3) (omega arith) refl,
    halves-high 0 (a + 4) (omega arith) (omega arith),
    halves-high 1 (a + 5) (omega arith) (omega arith),
    halves-high 2 (a + 6) (omega arith) (omega arith),
    halves-high 3 (a + 7) (omega arith) (omega arith),
  )

-- Two halves of a word that are stored side by side are read back as the word.
pub load64-store32 :
    (m : Memory) (a v : ℕ)
    → load64 (store32 (store32 m a (v % 2 ^ 32)) (a + 4) (v / 2 ^ 32)) a ≡ v % 2 ^ 64
unfolding halves
load64-store32 m a v = load64-halves m a (v % 2 ^ 32) (v / 2 ^ 32) (omega arith) ∙ omega arith

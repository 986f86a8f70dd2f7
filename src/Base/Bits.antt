-- ===== src/Base/Bits.antt =====
-- `&` with a mask of low ones is a remainder, and `|` of disjoint fields is a sum.
use Prim.Native.Nat.{
  ℕ, zero, suc, ◌+◌, ◌-◌, ◌*◌, ◌/◌, ◌%◌, ◌^◌, ◌≤◌, ◌<◌, min, max, digits, bit_and, bit_or,
  bit_and-bitwise, bit_or-bitwise,
}
use mathlib.Core.Path.{◌≡◌, refl, sym, ap, ap₂, ◌∙◌}
use native.Mathlib.Nat.{pow-suc, one-le-pow}
use native.Mathlib.Omega.{arith}

-- More fuel than the first operand changes nothing in the digit recursion.
digits-stable :
    (z : ℕ → ℕ) (f : ℕ → ℕ → ℕ) (k a b : ℕ) → a ≤ k → digits z f k a b ≡ digits z f a a b
digits-stable z f = go
  where
    two : (n : ℕ) (i j a b : ℕ) → a ≤ n → a ≤ i → a ≤ j → digits z f i a b ≡ digits z f j a b
    two n zero zero a b p q r = refl
    two n zero (suc j) zero b p q r = refl
    two n zero (suc j) (suc a) b p q r = absurd (omega arith)
    two n (suc i) zero zero b p q r = refl
    two n (suc i) zero (suc a) b p q r = absurd (omega arith)
    two n (suc i) (suc j) zero b p q r = refl
    two zero (suc i) (suc j) (suc a) b p q r = absurd (omega arith)
    two (suc n) (suc i) (suc j) (suc a) b p q r =
        ap (λ (t : ℕ). t * 2 + f (suc a % 2) (b % 2))
          (two n i j (suc a / 2) (b / 2) (omega arith) (omega arith) (omega arith))

    go : (k a b : ℕ) → a ≤ k → digits z f k a b ≡ digits z f a a b
    go k a b h = two a k a a b (omega arith) h (omega arith)

digits-suc :
    (z : ℕ → ℕ) (f : ℕ → ℕ → ℕ) (a b : ℕ)
    → digits z f (suc a) (suc a) b
      ≡ digits z f (suc a / 2) (suc a / 2) (b / 2) * 2 + f (suc a % 2) (b % 2)
digits-suc z f a b = omega (arith, digits-stable z f a (suc a / 2) (b / 2) (omega arith))

pub bit_and-halves : (a b : ℕ) → bit_and a b ≡ bit_and (a / 2) (b / 2) * 2 + min (a % 2) (b % 2)
bit_and-halves zero b = simp bit_and-bitwise (omega arith)
bit_and-halves (suc a) b = simp bit_and-bitwise (digits-suc (λ _. 0) min a b)

pub bit_or-halves : (a b : ℕ) → bit_or a b ≡ bit_or (a / 2) (b / 2) * 2 + max (a % 2) (b % 2)
bit_or-halves zero b = simp bit_or-bitwise (omega arith)
bit_or-halves (suc a) b = simp bit_or-bitwise (digits-suc (λ y. y) max a b)

bit_and-zero : (n a : ℕ) → a ≤ n → bit_and a 0 ≡ 0
bit_and-zero n zero h = simp bit_and-bitwise refl
bit_and-zero zero (suc a) h = absurd (omega arith)
bit_and-zero (suc n) (suc a) h =
    omega (arith, bit_and-halves (suc a) 0, bit_and-zero n (suc a / 2) (omega arith))

bit_or-zero : (n a : ℕ) → a ≤ n → bit_or a 0 ≡ a
bit_or-zero n zero h = simp bit_or-bitwise refl
bit_or-zero zero (suc a) h = absurd (omega arith)
bit_or-zero (suc n) (suc a) h =
    omega (arith, bit_or-halves (suc a) 0, bit_or-zero n (suc a / 2) (omega arith))

-- The remainder by 2t, from the remainder of the half by t.
mod-double : (t a : ℕ) → 0 < t → a % (2 * t) ≡ a / 2 % t * 2 + a % 2
mod-double t a h = grind arith

-- a & (2 ^ k - 1)
pub bit_and-low : (k a : ℕ) → bit_and a (2 ^ k - 1) ≡ a % 2 ^ k
bit_and-low zero a = rw (bit_and-zero a a (omega arith)) (omega arith)
bit_and-low (suc k) a = ground (
  arith,
  one-le-pow k 2,
  pow-suc 2 k,
  mod-double (2 ^ k) a,
  bit_and-halves a (2 ^ suc k - 1),
  bit_and-low k (a / 2),
)

-- (q << k) | r, where r fits k bits
pub bit_or-fields : (k q r : ℕ) → r < 2 ^ k → bit_or (q * 2 ^ k) r ≡ q * 2 ^ k + r
bit_or-fields zero q r h =
    let z : r ≡ 0 = omega arith in rw z (ground (arith, bit_or-zero (q * 1) (q * 1)))
bit_or-fields (suc k) q r h = ground (
  arith,
  bit_or-halves (q * 2 ^ suc k) r,
  ap (λ (t : ℕ). q * t) (pow-suc 2 k),
  pow-suc 2 k,
  bit_or-fields k q (r / 2) (omega (arith, pow-suc 2 k)),
)

-- The high four bits of a byte.
pub bit_and-high_nibble : (b : ℕ) → b < 256 → bit_and b 0xf0 ≡ b / 16 * 16
bit_and-high_nibble b h = omega (
  arith,
  bit_and-halves b 0xf0,
  bit_and-halves (b / 2) 0x78,
  bit_and-halves (b / 2 / 2) 0x3c,
  bit_and-halves (b / 2 / 2 / 2) 0x1e,
  bit_and-low 4 (b / 2 / 2 / 2 / 2),
)

half-power : (k : ℕ) → 2 ^ suc k / 2 ≡ 2 ^ k
half-power k = omega (arith, pow-suc 2 k)

half-div : (t a : ℕ) → 0 < t → a / 2 / t ≡ a / (2 * t)
half-div t a h = grind arith

-- a & (1 << k)
pub bit_and-power : (k a : ℕ) → bit_and a (2 ^ k) ≡ a / 2 ^ k % 2 * 2 ^ k
bit_and-power zero a = omega (arith, bit_and-halves a 1, bit_and-zero (a / 2) (a / 2) (omega arith))
bit_and-power (suc k) a =
    bit_and-halves a (2 ^ suc k) ∙ below (bit_and-power k (a / 2)) ∙ sym (ap₂ ◌*◌ bit double)
  where
    regroup : (x t : ℕ) → x * t * 2 ≡ x * (2 * t)
    regroup x t = grind arith

    double : 2 ^ suc k ≡ 2 * 2 ^ k
    double = omega (arith, pow-suc 2 k)

    below :
        bit_and (a / 2) (2 ^ k) ≡ a / 2 / 2 ^ k % 2 * 2 ^ k
        → bit_and (a / 2) (2 ^ suc k / 2) * 2 + min (a % 2) (2 ^ suc k % 2)
          ≡ a / 2 / 2 ^ k % 2 * (2 * 2 ^ k)
    below ih = omega (
      arith,
      ap (bit_and (a / 2)) (half-power k),
      ih,
      regroup (a / 2 / 2 ^ k % 2) (2 ^ k),
      double,
    )

    bit : a / 2 ^ suc k % 2 ≡ a / 2 / 2 ^ k % 2
    bit =
        ap (λ (t : ℕ). a / t % 2) double
        ∙ ap (λ (t : ℕ). t % 2)
            (sym (half-div (2 ^ k) a (omega (arith, one-le-pow k 2 (omega arith)))))

-- (a & b) >> k, by the shifted words.
pub bit_and-shifted : (k a b : ℕ) → bit_and a b / 2 ^ k ≡ bit_and (a / 2 ^ k) (b / 2 ^ k)
bit_and-shifted zero a b = whole (bit_and a b) ∙ sym (ap₂ bit_and (whole a) (whole b))
  where
    whole : (x : ℕ) → x / 2 ^ 0 ≡ x
    whole x = omega arith
bit_and-shifted (suc k) a b =
    half (bit_and a b)
    ∙ ap (λ (t : ℕ). t / 2 ^ k) (omega (arith, bit_and-halves a b))
    ∙ bit_and-shifted k (a / 2) (b / 2)
    ∙ sym (ap₂ bit_and (half a) (half b))
  where
    double : 2 ^ suc k ≡ 2 * 2 ^ k
    double = omega (arith, pow-suc 2 k)

    half : (x : ℕ) → x / 2 ^ suc k ≡ x / 2 / 2 ^ k
    half x =
        ap (λ (t : ℕ). x / t) double
        ∙ sym (half-div (2 ^ k) x (omega (arith, one-le-pow k 2 (omega arith))))

-- r | (q << k), where r fits k bits
pub bit_or-above : (k q r : ℕ) → r < 2 ^ k → bit_or r (q * 2 ^ k) ≡ q * 2 ^ k + r
bit_or-above zero q r h = let z : r ≡ 0 = omega arith in rw z (simp bit_or-bitwise (omega arith))
bit_or-above (suc k) q r h = ground (
  arith,
  bit_or-halves r (q * 2 ^ suc k),
  ap (λ (t : ℕ). q * t) (pow-suc 2 k),
  pow-suc 2 k,
  bit_or-above k q (r / 2) (omega (arith, pow-suc 2 k)),
)

pub bit_or-zero_left : (a : ℕ) → bit_or 0 a ≡ a
bit_or-zero_left a = simp bit_or-bitwise refl

-- ===== src/Base/Int.antt =====
-- Signed C integers: the numbers, and the 32-bit patterns that stand for them.
use Prim.Native.Nat.{ℕ, zero, suc, ◌+◌, ◌-◌, ◌%◌, ◌^◌}
use mathlib.Core.Path.{◌≡◌, refl}
use mathlib.Core.Bool.{Bool, true, false}
use native.Mathlib.Omega.{arith}
use sesh_os.Base.Tests.{ltb, leb, if◌then◌else◌}

-- `negsuc n` is -(n + 1).
pub data ℤ : Type 0 where
  pos : ℕ → ℤ
  negsuc : ℕ → ℤ

abbrev pub pos_part : ℤ → ℕ
pos_part (pos n) = n
pos_part (negsuc n) = 0

abbrev pub neg_part : ℤ → ℕ
neg_part (pos n) = 0
neg_part (negsuc n) = suc n

-- a - b, as an integer.
abbrev pub sub_ℕ : ℕ → ℕ → ℤ
sub_ℕ a b = if leb b a then pos (a - b) else negsuc (b - a - 1)

-- The conversion of an `int` to `uint8_t`.
abbrev pub u8_of : ℤ → ℕ
u8_of (pos n) = n % 2 ^ 8
u8_of (negsuc n) = 255 - n % 2 ^ 8

-- The `int` that a 32-bit pattern stands for.
abbrev pub signed32 : ℕ → ℤ
signed32 w = if ltb w (2 ^ 31) then pos w else negsuc (2 ^ 32 - w - 1)

-- The 32-bit pattern of a plain `char`, which is signed on this machine.
abbrev pub char32 : ℕ → ℕ
char32 c = if ltb c 128 then c else c + 2 ^ 32 - 256

-- `!x` in a condition.
abbrev pub is_zero : ℤ → Bool
is_zero (pos zero) = true
is_zero _ = false

pub is_zero→eq : (x : ℤ) → is_zero x ≡ true → x ≡ pos 0
is_zero→eq (pos zero) h = refl
is_zero→eq _ h = absurd (ground arith)

pub eq→is_zero : (x : ℤ) → x ≡ pos 0 → is_zero x ≡ true
eq→is_zero x e = rw e

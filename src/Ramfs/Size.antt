-- ===== src/Ramfs/Size.antt =====
-- The size field of a tar header.
use sesh_os.Base.{ℕ, zero, suc, ◌+◌, ◌-◌, ◌*◌, ◌%◌, ◌/◌, ◌^◌, ◌≤◌, ◌<◌, ◌≡◌, ◌∙◌, arith, u32}
use sesh_os.Base.Memory.{Memory}
use sesh_os.Ramfs.{digit, getsize_loop, getsize, next_address}

-- The first `n` bytes at `p` are octal digits.
abbrev pub AllOctal : Memory → ℕ → ℕ → Type 0
AllOctal m p n = (k : ℕ) → k < n → (b'0' ≤ m (p + k)) × (m (p + k) ≤ b'7')

-- The number that the first `n` bytes at `p` stand for in octal.
abbrev pub octal : Memory → ℕ → ℕ → ℕ
octal m p zero = 0
octal m p (suc n) = octal m p n * 8 + (m (p + n) - b'0')

digit-octal : (m : Memory) (a : ℕ) → b'0' ≤ m a → m a ≤ b'7' → digit m a ≡ m a - b'0'
digit-octal m a lo hi = ground arith

-- What the first `n` digits add, the last one counted `count` times.
weighted : Memory → ℕ → ℕ → ℕ → ℕ
weighted m p zero count = 0
weighted m p (suc n) count = (m (p + n) - b'0') * count + weighted m p n (u32 (count * 8))

getsize_loop-weighted :
    (m : Memory) (p n size count : ℕ)
    → AllOctal m p n
    → size < 2 ^ 32
    → getsize_loop n m p size count ≡ (size + weighted m p n count) % 2 ^ 32
unfolding getsize_loop weighted
getsize_loop-weighted m p zero size count h s = omega arith
getsize_loop-weighted m p (suc n) size count h s =
    rw (digit-octal m (p + n) (h n (omega arith)).0 (h n (omega arith)).1) (
      getsize_loop-weighted m p n _ (u32 (count * 8)) (λ k l. h k (omega arith)) (omega arith)
      ∙ omega arith)

-- `getsize` of eleven octal digits is the number they stand for, modulo 2^32.
pub getsize-octal : (m : Memory) (p : ℕ) → AllOctal m p 11 → getsize m p ≡ octal m p 11 % 2 ^ 32
unfolding getsize weighted
getsize-octal m p h = getsize_loop-weighted m p 11 0 1 h (omega arith) ∙ omega arith

-- Below the 32-bit limit the next header stands behind this one and its contents, which are filled
-- up to blocks of 512 bytes.
pub next_address-blocks :
    (address size : ℕ)
    → address + size + 1024 < 2 ^ 32
    → next_address address size ≡ address + 512 + (size + 511) / 512 * 512
unfolding next_address
next_address-blocks address size h = ground arith

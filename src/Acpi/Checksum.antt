-- ===== src/Acpi/Checksum.antt =====
-- What the checksum of kernel/acpi/acpi.c finds.
use sesh_os.Base.{
  ℕ, zero, suc, ◌+◌, ◌*◌, ◌%◌, ◌^◌, ◌<◌, ◌≡◌, ap, sym, ◌∙◌, ◌≢◌, true, false, arith, ◌⊎◌, inl, inr,
  ==→eq, ne→==,
}
use sesh_os.Base.Memory.{Memory}
use sesh_os.Base.Words.{load32}
use sesh_os.Acpi.{char_in, checksum_loop, do_checksum}

-- The sum of `n` bytes from `p`.
abbrev pub byte_sum : Memory → (p n : ℕ) → ℕ
byte_sum m p zero = 0
byte_sum m p (suc n) = m p + byte_sum m (p + 1) n

-- The words that a `uint_fast32_t` may have.
abbrev pub IsFast : ℕ → Type 0
IsFast w = (w ≡ 32) ⊎ (w ≡ 64)

-- Adding a `char` and adding the byte agree in the low 8 bits.
low : (w sum c : ℕ) → IsFast w → (sum + char_in w c) % 2 ^ w % 256 ≡ (sum + c) % 256
low w sum c (inl e) = rw e (ground arith)
low w sum c (inr e) = rw e (ground arith)

-- The sum of bytes below 128 is the sum of their `char`s.
small :
    (w sum c : ℕ) → IsFast w → c < 128 → sum + c < 2 ^ 32 → (sum + char_in w c) % 2 ^ w ≡ sum + c
small w sum c (inl e) h l = rw e (ground arith)
small w sum c (inr e) h l = rw e (ground arith)

-- A byte of the loop's sum and the bytes behind it.
add_low : (x y t u : ℕ) → x % 256 ≡ y % 256 → t ≡ u → (x + t) % 256 ≡ (y + u) % 256
add_low x y t u e f = omega arith

byte_sum-eq : (m : Memory) (p q n : ℕ) → p ≡ q → byte_sum m p n ≡ byte_sum m q n
byte_sum-eq m p q n e = ap (λ (k : ℕ). byte_sum m k n) e

at_start : (m : Memory) (p n : ℕ) → 0 + byte_sum m (p + 0) n ≡ byte_sum m p n
at_start m p n = omega (arith, byte_sum-eq m (p + 0) p n (omega arith))

module _ (w : ℕ) (fast : IsFast w) where
  -- Of the low 8 bits, the loop adds those of the bytes.
  checksum_loop-low :
      (left i : ℕ) (m : Memory) (header sum : ℕ)
      → checksum_loop w left i m header sum % 256 ≡ (sum + byte_sum m (header + i) left) % 256
  unfolding checksum_loop
  checksum_loop-low zero i m header sum = omega arith
  checksum_loop-low (suc left) i m header sum =
      checksum_loop-low left (i + 1) m header ((sum + char_in w (m (header + i))) % 2 ^ w)
      ∙ add_low _ (sum + m (header + i)) _ _ (low w sum (m (header + i)) fast)
          (byte_sum-eq m (header + (i + 1)) (header + i + 1) left (omega arith))
      ∙ omega arith

  -- Every byte of the table is below 128.
  checksum_loop-small :
      (left i : ℕ) (m : Memory) (header sum : ℕ)
      → ((k : ℕ) → k < i + left → m (header + k) < 128)
      → sum + 128 * left < 2 ^ 32
      → checksum_loop w left i m header sum ≡ sum + byte_sum m (header + i) left
  unfolding checksum_loop
  checksum_loop-small zero i m header sum ascii room = omega arith
  checksum_loop-small (suc left) i m header sum ascii room =
      ap (checksum_loop w left (i + 1) m header) (
        small w sum (m (header + i)) fast (ascii i (omega arith))
          (omega (arith, ascii i (omega arith))))
      ∙ checksum_loop-small left (i + 1) m header (sum + m (header + i))
          (λ k h. ascii k (omega arith)) (omega (arith, ascii i (omega arith)))
      ∙ omega (arith, byte_sum-eq m (header + (i + 1)) (header + i + 1) left (omega arith))

  -- A table that passes the checksum has bytes that add up to a multiple of 256, as it should. But a
  -- table of fewer than 2^24 bytes, all below 128 and not all of them 0, never passes, even if they
  -- do add up to one.
  pub do_checksum-byte_sum :
      (m : Memory) (header : ℕ)
      → ((do_checksum w m header).0 ≡ true → byte_sum m header (load32 m (header + 4)) % 256 ≡ 0)
        × (load32 m (header + 4) < 2 ^ 24
            → ((k : ℕ) → k < load32 m (header + 4) → m (header + k) < 128)
            → byte_sum m header (load32 m (header + 4)) ≢ 0
            → (do_checksum w m header).0 ≡ false)
  unfolding do_checksum
  do_checksum-byte_sum m header = (
    λ passed.
        sym (
          checksum_loop-low (load32 m (header + 4)) 0 m header 0
          ∙ ap (λ (k : ℕ). k % 256) (at_start m header _))
        ∙ ap (λ (k : ℕ). k % 256) (==→eq _ 0 passed),
    λ short ascii some. ne→== _ 0 (λ e. some (
        sym (
          checksum_loop-small (load32 m (header + 4)) 0 m header 0 (λ k h. ascii k (omega arith))
            (omega arith)
          ∙ at_start m header _)
        ∙ e)),
  )

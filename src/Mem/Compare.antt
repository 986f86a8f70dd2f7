-- ===== src/Mem/Compare.antt =====
-- `memcmp` of kernel/memory/mem.c decides equality and gives the sign of the first difference.
use sesh_os.Base.{
  ℕ, zero, suc, ◌+◌, ◌<◌, ◌≡◌, refl, ◌≢◌, ◌↔◌, inl, inr, arith, ◌==◌, ltb, if◌then◌else◌,
  Bool-cases, ==→eq, ne→==, ap,
}
use sesh_os.Base.Int.{pos, negsuc}
use sesh_os.Base.Memory.{Memory}
use sesh_os.Mem.{memcmp_loop, memcmp}

-- The `n` bytes at `p` and at `q` are the same.
abbrev pub SameBytes : Memory → ℕ → ℕ → ℕ → Type 0
SameBytes m p q n = (i : ℕ) → i < n → m (p + i) ≡ m (q + i)

memcmp_loop-SameBytes :
    (n : ℕ) (m : Memory) (p q : ℕ) → SameBytes m p q n → memcmp_loop n m p q ≡ pos 0
unfolding memcmp_loop
memcmp_loop-SameBytes zero m p q h = refl
memcmp_loop-SameBytes (suc n) m p q h =
    ground
      (arith, h 0, memcmp_loop-SameBytes n m (p + 1) (q + 1) (λ i l. ground (arith, h (suc i))))

SameBytes-memcmp_loop :
    (n : ℕ) (m : Memory) (p q : ℕ) → memcmp_loop n m p q ≡ pos 0 → SameBytes m p q n
unfolding memcmp_loop
SameBytes-memcmp_loop zero m p q h i l = absurd (omega arith)
SameBytes-memcmp_loop (suc n) m p q h zero l = ground arith
SameBytes-memcmp_loop (suc n) m p q h (suc i) l =
    ground (arith, SameBytes-memcmp_loop n m (p + 1) (q + 1) (ground arith) i (omega arith))

-- `k` is the place of the first difference within `n` bytes.
abbrev pub FirstDifference : Memory → ℕ → ℕ → ℕ → ℕ → Type 0
FirstDifference m p q n k = (k < n) × SameBytes m p q k × (m (p + k) ≢ m (q + k))

memcmp_loop-difference :
    (n k : ℕ) (m : Memory) (p q : ℕ)
    → FirstDifference m p q n k
    → memcmp_loop n m p q ≡ (if ltb (m (q + k)) (m (p + k)) then pos 1 else negsuc 0)
unfolding memcmp_loop
memcmp_loop-difference zero k m p q h = absurd (omega arith)
memcmp_loop-difference (suc n) zero m p q h = ground arith
memcmp_loop-difference (suc n) (suc k) m p q h = ground (
  arith,
  h.1 0,
  memcmp_loop-difference n k m (p + 1) (q + 1)
      (omega arith, (λ i l. ground (arith, h.1 (suc i))), (λ e. ground (arith, h.2))),
)

-- `memcmp` of `n` bytes is 0 exactly when the bytes are the same.
pub memcmp-zero_iff : (m : Memory) (p q n : ℕ) → (memcmp m p q (pos n) ≡ pos 0) ↔ SameBytes m p q n
unfolding memcmp
memcmp-zero_iff m p q n = elim (Bool-cases (p == q)) [
  | inl same ↦ let e = ==→eq p q same in ((λ _ i l. ap m (ap (λ (t : ℕ). t + i) e)), λ _. rw same)
  | inr other ↦ rw other (SameBytes-memcmp_loop n m p q, memcmp_loop-SameBytes n m p q)
]

-- Where the bytes differ, `memcmp` is 1 or -1, as the first that differs is greater at the first
-- or at the second pointer.
pub memcmp-difference :
    (m : Memory) (p q n k : ℕ)
    → FirstDifference m p q n k
    → memcmp m p q (pos n) ≡ (if ltb (m (q + k)) (m (p + k)) then pos 1 else negsuc 0)
unfolding memcmp
memcmp-difference m p q n k h =
    let apart : p ≢ q = λ e. h.2 (ap (λ (t : ℕ). m (t + k)) e) in
    rw (ne→== p q apart) (memcmp_loop-difference n k m p q h)

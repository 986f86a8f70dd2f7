-- ===== src/Heap/Free.antt =====
-- `free` of kernel/memory/malloc.c on a well-formed heap.
use sesh_os.Base.{
  ℕ, ◌+◌, ◌-◌, ◌^◌, ◌≤◌, ◌<◌, ◌≡◌, ◌≢◌, refl, ◌∙◌, ap, sym, true, List, [], ◌∷◌, ◌++◌, arith, ◌==◌,
  u64, ne→==, Bool-cases, inl, inr,
}
use mathlib.Core.Path.{subst}
use sesh_os.Base.Memory.{Memory, SameOff}
use sesh_os.Heap.{Heap, mcb_bytes, mcb_size, set_free, free}
use sesh_os.Heap.Blocks.{
  Block, block, Chain, top, IsHeap, Chain-le, mcb_free-eq, mcb_size-eq, mcb_free-set,
  set_free-SameOff, Chain-SameOn,
}

-- The bytes that a list of blocks takes.
abbrev pub total : List Block → ℕ
total [] = 0
total (b ∷ bs) = b.size + total bs

-- Marking the header behind `pre` as free.
pub Chain-mark :
    (m : Memory) (p q at : ℕ) (pre : List Block) (b : Block) (post : List Block)
    → Chain m p q (pre ++ b ∷ post)
    → p + total pre ≡ at
    → (mcb_size m at ≡ b.size)
      × (16 ≤ b.size)
      × (at + b.size ≤ q)
      × Chain (set_free m at true) p q (pre ++ block true b.size ∷ post)
Chain-mark m p q at [] b post c e =
    subst
      (λ t.
        (mcb_size m t ≡ b.size)
        × (16 ≤ b.size)
        × (t + b.size ≤ q)
        × Chain (set_free m t true) p q (block true b.size ∷ post))
      here
      (
        c.1,
        c.2,
        omega (arith, Chain-le m (p + b.size) q post c.3),
        (
          mcb_free-set m p true,
          mcb_size-eq m (set_free m p true) p (λ a l r. set_free-SameOff m p true a (omega arith))
              ∙ c.1,
          c.2,
          Chain-SameOn m (set_free m p true) (p + b.size) q post c.3
              (λ a l r. set_free-SameOff m p true a (omega arith)),
        ),
      )
  where
    here : p ≡ at
    here = omega arith
Chain-mark m p q at (x ∷ pre) b post c e =
    let (size, large, below, rest) = Chain-mark m (p + x.size) q at pre b post c.3 (omega arith) in
    (
      size,
      large,
      below,
      (
        mcb_free-eq m (set_free m at true) p (set_free-SameOff m at true p (omega arith)) ∙ c.0,
        mcb_size-eq m (set_free m at true) p (λ a l r. set_free-SameOff m at true a (omega arith))
            ∙ c.1,
        c.2,
        rest,
      ),
    )

free-eq :
    (h : Heap) (ptr at : ℕ)
    → ptr ≡ at + 16
    → at < 2 ^ 64
    → mcb_size h.mem at ≢ 0
    → free h ptr ≡ record h { mem = set_free h.mem at true }
unfolding free
free-eq h ptr at e bound used = rw (to_header, ne→== ptr 0 (omega arith), ne→== _ 0 used) refl
  where
    to_header : u64 (ptr + 2 ^ 64 - mcb_bytes) ≡ at
    to_header = omega arith

-- `free` of the address behind a block's header marks that block free and leaves every other block
-- and every byte but the header's first as it was.
pub free-marks :
    (h : Heap) (pre : List Block) (b : Block) (post : List Block) (ptr : ℕ)
    → IsHeap h (pre ++ b ∷ post)
    → ptr ≡ h.space + total pre + 16
    → top h < 2 ^ 64
    → IsHeap (free h ptr) (pre ++ block true b.size ∷ post)
      × SameOff (ptr - 16) (ptr - 15) h.mem (free h ptr).mem
free-marks h pre b post ptr is e bound =
    let at = h.space + total pre in
    let (size, large, below, marked) =
      Chain-mark h.mem h.space (top h) at pre b post is.chain refl in
    let at' : ptr - 16 ≡ at = omega arith in
    let freed = free-eq h ptr at e (omega arith) (λ z. absurd (omega (arith, size, large))) in
    (
      subst (λ g. IsHeap g (pre ++ block true b.size ∷ post)) (sym freed)
          (record { never_set = is.never_set; positive = is.positive; chain = marked }),
      λ a out. ap (λ (g : Heap). g.mem a) freed ∙ set_free-SameOff h.mem at true a (omega arith),
    )

-- `free` writes at most the first byte of the header.
pub free-others :
    (h : Heap) (ptr at a : ℕ)
    → u64 (ptr + 2 ^ 64 - mcb_bytes) ≡ at
    → a ≢ at
    → (free h ptr).mem a ≡ h.mem a
unfolding free
free-others h ptr at a e other = elim (Bool-cases (ptr == 0)) [
  | inl null ↦ rw null
  | inr some' ↦ elim (Bool-cases (mcb_size h.mem at == 0)) [
    | inl unused ↦ rw (some', e, unused)
    | inr used ↦ rw (some', e, used) (set_free-SameOff h.mem at true a (omega arith))
  ]
]

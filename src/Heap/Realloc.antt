-- ===== src/Heap/Realloc.antt =====
-- `realloc` of kernel/memory/malloc.c on a well-formed heap.
use sesh_os.Base.{
  ℕ, ◌+◌, ◌-◌, ◌^◌, ◌<◌, ◌≡◌, ◌≢◌, refl, ◌∙◌, ap, sym, true, false, List, [], ◌∷◌, ◌++◌, arith, u64,
  ne→==, ◌==◌, Bool-cases, inl, inr,
}
use sesh_os.Base.Run.{done}
use sesh_os.Mem.{memcpy}
use sesh_os.Mem.Copy.{memcpy_lem, copied-inside}
use sesh_os.Heap.{Heap, mcb_bytes, mcb_size, malloc, free, realloc}
use mathlib.Core.Path.{subst}
use mathlib.Core.List.{append_assoc}
use sesh_os.Base.Memory.{Memory}
use sesh_os.Heap.Blocks.{
  Block, block, top, IsHeap, Chain, Chain-SameOn, Chain-append, mcb_free-eq, mcb_size-eq,
}
use sesh_os.Heap.Malloc.{Appended, malloc-Appended}
use sesh_os.Heap.Free.{total, Chain-mark, free-marks, free-others}

-- A null pointer makes `realloc` a `malloc`, and the size 0 makes it a `free` that returns `NULL`.
pub realloc-edges :
    (fuel : ℕ) (h : Heap) (ptr size : ℕ)
    → (realloc fuel h 0 size ≡ malloc fuel h size)
      × (ptr ≢ 0 → realloc fuel h ptr 0 ≡ done (free h ptr, 0))
unfolding realloc
realloc-edges fuel h ptr size = (refl, λ ne. rw (ne→== ptr 0 ne) refl)

free-top : (h : Heap) (ptr : ℕ) → top (free h ptr) ≡ top h
unfolding free
free-top h ptr = elim (Bool-cases (ptr == 0)) [
  | inl null ↦ rw null refl
  | inr some' ↦ elim (Bool-cases (mcb_size h.mem (u64 (ptr + 2 ^ 64 - mcb_bytes)) == 0)) [
    | inl unused ↦ rw (some', unused) refl
    | inr used ↦ rw (some', used) refl
  ]
]

realloc-done :
    (fuel : ℕ) (h h1 : Heap) (ptr at size new n : ℕ)
    → ptr ≢ 0
    → size ≢ 0
    → u64 (ptr + 2 ^ 64 - mcb_bytes) ≡ at
    → malloc fuel h size ≡ done (h1, new)
    → mcb_size h1.mem at ≡ n
    → realloc fuel h ptr size
      ≡ done (free (record h1 { mem = (memcpy h1.mem new ptr n).0 }) ptr, new)
unfolding realloc
realloc-done fuel h h1 ptr at size new n e1 e2 e3 e4 e5 =
    rw (ne→== ptr 0 e1, ne→== size 0 e2, e4, e3, e5) refl

Chain-last :
    (m : Memory) (p q r : ℕ) (bs : List Block) (b : Block)
    → Chain m p q bs
    → Chain m p r (bs ++ b ∷ [])
    → Chain m q r (b ∷ [])
Chain-last m p q r [] b c d = subst (λ t. Chain m t r (b ∷ [])) c d
Chain-last m p q r (x ∷ bs) b c d = Chain-last m (p + x.size) q r bs b c.3 d.3

Chain-total : (m : Memory) (p q : ℕ) (bs : List Block) → Chain m p q bs → q ≡ p + total bs
Chain-total m p q [] c = omega arith
Chain-total m p q (b ∷ bs) c = omega (arith, Chain-total m (p + b.size) q bs c.3)

total-append : (bs cs : List Block) → total (bs ++ cs) ≡ total bs + total cs
total-append [] cs = omega arith
total-append (b ∷ bs) cs = omega (arith, total-append bs cs)

Appended-space :
    (h h1 : Heap) (bs : List Block) (n ptr : ℕ)
    → IsHeap h bs
    → Appended h bs n h1 ptr
    → h1.space ≡ h.space
Appended-space h h1 bs n ptr is put = omega (
  arith,
  Chain-total h.mem h.space (top h) bs is.chain,
  Chain-total h1.mem h1.space (top h1) (bs ++ block false n ∷ []) put.blocks.chain,
  total-append bs (block false n ∷ []),
  put.end,
)

-- The blocks stay when only bytes behind the header of the last one change.
IsHeap-written :
    (h h1 : Heap) (bs : List Block) (n : ℕ) (ptr : ℕ) (g : Memory)
    → IsHeap h bs
    → Appended h bs n h1 ptr
    → h1.space ≡ h.space
    → ((a : ℕ) → a < top h + 16 → g a ≡ h1.mem a)
    → IsHeap (record h1 { mem = g }) (bs ++ block false n ∷ [])
IsHeap-written h h1 bs n ptr g is put placed same =
    let old : Chain h1.mem h.space (top h) bs =
      Chain-SameOn h.mem h1.mem h.space (top h) bs is.chain
        (λ a l r. put.untouched a (omega arith)) in
    let all : Chain h1.mem h.space (top h1) (bs ++ block false n ∷ []) =
      subst (λ (s : ℕ). Chain h1.mem s (top h1) (bs ++ block false n ∷ [])) placed
        put.blocks.chain in
    let last = Chain-last h1.mem h.space (top h) (top h1) bs (block false n) old all in
    let kept : Chain g h.space (top h1) (bs ++ block false n ∷ []) =
      Chain-append g h.space (top h) (top h1) bs (block false n)
        (Chain-SameOn h1.mem g h.space (top h) bs old (λ a l r. same a (omega arith)))
        (
          mcb_free-eq h1.mem g (top h) (same (top h) (omega arith)) ∙ last.0,
          mcb_size-eq h1.mem g (top h) (λ a l r. same a r) ∙ last.1,
          last.2,
          last.3,
        ) in
    record {
      never_set = put.blocks.never_set;
      positive = put.blocks.positive;
      chain = subst (λ (s : ℕ). Chain g s (top h1) (bs ++ block false n ∷ [])) (sym placed) kept;
    }

-- `realloc` of a block to a size that is not 0 appends a block of that size at the end of the heap,
-- returns its address, marks the old block free and keeps all others and their bytes; the new block
-- begins with every byte that the old block held, also where the new one is smaller and the bytes
-- behind its end are overwritten.
pub realloc-copies :
    (fuel : ℕ) (h : Heap) (pre : List Block) (b : Block) (post : List Block) (ptr size k : ℕ)
    → IsHeap h (pre ++ b ∷ post)
    → ptr ≡ h.space + total pre + 16
    → size ≢ 0
    → top h + size + 16 < 2 ^ 64
    → k + 16 < b.size
    → (h' : Heap) × (realloc fuel h ptr size ≡ done (h', top h + 16))
      × IsHeap h' (pre ++ block true b.size ∷ (post ++ block false (size + 16) ∷ []))
      × (top h' ≡ top h + size + 16)
      × ((a : ℕ) → a < top h → a ≢ ptr - 16 → h'.mem a ≡ h.mem a)
      × (h'.mem (top h + 16 + k) ≡ h.mem (ptr + k))
realloc-copies fuel h pre b post ptr size k is e ne room inside =
    let at = h.space + total pre in
    let bs = pre ++ b ∷ post in
    let (old_size, large, below, marked) =
      Chain-mark h.mem h.space (top h) at pre b post is.chain refl in
    let (h1, new, runs, put) = malloc-Appended fuel h bs size is room in
    let header : u64 (ptr + 2 ^ 64 - mcb_bytes) ≡ at = omega arith in
    let same_size : mcb_size h1.mem at ≡ b.size =
      mcb_size-eq h.mem h1.mem at (λ a l r. put.untouched a (omega arith)) ∙ old_size in
    let g : Heap = record h1 { mem = (memcpy h1.mem new ptr b.size).0 } in
    let copies = (memcpy_lem h1.mem new ptr b.size (omega (arith, put.location))).1 in
    let written = copies (new + k) in
    let placed = Appended-space h h1 bs (size + 16) new is put in
    let all : IsHeap g (pre ++ b ∷ (post ++ block false (size + 16) ∷ [])) =
      subst (IsHeap g) (append_assoc pre (b ∷ post) (block false (size + 16) ∷ [])) (
        IsHeap-written h h1 bs (size + 16) new g.mem is put placed
          (λ a l. ground (arith, copies a, put.location))) in
    let freed =
      free-marks g pre b (post ++ block false (size + 16) ∷ []) ptr all (omega (arith, placed))
        (omega (arith, put.end)) in
    let kept = put.untouched (ptr + k) (omega arith) in
    (
      free g ptr,
      realloc-done fuel h h1 ptr at size new b.size (omega arith) ne header runs same_size
          ∙ ap (λ (p : ℕ). done (free g ptr, p)) put.location,
      freed.0,
      free-top g ptr ∙ put.end ∙ omega arith,
      (λ a l other.
          freed.1 a (omega arith)
          ∙ ground (arith, copies a, put.location)
          ∙ put.untouched a (omega arith)),
      ap (free g ptr).mem (omega (arith, put.location))
          ∙ free-others g ptr at (new + k) header (omega (arith, put.location))
          ∙ written
          ∙ copied-inside h1.mem new ptr b.size k (omega arith)
          ∙ kept,
    )

-- ===== src/Heap/Malloc.antt =====
-- `malloc` and `free` of kernel/memory/malloc.c on a well-formed heap.
use sesh_os.Base.{
  ℕ, ◌+◌, ◌-◌, ◌%◌, ◌^◌, ◌≤◌, ◌<◌, ◌≡◌, refl, ◌∙◌, ap, sym, Bool, true, false, List, [], ◌∷◌, ◌++◌,
  arith, if◌then◌else◌, u64, inl,
}
use mathlib.Core.Path.{subst}
use sesh_os.Base.Run.{done, ◌>>=◌}
use sesh_os.Base.Memory.{Memory, SameOff}
use sesh_os.Heap.{
  Heap, mcb_bytes, set_free, set_size, aligned_loop, aligned_ptr, search_blocks, set_up, finish,
  malloc,
}
use sesh_os.Heap.Blocks.{
  Block, block, Chain, top, IsHeap, mcb_free-eq, mcb_free-set, mcb_size-set, set_free-SameOff,
  set_size-SameOff, Chain-SameOn, Chain-append,
}

-- `aligned_ptr` returns the least multiple of 4 that is not below its argument.
pub aligned_ptr-least :
    (p : ℕ) → (r : ℕ) × (aligned_ptr p ≡ done r) × (r % 4 ≡ 0) × (p ≤ r) × (r < p + 4)
unfolding aligned_ptr aligned_loop
aligned_ptr-least p = (p + (4 - p % 4) % 4, ground arith, omega arith, omega arith, omega arith)

-- What a call of `malloc` does that puts a block of `n` bytes at the end.
pub record Appended (h : Heap) (bs : List Block) (n : ℕ) (h' : Heap) (ptr : ℕ) : Type 0 where
  pub blocks : IsHeap h' (bs ++ block false n ∷ [])
  pub location : ptr ≡ top h + 16
  pub end : top h' ≡ top h + n
  pub untouched : SameOff (top h) (top h + 16) h.mem h'.mem

pub malloc-finish :
    (fuel : ℕ) (h : Heap) (size : ℕ)
    → h.have_allocated ≡ false
    → malloc fuel h size ≡ done (finish (u64 (size + mcb_bytes)) (set_up h, 0))
unfolding malloc
malloc-finish fuel h size e =
    ap
      (λ (b : Bool).
        (if b
          then search_blocks fuel (set_up h) (set_up h).space (set_up h).space
              (u64 (size + mcb_bytes))
          else done (set_up h, 0))
        >>= λ found. done (finish (u64 (size + mcb_bytes)) found))
      kept
  where
    kept : (set_up h).have_allocated ≡ false
    kept = ground arith

-- `set_up` moves nothing: the next block comes to the same place.
pub set_up_lem :
    (h : Heap)
    → ((set_up h).last_valid_address ≡ top h)
      × ((set_up h).is_set_up ≡ true)
      × ((set_up h).mem ≡ h.mem)
      × ((set_up h).space ≡ h.space)
      × ((set_up h).have_allocated ≡ h.have_allocated)
unfolding set_up
set_up_lem h = ground arith

pub top-set_up : (h : Heap) → top (set_up h) ≡ top h
top-set_up h = ground (arith, set_up_lem h)

set_up-IsHeap : (h : Heap) (bs : List Block) → IsHeap h bs → IsHeap (set_up h) bs
set_up-IsHeap h bs is =
    let (_, _, mem, space, allocated) = set_up_lem h in
    record {
      never_set = allocated ∙ is.never_set;
      positive = rw space is.positive;
      chain =
          subst (λ t. Chain (set_up h).mem (set_up h).space t bs) (sym (top-set_up h))
            (rw (mem, space) is.chain);
    }

-- The memory after the new header was written at `p`.
pub header-SameOff :
    (m : Memory) (p n : ℕ) → SameOff p (p + 16) m (set_size (set_free m p false) p n)
header-SameOff m p n a out =
    set_size-SameOff (set_free m p false) p n a (omega arith)
    ∙ set_free-SameOff m p false a (omega arith)

header-Chain :
    (m : Memory) (p n q : ℕ)
    → n < 2 ^ 64
    → 16 ≤ n
    → p + n ≡ q
    → Chain (set_size (set_free m p false) p n) p q (block false n ∷ [])
header-Chain m p n q h l e = (
  mcb_free-eq (set_free m p false) (set_size (set_free m p false) p n) p
        (set_size-SameOff (set_free m p false) p n p (omega arith))
      ∙ mcb_free-set m p false,
  mcb_size-set (set_free m p false) p n h,
  l,
  e,
)

finish-Appended :
    (g : Heap) (bs : List Block) (n : ℕ)
    → g.is_set_up ≡ true
    → IsHeap g bs
    → 16 ≤ n
    → g.last_valid_address + n < 2 ^ 64
    → Appended g bs n (finish n (g, 0)).0 (finish n (g, 0)).1
unfolding finish
finish-Appended g bs n set is l room = record {
  blocks = record {
    never_set = is.never_set;
    positive = is.positive;
    chain =
        rw (set, wraps)
          (Chain-append m' g.space last (last + n) bs (block false n)
            (Chain-SameOn g.mem m' g.space last bs old
              (λ a _ r. header-SameOff g.mem last n a (inl r)))
            (header-Chain g.mem last n (last + n) (omega arith) l refl));
  };
  location = rw set (omega arith);
  end = rw (set, wraps) refl;
  untouched = rw set (header-SameOff g.mem last n);
}
  where
    last : ℕ
    last = g.last_valid_address

    m' : Memory
    m' = set_size (set_free g.mem last false) last n

    wraps : u64 (last + n) ≡ last + n
    wraps = omega arith

    old : Chain g.mem g.space last bs
    old = rw set at is.chain

-- On a well-formed heap with room for it, `malloc` puts a block of the size asked for and 16 more
-- bytes at the end of the heap, returns the address behind the block's header, and changes no
-- memory but that header; blocks that were freed are not looked at.
pub malloc-Appended :
    (fuel : ℕ) (h : Heap) (bs : List Block) (size : ℕ)
    → IsHeap h bs
    → top h + size + 16 < 2 ^ 64
    → (h' : Heap) × (ptr : ℕ) × (malloc fuel h size ≡ done (h', ptr))
      × Appended h bs (size + 16) h' ptr
malloc-Appended fuel h bs size is room = (
  (finish n g).0,
  (finish n g).1,
  malloc-finish fuel h size is.never_set ∙ ap (λ (k : ℕ). done (finish k g)) (omega arith),
  record {
    blocks = put.blocks;
    location = put.location ∙ ap (λ (k : ℕ). k + 16) (top-set_up h);
    end = put.end ∙ ap (λ (k : ℕ). k + n) (top-set_up h);
    untouched =
        subst (λ m. SameOff (top h) (top h + 16) m (finish n g).0.mem) (set_up_lem h).2
          (subst (λ t. SameOff t (t + 16) (set_up h).mem (finish n g).0.mem) (top-set_up h)
            put.untouched);
  },
)
  where
    n : ℕ
    n = size + 16

    g : Heap × ℕ
    g = (set_up h, 0)

    put : Appended (set_up h) bs n (finish n g).0 (finish n g).1
    put =
        finish-Appended (set_up h) bs n (set_up_lem h).1 (set_up-IsHeap h bs is) (omega arith)
          (omega (arith, (set_up_lem h).0))

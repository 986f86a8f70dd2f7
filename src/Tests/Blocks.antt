-- ===== src/Tests/Blocks.antt =====
-- Runs of kernel/memory/malloc.c.
use sesh_os.Base.{
  ◌<◌, ◌-◌, ◌≢◌, true, ◌++◌, ℕ, ◌+◌, ◌-◌, ◌≡◌, refl, true, false, List, [], ◌∷◌, ◌++◌, arith,
}
use sesh_os.Base.Run.{done}
use sesh_os.Base.Memory.{SameOff}
use sesh_os.Base.Words.{load64}
use sesh_os.Heap.{Heap, mcb_free, mcb_size, malloc, free, realloc}
use sesh_os.Heap.Blocks.{block, IsHeap, top}
use sesh_os.Heap.Malloc.{malloc-Appended, Appended}
use sesh_os.Heap.Free.{free-marks}
use sesh_os.Heap.Realloc.{realloc-copies}
use sesh_os.Heap.Usage.{Call, alloc, release, perform, requested, perform-requested}
use sesh_os.Tests.{text}

-- One block of 32 bytes at 64, whose contents begin with 5.
abbrev one_block : Heap
one_block = record {
  mem = text 64 (0 ∷ 0 ∷ 0 ∷ 0 ∷ 0 ∷ 0 ∷ 0 ∷ 0 ∷ 32 ∷ 0 ∷ 0 ∷ 0 ∷ 0 ∷ 0 ∷ 0 ∷ 0 ∷ 5 ∷ []);
  is_set_up = true;
  have_allocated = false;
  last_valid_address = 96;
  space = 64;
  printed = [];
}

one_block-IsHeap : IsHeap one_block (block false 32 ∷ [])
unfolding mcb_free mcb_size load64
one_block-IsHeap = record {
  never_set = refl;
  positive = omega arith;
  chain = (refl, refl, omega arith, refl);
}

malloc-Appended_example :
    (h' : Heap) × (ptr : ℕ) × (malloc 3 one_block 10 ≡ done (h', ptr))
    × Appended one_block (block false 32 ∷ []) (10 + 16) h' ptr
malloc-Appended_example =
    malloc-Appended 3 one_block (block false 32 ∷ []) 10 one_block-IsHeap (omega arith)

free-marks_example :
    IsHeap (free one_block 80) ([] ++ block true 32 ∷ [])
    × SameOff (80 - 16) (80 - 15) one_block.mem (free one_block 80).mem
free-marks_example =
    free-marks one_block [] (block false 32) [] 80 one_block-IsHeap refl (omega arith)

realloc-copies_example :
    (h' : Heap) × (realloc 3 one_block 80 4 ≡ done (h', top one_block + 16))
    × IsHeap h' ([] ++ block true 32 ∷ [] ++ block false (4 + 16) ∷ [])
    × (top h' ≡ top one_block + 4 + 16)
    × ((a : ℕ) → a < top one_block → a ≢ 80 - 16 → h'.mem a ≡ one_block.mem a)
    × (h'.mem (top one_block + 16 + 0) ≡ one_block.mem (80 + 0))
realloc-copies_example =
    realloc-copies 3 one_block [] (block false 32) [] 80 4 0 one_block-IsHeap refl
      (λ e. omega arith) (omega arith) (omega arith)

abbrev calls : List Call
calls = alloc 16 ∷ release 112 ∷ alloc 16 ∷ []

perform-requested_example :
    (h' : Heap) × (perform 3 one_block calls ≡ done h') × (top h' ≡ top one_block + requested calls)
perform-requested_example = perform-requested 3 one_block calls refl (omega arith)

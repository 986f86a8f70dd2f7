-- ===== src/Heap/Usage.antt =====
-- How far the heap of kernel/memory/malloc.c grows over any sequence of calls.
use sesh_os.Base.{ℕ, ◌+◌, ◌^◌, ◌<◌, ◌≡◌, refl, ◌∙◌, true, false, List, [], ◌∷◌, arith, u64}
use sesh_os.Base.Run.{Run, done, ◌>>=◌}
use sesh_os.Heap.{Heap, mcb_bytes, set_up, finish, malloc, free}
use sesh_os.Heap.Blocks.{top}
use sesh_os.Heap.Malloc.{malloc-finish, set_up_lem, top-set_up}

-- A call of `malloc` with a size, or of `free` with any pointer.
pub data Call : Type 0 where
  alloc : ℕ → Call
  release : ℕ → Call

pub perform : ℕ → Heap → List Call → Run Heap
perform fuel h [] = done h
perform fuel h (alloc size ∷ calls) = malloc fuel h size >>= λ r. perform fuel r.0 calls
perform fuel h (release ptr ∷ calls) = perform fuel (free h ptr) calls

-- The bytes asked for, with a header for each request.
abbrev pub requested : List Call → ℕ
requested [] = 0
requested (alloc size ∷ calls) = size + 16 + requested calls
requested (release ptr ∷ calls) = requested calls

finish-top : (g : Heap) (n : ℕ) → g.is_set_up ≡ true → top (finish n (g, 0)).0 ≡ u64 (top g + n)
unfolding finish
finish-top g n set = rw set

finish-unsearched : (g : Heap) (n : ℕ) → (finish n (g, 0)).0.have_allocated ≡ g.have_allocated
unfolding finish
finish-unsearched g n = refl

free-keeps :
    (h : Heap) (ptr : ℕ)
    → (top (free h ptr) ≡ top h) × ((free h ptr).have_allocated ≡ h.have_allocated)
unfolding free
free-keeps h ptr = ground arith

-- Over any sequence of `malloc` and `free` calls that the address space has room for, the heap
-- grows by every size asked for and 16 more bytes each: what is freed is never used again.
pub perform-requested :
    (fuel : ℕ) (h : Heap) (calls : List Call)
    → h.have_allocated ≡ false
    → top h + requested calls < 2 ^ 64
    → (h' : Heap) × (perform fuel h calls ≡ done h') × (top h' ≡ top h + requested calls)
unfolding perform
perform-requested fuel h [] unused room = (h, refl, omega arith)
perform-requested fuel h (release ptr ∷ calls) unused room =
    let (same_top, same_flag) = free-keeps h ptr in
    let (h', runs, grown) =
      perform-requested fuel (free h ptr) calls (same_flag ∙ unused) (omega arith) in
    (h', runs, omega arith)
perform-requested fuel h (alloc size ∷ calls) unused room =
    let n = u64 (size + mcb_bytes) in
    let g = (finish n (set_up h, 0)).0 in
    let (_, set, _, _, flag) = set_up_lem h in
    let end : top g ≡ top h + (size + 16) =
      finish-top (set_up h) n set ∙ omega (arith, top-set_up h) in
    let (h', runs, grown) =
      perform-requested fuel g calls (finish-unsearched (set_up h) n ∙ flag ∙ unused)
        (omega arith) in
    (h', rw (malloc-finish fuel h size unused) runs, omega arith)

-- ===== src/Heap/Taken.antt =====
-- What `malloc` of kernel/memory/malloc.c does to a heap of which nothing else is known.
use sesh_os.Base.{ℕ, ◌+◌, ◌^◌, ◌<◌, ◌≡◌, ap, ◌∙◌, false, true, arith}
use mathlib.Core.Path.{subst}
use sesh_os.Base.Memory.{SameOff}
use sesh_os.Base.Run.{done}
use sesh_os.Heap.{Heap, malloc, set_up, finish}
use sesh_os.Heap.Blocks.{top}
use sesh_os.Heap.Malloc.{malloc-finish, top-set_up, set_up_lem, header-SameOff}

-- A call of `malloc` took `n` bytes from the end of a heap that has not been searched yet.
pub record Taken (h : Heap) (n : ℕ) (h' : Heap) (ptr : ℕ) : Type 0 where
  pub location : ptr ≡ top h + 16
  pub end : top h' ≡ top h + n
  pub never_set : h'.have_allocated ≡ false
  pub untouched : SameOff (top h) (top h + 16) h.mem h'.mem

finish-Taken :
    (g : Heap) (n : ℕ)
    → g.is_set_up ≡ true
    → g.have_allocated ≡ false
    → top g + n < 2 ^ 64
    → 16 < n
    → Taken g n (finish n (g, 0)).0 (finish n (g, 0)).1
unfolding finish
finish-Taken g n set never room size = record {
  location = rw set (omega (arith, rw set at room));
  end = rw set (omega (arith, rw set at room));
  never_set = never;
  untouched = rw set (header-SameOff g.mem g.last_valid_address n);
}

Taken-set_up :
    (h : Heap) (n : ℕ) (h' : Heap) (ptr : ℕ) → Taken (set_up h) n h' ptr → Taken h n h' ptr
Taken-set_up h n h' ptr t = record {
  location = t.location ∙ ap (λ (k : ℕ). k + 16) (top-set_up h);
  end = t.end ∙ ap (λ (k : ℕ). k + n) (top-set_up h);
  never_set = t.never_set;
  untouched =
      subst (λ m. SameOff (top h) (top h + 16) m h'.mem) (set_up_lem h).2
        (subst (λ k. SameOff k (k + 16) (set_up h).mem h'.mem) (top-set_up h) t.untouched);
}

pub malloc-Taken :
    (fuel : ℕ) (h : Heap) (size : ℕ)
    → h.have_allocated ≡ false
    → top h + size + 16 < 2 ^ 64
    → 0 < size
    → (h' : Heap) × (ptr : ℕ) × (malloc fuel h size ≡ done (h', ptr)) × Taken h (size + 16) h' ptr
malloc-Taken fuel h size never room some = (
  (finish n (set_up h, 0)).0,
  (finish n (set_up h, 0)).1,
  malloc-finish fuel h size never ∙ ap (λ (k : ℕ). done (finish k (set_up h, 0))) (omega arith),
  Taken-set_up h n _ _ (
      finish-Taken (set_up h) n (set_up_lem h).1 ((set_up_lem h).4 ∙ never)
        (omega (arith, top-set_up h)) (omega arith)),
)
  where
    n : ℕ
    n = size + 16

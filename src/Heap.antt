-- ===== src/Heap.antt =====
-- kernel/memory/malloc.c: the kernel heap, with its block headers in memory.
pub mod Blocks
pub mod Malloc
pub mod Free
pub mod Realloc
pub mod Taken
pub mod Usage
use sesh_os.Base.{
  ℕ, zero, suc, ◌+◌, ◌-◌, ◌*◌, ◌/◌, ◌%◌, ◌^◌, Bool, true, false, ◌&&◌, not, List, [], ◌∷◌, ◌++◌,
  ◌==◌, leb, ltb, if◌then◌else◌, u64,
}
use sesh_os.Base.Run.{Run, done, out_of_fuel, ◌>>=◌}
use sesh_os.Base.Memory.{Memory, poke}
use sesh_os.Base.Words.{load64, store64}
use sesh_os.Mem.{memcpy}

-- The globals of the heap. `printed` are the pointers that the search loop hands to `comout`.
pub record Heap : Type 0 where
  pub mem : Memory
  pub is_set_up : Bool
  pub have_allocated : Bool
  pub last_valid_address : ℕ
  pub space : ℕ
  pub printed : List ℕ

-- A `mem_control_blk` takes 16 bytes: the flag is the first, and the size is the word at 8.
abbrev pub mcb_bytes : ℕ
mcb_bytes = 16

unfoldable pub mcb_free : Memory → ℕ → Bool
mcb_free m p = not (m p == 0)

unfoldable pub mcb_size : Memory → ℕ → ℕ
mcb_size m p = load64 m (p + 8)

unfoldable pub set_free : Memory → ℕ → Bool → Memory
set_free m p b = poke m p (if b then 1 else 0)

unfoldable pub set_size : Memory → ℕ → ℕ → Memory
set_size m p v = store64 m (p + 8) v

-- `while (ptr % sizeof(int) != 0) ptr++;`
pub aligned_loop : ℕ → ℕ → Run ℕ
aligned_loop zero ptr = out_of_fuel
aligned_loop (suc fuel) ptr =
    let rest = aligned_loop fuel (ptr + 1) in if ptr % 4 == 0 then done ptr else rest

unfoldable pub aligned_ptr : ℕ → Run ℕ
unfolding aligned_loop
aligned_ptr ptr = aligned_loop 4 ptr

-- The loop over the blocks. `mcb` is set once before it, and 0 is the location when none is found.
pub search_blocks : ℕ → Heap → ℕ → ℕ → ℕ → Run (Heap × ℕ)
search_blocks zero h mcb current size = out_of_fuel
search_blocks (suc fuel) h mcb current size =
    let rest = aligned_ptr (u64 (current + mcb_size h.mem mcb)) >>= λ next.
    search_blocks fuel (record h { printed = h.printed ++ next ∷ [] }) mcb next size in
    if current == h.last_valid_address
    then done (h, 0)
    else if mcb_free h.mem mcb && leb size (mcb_size h.mem mcb)
    then done (record h { mem = set_free h.mem mcb false }, current)
    else rest

-- The first call fixes where blocks begin.
pub set_up : Heap → Heap
set_up h = if h.is_set_up then h else record h { last_valid_address = h.space; is_set_up = true }

-- A block is taken at the end of the heap unless the search found one.
pub finish : ℕ → Heap × ℕ → Heap × ℕ
finish size (h, location) =
    if location == 0
    then (
      record h {
        mem = set_size (set_free h.mem h.last_valid_address false) h.last_valid_address size;
        last_valid_address = u64 (h.last_valid_address + size);
      },
      u64 (h.last_valid_address + mcb_bytes),
    )
    else (h, u64 (location + mcb_bytes))

unfoldable pub malloc : ℕ → Heap → ℕ → Run (Heap × ℕ)
unfolding search_blocks set_up finish
malloc fuel h size = do
  let h1 = set_up h
  let total = u64 (size + mcb_bytes)
  found ← if h1.have_allocated then search_blocks fuel h1 h1.space h1.space total else done (h1, 0)
  done (finish total found)

unfoldable pub free : Heap → ℕ → Heap
free h ptr =
    let mcb = u64 (ptr + 2 ^ 64 - mcb_bytes) in
    if ptr == 0
    then h
    else if mcb_size h.mem mcb == 0
    then h
    else record h { mem = set_free h.mem mcb true }

unfoldable pub realloc : ℕ → Heap → ℕ → ℕ → Run (Heap × ℕ)
realloc fuel h ptr size =
    if ptr == 0 then malloc fuel h size else if size == 0 then done (free h ptr, 0) else do
      (h1, new_ptr) ← malloc fuel h size
      let copied = memcpy h1.mem new_ptr ptr (mcb_size h1.mem (u64 (ptr + 2 ^ 64 - mcb_bytes)))
      done (free (record h1 { mem = copied.0 }) ptr, new_ptr)

unfoldable pub mem_init : Heap → ℕ → Heap
mem_init h addr = record h { space = addr }

-- ===== src/Mem.antt =====
-- kernel/memory/mem.c: block operations on memory, and the boot loader's memory map.
pub mod Copy
pub mod Compare
pub mod Pages
use sesh_os.Base.{
  ℕ, zero, suc, ◌+◌, ◌-◌, ◌*◌, ◌/◌, ◌%◌, ◌^◌, Bool, true, false, List, [], ◌∷◌, ◌==◌, ltb,
  if◌then◌else◌, u64, u32,
}
use sesh_os.Base.Int.{ℤ, pos, negsuc, pos_part, u8_of, signed32}
use sesh_os.Base.Memory.{Memory, poke}

-- `while (len > 0) { *p = c; p++; len--; }`
pub memset_loop : ℕ → Memory → ℕ → ℕ → Memory
memset_loop zero m p v = m
memset_loop (suc len) m p v = memset_loop len (poke m p v) (p + 1) v

-- A negative `len` stores nothing. The second component is the pointer that is returned.
unfoldable pub memset : Memory → ℕ → ℤ → ℤ → Memory × ℕ
unfolding memset_loop
memset m b c len = (memset_loop (pos_part len) m b (u8_of c), b)

-- `for (i = 0; i < num; i++) dest[i] = src[i]`, with `left` rounds to go
pub memcpy_loop : ℕ → ℕ → Memory → ℕ → ℕ → Memory
memcpy_loop zero i m dest src = m
memcpy_loop (suc left) i m dest src =
    memcpy_loop left (i + 1) (poke m (dest + i) (m (src + i))) dest src

unfoldable pub memcpy : Memory → ℕ → ℕ → ℕ → Memory × ℕ
unfolding memcpy_loop
memcpy m destination source num = (memcpy_loop num 0 m destination source, destination)

-- `while (len > 0)`, which is left at the first two bytes that differ
pub memcmp_loop : ℕ → Memory → ℕ → ℕ → ℤ
memcmp_loop zero m p q = pos 0
memcmp_loop (suc len) m p q =
    let rest = memcmp_loop len m (p + 1) (q + 1) in
    if m p == m q then rest else if ltb (m q) (m p) then pos 1 else negsuc 0

unfoldable pub memcmp : Memory → ℕ → ℕ → ℤ → ℤ
unfolding memcmp_loop
memcmp m s1 s2 len = if s1 == s2 then pos 0 else memcmp_loop (pos_part len) m s1 s2

-- The fields of a `limine_memmap_entry` that the kernel reads.
pub record MemmapEntry : Type 0 where
  pub base : ℕ
  pub length : ℕ
  pub typ : ℕ

-- `for (i = 0; i < entry_count; i++) memSize += entries[i]->length`
pub get_mem_size_loop : List MemmapEntry → ℕ → ℕ
get_mem_size_loop [] mem_size = mem_size
get_mem_size_loop (e ∷ entries) mem_size = get_mem_size_loop entries (u64 (mem_size + e.length))

unfoldable pub get_mem_size : List MemmapEntry → ℕ
unfolding get_mem_size_loop
get_mem_size entries = get_mem_size_loop entries 0

-- The `int` page count is kept as its 32-bit pattern.
pub num_pages_loop : List MemmapEntry → ℕ → ℕ
num_pages_loop [] page_count = page_count
num_pages_loop (e ∷ entries) page_count = num_pages_loop entries (
    if ltb 4096 e.length then u32 (u64 (page_count + e.length / 4194304)) else u32 (page_count + 1))

unfoldable pub num_pages : List MemmapEntry → ℤ
unfolding num_pages_loop
num_pages entries = signed32 (num_pages_loop entries 0)

-- ===== src/Mem/Pages.antt =====
-- What `getMemSize` and `numPages` of kernel/memory/mem.c compute from the memory map.
use sesh_os.Base.{
  ℕ, ◌+◌, ◌/◌, ◌%◌, ◌^◌, ◌<◌, ◌≡◌, refl, ◌∙◌, ap, List, [], ◌∷◌, arith, ltb, if◌then◌else◌,
  Bool-cases, inl, inr,
}
use sesh_os.Base.Int.{pos, signed32}
use sesh_os.Mem.{MemmapEntry, get_mem_size_loop, get_mem_size, num_pages_loop, num_pages}

-- The sum of the lengths of all regions.
abbrev pub total_length : List MemmapEntry → ℕ
total_length [] = 0
total_length (e ∷ es) = e.length + total_length es

get_mem_size_loop-total :
    (es : List MemmapEntry) (acc : ℕ)
    → acc < 2 ^ 64
    → get_mem_size_loop es acc ≡ (acc + total_length es) % 2 ^ 64
unfolding get_mem_size_loop
get_mem_size_loop-total [] acc h = omega arith
get_mem_size_loop-total (e ∷ es) acc h =
    omega (arith, get_mem_size_loop-total es ((acc + e.length) % 2 ^ 64) (omega arith))

-- `getMemSize` is the sum of the lengths of the regions, modulo 2^64.
pub get_mem_size-total : (es : List MemmapEntry) → get_mem_size es ≡ total_length es % 2 ^ 64
unfolding get_mem_size
get_mem_size-total es = omega (arith, get_mem_size_loop-total es 0 (omega arith))

-- The pages that `numPages` counts for a region: one up to 4096 bytes, and whole 4 MiB above.
abbrev pub region_pages : ℕ → ℕ
region_pages len = if ltb 4096 len then len / 4194304 else 1

abbrev pub total_pages : List MemmapEntry → ℕ
total_pages [] = 0
total_pages (e ∷ es) = region_pages e.length + total_pages es

num_pages_loop-total :
    (es : List MemmapEntry) (acc : ℕ)
    → acc < 2 ^ 32
    → num_pages_loop es acc ≡ (acc + total_pages es) % 2 ^ 32
unfolding num_pages_loop
num_pages_loop-total [] acc h = omega arith
num_pages_loop-total (e ∷ es) acc h = elim (Bool-cases (ltb 4096 e.length)) [
  | inl large ↦ rw large (
      omega (
        arith,
        num_pages_loop-total es ((acc + e.length / 4194304) % 2 ^ 64 % 2 ^ 32) (omega arith),
      ))
  | inr small ↦ rw small (omega (arith, num_pages_loop-total es ((acc + 1) % 2 ^ 32) (omega arith)))
]

-- `numPages` is the sum of the regions' pages, wrapped to an `int`.
pub num_pages-total : (es : List MemmapEntry) → num_pages es ≡ signed32 (total_pages es % 2 ^ 32)
unfolding num_pages
num_pages-total es = ap signed32 (omega (arith, num_pages_loop-total es 0 (omega arith)))

-- Every region is larger than 4096 bytes and smaller than 4 MiB.
abbrev pub AllMiddling : List MemmapEntry → Type 0
AllMiddling [] = Unit {0}
AllMiddling (e ∷ es) = (4096 < e.length) × (e.length < 4194304) × AllMiddling es

total_pages-middling : (es : List MemmapEntry) → AllMiddling es → total_pages es ≡ 0
total_pages-middling [] h = refl
total_pages-middling (e ∷ es) h = ground (arith, total_pages-middling es)

-- Memory made of regions above 4096 bytes and below 4 MiB is counted as no page at all, whatever
-- its size.
pub num_pages-middling : (es : List MemmapEntry) → AllMiddling es → num_pages es ≡ pos 0
num_pages-middling es h =
    num_pages-total es ∙ ap (λ (n : ℕ). signed32 (n % 2 ^ 32)) (total_pages-middling es h)

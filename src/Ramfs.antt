-- ===== src/Ramfs.antt =====
-- kernel/fs/ramfs.c: the initial RAM disk, a tar archive in flat memory.
pub mod Size
pub mod Headers
pub mod Lookup
pub mod Listing
use sesh_os.Base.{
  ℕ, zero, suc, ◌+◌, ◌-◌, ◌*◌, ◌/◌, ◌%◌, ◌^◌, Bool, true, false, List, [], ◌∷◌, ◌==◌, ltb, get_or,
  set, length, if◌then◌else◌, u32,
}
use sesh_os.Base.Int.{ℤ, char32, is_zero}
use sesh_os.Base.Run.{Run, done, fault, out_of_fuel, ◌>>=◌}
use sesh_os.Base.Memory.{Memory}
use sesh_os.Str.{strcmp}

-- The offset of the field `size` in a header; `filename` is at 0.
abbrev pub size_field : ℕ
size_field = 124

-- `in[j - 1] - '0'`, as a 32-bit pattern
abbrev pub digit : Memory → ℕ → ℕ
digit m a = u32 (char32 (m a) + 2 ^ 32 - b'0')

-- `for (j = 11; j > 0; j--, count *= 8)`
pub getsize_loop : ℕ → Memory → (input size count : ℕ) → ℕ
getsize_loop zero m input size count = size
getsize_loop (suc j) m input size count =
    getsize_loop j m input (u32 (size + u32 (digit m (input + j) * count))) (u32 (count * 8))

unfoldable pub getsize : Memory → ℕ → ℕ
unfolding getsize_loop
getsize m input = getsize_loop 11 m input 0 1

-- The address of the header behind a header and its contents.
unfoldable pub next_address : (address size : ℕ) → ℕ
next_address address size =
    let address' = u32 (address + (size / 512 + 1) * 512) in
    if size % 512 == 0 then address' else u32 (address' + 512)

-- A header is stored before it is looked at; the array has 32 places. The result is the array and
-- the number of files.
unfoldable pub parse_loop : ℕ → Memory → (address i : ℕ) → List ℕ → Run (List ℕ × ℕ)
parse_loop zero m address i headers = out_of_fuel
parse_loop (suc fuel) m address i headers =
    let headers' = set headers i address in
    let rest =
      parse_loop fuel m (next_address address (getsize m (address + size_field))) (u32 (i + 1))
        headers' in
    if ltb i (length headers) then (if m address == 0 then done (headers', i) else rest) else fault

-- The address is cut to 32 bits.
unfoldable pub parse : ℕ → Memory → (initramfs : ℕ) → List ℕ → Run (List ℕ × ℕ)
parse fuel m initramfs headers = parse_loop fuel m (u32 initramfs) 0 headers

-- The loop condition compares the address of an array with that of a literal, which are never equal.
unfoldable pub find_loop : (rounds fuel : ℕ) → Memory → (name i : ℕ) → List ℕ → Run ℕ
find_loop zero fuel m name i headers = out_of_fuel
find_loop (suc rounds) fuel m name i headers =
    let rest = find_loop rounds fuel m name (i + 1) headers in
    let header = get_or headers i 0 in
    let compared = (do r ← strcmp fuel m name header; if is_zero r then rest else done header) in
    if ltb i (length headers) then compared else fault

-- `&((char *) header)[512]`
unfoldable pub read_file : (rounds fuel : ℕ) → Memory → (name : ℕ) → List ℕ → Run ℕ
read_file rounds fuel m name headers = do
  header ← find_loop rounds fuel m name 0 headers
  done (header + 512)

-- ===== src/Str.antt =====
-- kernel/string.c: C strings in flat memory. A loop that runs to a zero byte takes fuel.
pub mod Length
pub mod Compare
pub mod Copy
pub mod Search
pub mod Number
pub mod Split
pub mod Hex
use sesh_os.Base.{
  ℕ, zero, suc, ◌+◌, ◌-◌, ◌*◌, ◌/◌, ◌%◌, ◌^◌, Bool, true, false, ◌&&◌, Option, none, some, ◌==◌,
  leb, ltb, if◌then◌else◌, u64, u32,
}
use sesh_os.Base.Int.{ℤ, pos, negsuc, sub_ℕ, signed32, char32, is_zero}
use sesh_os.Base.Run.{Run, done, out_of_fuel, ◌>>=◌}
use sesh_os.Base.Memory.{Memory, poke}
use sesh_os.Mem.{memcmp}

-- `unsigned int i = 0; for (; str[i] != '\0'; i++);`
pub strlen_loop : ℕ → Memory → ℕ → ℕ → Run ℕ
strlen_loop zero m str i = out_of_fuel
strlen_loop (suc fuel) m str i =
    let rest = strlen_loop fuel m str (u32 (i + 1)) in if m (str + i) == 0 then done i else rest

unfoldable pub strlen : ℕ → Memory → ℕ → Run ℕ
unfolding strlen_loop
strlen fuel m str = strlen_loop fuel m str 0

-- The loop stops at the end of the first string or where the strings differ.
unfoldable pub strcmp : ℕ → Memory → ℕ → ℕ → Run ℤ
strcmp zero m str1 str2 = out_of_fuel
strcmp (suc fuel) m str1 str2 =
    let rest = strcmp fuel m (str1 + 1) (str2 + 1) in
    let difference = done (sub_ℕ (m str1) (m str2)) in
    if m str1 == 0 then difference else if m str1 == m str2 then rest else difference

-- `for (s = str; *s && strsz--; ++s); return s - str;`
unfoldable pub strnlen_s : Memory → ℕ → ℕ → ℕ
strnlen_s m s zero = 0
strnlen_s m s (suc strsz) = let rest = strnlen_s m (s + 1) strsz in if m s == 0 then 0 else rest + 1

unfoldable pub isdigit : ℕ → Bool
isdigit ch = leb b'0' ch && leb ch b'9'

-- The copying loop of `strcat` and of `strcpy`, with the terminating zero byte.
pub copy_loop : ℕ → Memory → ℕ → ℕ → Run Memory
copy_loop zero m ptr source = out_of_fuel
copy_loop (suc fuel) m ptr source =
    let rest = copy_loop fuel (poke m ptr (m source)) (ptr + 1) (source + 1) in
    if m source == 0 then done (poke m ptr 0) else rest

unfoldable pub strcat : ℕ → Memory → ℕ → ℕ → Run (Memory × ℕ)
unfolding copy_loop
strcat fuel m destination source = do
  n ← strlen fuel m destination
  g ← copy_loop fuel m (destination + n) source
  done (g, destination)

-- `NULL` is 0.
unfoldable pub strcpy : ℕ → Memory → ℕ → ℕ → Run (Memory × ℕ)
unfolding copy_loop
strcpy fuel m destination source =
    if destination == 0
    then done (m, 0)
    else do g ← copy_loop fuel m destination source; done (g, destination)

-- `none` is the `NULL` that is returned when the haystack is used up.
pub strstr_loop : ℕ → Memory → ℕ → ℕ → ℕ → Run (Option ℕ)
strstr_loop zero m haystack needle size = out_of_fuel
strstr_loop (suc fuel) m haystack needle size =
    let rest = strstr_loop fuel m (haystack + 1) needle size in
    if m haystack == 0
    then done none
    else if is_zero (memcmp m haystack needle (pos size))
    then done (some haystack)
    else rest

unfoldable pub strstr : ℕ → Memory → ℕ → ℕ → Run (Option ℕ)
unfolding strstr_loop
strstr fuel m haystack needle = do
  size ← strlen fuel m needle
  strstr_loop fuel m haystack needle size

-- `res = res * 10 + nptr[i] - '0'`, on the 32-bit pattern of the `int`
unfoldable pub atoi_step : ℕ → ℕ → ℕ
atoi_step res c = u32 (res * 10 + char32 c + 2 ^ 32 - 48)

pub atoi_loop : ℕ → Memory → ℕ → ℕ → Run ℕ
atoi_loop zero m nptr res = out_of_fuel
atoi_loop (suc fuel) m nptr res =
    let rest = atoi_loop fuel m (nptr + 1) (atoi_step res (m nptr)) in
    if m nptr == 0 then done res else rest

unfoldable pub atoi : ℕ → Memory → ℕ → Run ℤ
unfolding atoi_loop
atoi fuel m nptr = do res ← atoi_loop fuel m nptr 0; done (signed32 res)

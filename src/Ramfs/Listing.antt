-- ===== src/Ramfs/Listing.antt =====
-- `ls` of kernel/fs/ramfs.c.
pub mod Names
use sesh_os.Base.{
  ℕ, zero, suc, ◌+◌, ◌-◌, Bool, true, false, List, [], ◌∷◌, ◌++◌, ◌==◌, ltb, get_or, length,
  if◌then◌else◌,
}
use sesh_os.Base.Int.{is_zero}
use sesh_os.Base.Memory.{Memory}
use sesh_os.Base.Run.{Run, done, fault, out_of_fuel, ◌>>=◌}
use sesh_os.Str.{strcmp}
use sesh_os.Str.Split.{strsplit}

-- An array of bytes as memory from 0 on.
abbrev pub array : List ℕ → Memory
array xs a = get_or xs a 0

-- Two arrays of 128 bytes, the second one at 128.
abbrev pub arrays : List ℕ → List ℕ → Memory
arrays xs ys a = if ltb a 128 then get_or xs a 0 else get_or ys (a - 128) 0

-- `strsplit(strsplit(filename, '/').b, '/').a`: the second part of a path.
unfoldable pub name_in_path : (fuel : ℕ) → (junk : List ℕ) → Memory → (header : ℕ) → Run (List ℕ)
name_in_path fuel junk m header = do
  full_name ← strsplit fuel junk junk m header b'/'
  name ← strsplit fuel junk junk (array full_name.b) 0 b'/'
  done name.a

-- Whether the name of file `i` is printed: it is the first one, or the name of the file before it is
-- the same.
pub is_listed :
    (fuel : ℕ)
    → (junk : List ℕ) → Memory
    → (headers : List ℕ) → (i : ℕ) → (name : List ℕ) → Run Bool
is_listed fuel junk m headers i name =
    let compared = (do
      old ← name_in_path fuel junk m (get_or headers (i - 1) 0)
      r ← strcmp fuel (arrays old name) 0 128
      done (is_zero r)) in
    if ltb 1 i then compared else done true

-- `printf` is what the library prints for `"%s\n"` and an array. The clearing of the arrays is left
-- out: what is cleared is assigned before it is read.
module _ (printf : List ℕ → List ℕ) where
  pub ls_loop :
      (rounds fuel : ℕ)
      → (junk : List ℕ) → Memory
      → (headers : List ℕ) → (i : ℕ) → (printed : List ℕ) → Run (List ℕ)
  ls_loop zero fuel junk m headers i printed = out_of_fuel
  ls_loop (suc rounds) fuel junk m headers i printed =
      let listed = (do
        name ← name_in_path fuel junk m (get_or headers i 0)
        shown ← is_listed fuel junk m headers i name
        ls_loop rounds fuel junk m headers (i + 1)
            (if shown then printed ++ printf name else printed)) in
      if ltb i (length headers)
      then (if m (get_or headers i 0) == 0 then done printed else listed)
      else fault

  unfoldable pub ls :
      (rounds fuel : ℕ) → (junk : List ℕ) → Memory → (headers : List ℕ) → Run (List ℕ)
  unfolding ls_loop is_listed
  ls rounds fuel junk m headers = ls_loop rounds fuel junk m headers 1 []

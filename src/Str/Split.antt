-- ===== src/Str/Split.antt =====
-- `strsplit` of kernel/string.c, with its two local arrays of 128 bytes. A write outside an array is
-- a fault.
pub mod Parts
use sesh_os.Base.{
  ℕ, zero, suc, ◌+◌, ◌-◌, ◌≤◌, ◌<◌, ◌≡◌, ◌≢◌, refl, ◌∙◌, ap, Bool, true, false, ◌&&◌, ◌||◌, not,
  List, [], ◌∷◌, ◌++◌, arith, length, set, get_or, if◌then◌else◌, ◌==◌, ltb, u32,
}
use sesh_os.Base.Run.{Run, done, fault, out_of_fuel, ◌>>=◌}
use sesh_os.Base.Memory.{Memory, CStr}
use sesh_os.Str.{strlen}
use sesh_os.Str.Length.{strlen-length}

pub record TwoStrings : Type 0 where
  pub a : List ℕ
  pub b : List ℕ

-- `xs[i] = v`
abbrev pub store : List ℕ → ℕ → ℕ → Run (List ℕ)
store xs i v = if ltb i (length xs) then done (set xs i v) else fault

-- `for (; i < strlen(str) && str[i] != split; i++) p1[i] = str[i];`, where the length `n` does not
-- change and `left` is `n - i`
pub before_loop : ℕ → Memory → ℕ → ℕ → ℕ → List ℕ → Run (List ℕ × ℕ)
before_loop zero m str split i p1 = done (p1, i)
before_loop (suc left) m str split i p1 =
    let rest = store p1 i (m (str + i)) >>= before_loop left m str split (i + 1) in
    if m (str + i) == split then done (p1, i) else rest

-- `for (; i < strlen(str); j++) { p2[j] = str[i]; i++; }`, with `left` rounds to go
pub after_loop : ℕ → Memory → ℕ → ℕ → ℕ → List ℕ → Run (List ℕ × ℕ)
after_loop zero m str i j p2 = done (p2, j)
after_loop (suc left) m str i j p2 = do
  p2' ← store p2 j (m (str + i))
  after_loop left m str (i + 1) (j + 1) p2'

-- `junk1` and `junk2` are what the arrays hold before they are written.
unfoldable pub strsplit : ℕ → List ℕ → List ℕ → Memory → ℕ → ℕ → Run TwoStrings
unfolding before_loop after_loop
strsplit fuel junk1 junk2 m str split = do
  n ← strlen fuel m str
  (p1, i) ← before_loop n m str split 0 junk1
  p1' ← store p1 i 0
  (p2, j) ← after_loop (n - (i + 1)) m str (i + 1) 0 junk2
  p2' ← store p2 j 0
  done (record { a = p1'; b = p2' })

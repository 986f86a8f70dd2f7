-- ===== src/Tty/Ansi.antt =====
-- `TTY_HandleEsc` of kernel/video/ansi.c. The string functions are called on one memory that holds
-- `escapeSequence` from 0, the literals "[" and "m" behind its 256 bytes, and the local array
-- `colorCode` from 512. The fuel 257 is enough for a string in an array of 256 bytes.
pub mod Cut
pub mod Parse
pub mod Feed
use sesh_os.Base.{
  ℕ, zero, suc, ◌+◌, ◌-◌, ◌^◌, Bool, true, false, ◌&&◌, Option, none, some, ◌==◌, leb, ltb,
  if◌then◌else◌, u64,
}
use sesh_os.Base.Int.{ℤ}
use sesh_os.Base.Run.{Run, done, fault, ◌>>=◌}
use sesh_os.Base.Memory.{Memory, poke}
use sesh_os.Mem.{memcpy}
use sesh_os.Str.{strstr, atoi}
use sesh_os.Tty.{Tty, Attributes, Escape}
use sesh_os.Tty.Colors.{apply_code}

abbrev pub bracket_literal : ℕ
bracket_literal = 256

abbrev pub m_literal : ℕ
m_literal = 258

abbrev pub color_code : ℕ
color_code = 512

unfoldable pub with_literals : Memory → Memory
with_literals sequence a =
    if ltb a 256
    then sequence a
    else if a == bracket_literal
    then b'['
    else if a == m_literal
    then b'm'
    else 0

-- The extraction of the code between "[" and "m", and its conversion.
pub extract_code : Memory → ℕ → ℕ → Run ℤ
extract_code m start end =
    let code_length = u64 (end + 2 ^ 64 - start - 1) in
    let copied = (memcpy m color_code (start + 1) code_length).0 in
    atoi 257 (poke copied (color_code + code_length) 0) color_code

-- `none` if the sequence is not complete.
unfoldable pub find_code : Memory → Run (Option ℤ)
unfolding extract_code
find_code m = do
  start ← strstr 257 m 0 bracket_literal
  elim start [
    | none ↦ done none
    | some p ↦ do
      end ← strstr 257 m p m_literal
      elim end [ none ↦ done none | some q ↦ do code ← extract_code m p q; done (some code) ]
  ]

-- The bytes of `escapeSequence` with `ch` and a zero behind it.
abbrev pub appended : Escape → ℕ → Memory
appended e ch = poke (poke e.sequence e.length ch) (e.length + 1) 0

unfoldable pub set_code : Option ℤ → Tty → Tty
set_code none t = t
set_code (some code) t = record t {
  attr = apply_code code t.attr;
  escape = record (t.escape) { completed = true };
}

-- The end of the function: the sequence is dropped if it was completed.
unfoldable pub close_escape : Tty → Tty × Bool
close_escape t =
    if t.escape.completed
    then (record t { escape = record (t.escape) { completed = false; length = 0 } }, true)
    else (t, false)

-- The zero byte at `length + 1` must lie in the array.
unfoldable pub handle_esc : Tty → ℕ → Run (Tty × Bool)
handle_esc t ch =
    let sequence = appended t.escape ch in
    let t1 = record t {
      escape = record (t.escape) { sequence = sequence; length = t.escape.length + 1 };
    } in
    let body = (do
      code ← if leb 0x40 ch && leb ch 0x7E then find_code (with_literals sequence) else done none
      done (close_escape (set_code code t1))) in
    if ltb (t.escape.length + 1) 256 then body else fault

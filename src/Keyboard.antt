-- ===== src/Keyboard.antt =====
-- kernel/userinput/keyboard.c: the scan codes, the shift keys and the line that is typed.
pub mod Chars
pub mod Line
use sesh_os.Base.{
  ℕ, zero, suc, ◌+◌, ◌-◌, Bool, true, false, ◌&&◌, ◌||◌, List, [], ◌∷◌, ◌++◌, ◌==◌, ltb,
  if◌then◌else◌, length, get_elem?, set, replicate,
}
use sesh_os.Base.Run.{Run, done, fault, fetched, ◌>>=◌}

-- The globals. `printed` are the bytes that went to the terminal and `eoi` the number of
-- acknowledgements sent to the interrupt controller.
pub record Keyboard : Type 0 where
  pub left_shift : Bool
  pub right_shift : Bool
  pub input : List ℕ
  pub i : ℕ
  pub printed : List ℕ
  pub eoi : ℕ

abbrev pub us_qwerty_ascii_ps2_mapping : List ℕ
us_qwerty_ascii_ps2_mapping =
    0 ∷ 0 ∷ b'1' ∷ b'2' ∷ b'3' ∷ b'4' ∷ b'5' ∷ b'6' ∷ b'7' ∷ b'8' ∷ b'9' ∷ b'0' ∷ b'-' ∷ b'=' ∷ 0
    ∷ 0 ∷ b'q' ∷ b'w' ∷ b'e' ∷ b'r' ∷ b't' ∷ b'y' ∷ b'u' ∷ b'i' ∷ b'o' ∷ b'p' ∷ b'[' ∷ b']' ∷ 0 ∷ 0
    ∷ b'a' ∷ b's' ∷ b'd' ∷ b'f' ∷ b'g' ∷ b'h' ∷ b'j' ∷ b'k' ∷ b'l' ∷ b';' ∷ 39 ∷ b'`' ∷ 0 ∷ 92
    ∷ b'z' ∷ b'x' ∷ b'c' ∷ b'v' ∷ b'b' ∷ b'n' ∷ b'm' ∷ b',' ∷ b'.' ∷ b'/' ∷ 0 ∷ b'*' ∷ 0 ∷ b' ' ∷ []

abbrev pub upper : ℕ → ℕ
upper c = if ltb 96 c && ltb c 123 then c - 32 else c

abbrev pub shifted_number : ℕ → ℕ
shifted_number c =
    if c == b'1'
    then b'!'
    else if c == b'2'
    then b'@'
    else if c == b'3'
    then b'#'
    else if c == b'4'
    then b'$'
    else if c == b'5'
    then b'%'
    else if c == b'6'
    then b'^'
    else if c == b'7'
    then b'&'
    else if c == b'8'
    then b'*'
    else if c == b'9'
    then b'('
    else if c == b'0'
    then b')'
    else c

-- 39 is the single quote, 34 the double one, and 92 the backslash.
abbrev pub shifted_mark : ℕ → ℕ
shifted_mark c =
    if c == b'`'
    then b'~'
    else if c == b'-'
    then b'_'
    else if c == b'='
    then b'+'
    else if c == b'['
    then b'{'
    else if c == b']'
    then b'}'
    else if c == 92
    then b'|'
    else if c == b';'
    then b':'
    else if c == 39
    then 34
    else if c == b','
    then b'<'
    else if c == b'.'
    then b'>'
    else if c == b'/'
    then b'?'
    else c

abbrev pub shifted : ℕ → ℕ
shifted c = shifted_mark (shifted_number (upper c))

-- The table has 58 characters, and the guard lets 58 through.
unfoldable pub get_us_qwerty_char_from_scan_code : Keyboard → ℕ → Run ℕ
get_us_qwerty_char_from_scan_code k scancode =
    let looked_up = (do
      c ← fetched (get_elem? us_qwerty_ascii_ps2_mapping scancode)
      done (if k.left_shift || k.right_shift then shifted c else c)) in
    if ltb 58 scancode then done 0 else looked_up

-- The first two chains of tests: the shift keys, which clear the character.
unfoldable pub shift_keys : Keyboard → (scancode c : ℕ) → Keyboard × ℕ
shift_keys k scancode c =
    if scancode == 0x2A
    then (record k { left_shift = true }, 0)
    else if scancode == 0x36
    then (record k { right_shift = true }, 0)
    else if scancode == 0xAA
    then (record k { left_shift = false }, 0)
    else if scancode == 0xB6
    then (record k { right_shift = false }, 0)
    else (k, c)

-- `printf` is what the library prints for a format without arguments.
module _ (printf : List ℕ → List ℕ) where
  unfoldable pub enter : Keyboard → Keyboard
  enter k = record k { printed = k.printed ++ printf (b'\n' ∷ []); i = 0; input = replicate 100 0 }

  -- `input[-1]` lies outside the array.
  unfoldable pub backspace : Keyboard → Run Keyboard
  backspace k =
      if k.i == 0
      then fault
      else if ltb (k.i - 1) (length k.input)
      then done
          (record k { printed = k.printed ++ 8 ∷ []; i = k.i - 1; input = set k.input (k.i - 1) 0 })
      else fault

  unfoldable pub type_char : Keyboard → ℕ → Run Keyboard
  type_char k c =
      if c == 0
      then done k
      else if ltb k.i (length k.input)
      then done (record k {
        input = set k.input k.i c;
        i = k.i + 1;
        printed = k.printed ++ printf (c ∷ []);
      })
      else fault

  unfoldable pub handle_keyboard : Keyboard → ℕ → Run Keyboard
  handle_keyboard k scancode = do
    c ← get_us_qwerty_char_from_scan_code k scancode
    let (k1, c1) = shift_keys k scancode c
    k2 ←
        if scancode == 0x1C
        then done (enter k1)
        else if scancode == 0x0E
        then backspace k1
        else type_char k1 c1
    done (record k2 { eoi = k2.eoi + 1 })

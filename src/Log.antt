-- ===== src/Log.antt =====
-- kernel/log.c: messages to the terminal and to the debug port. Strings are lists of bytes: `puts` of
-- a string writes its bytes (Tty/FbCon/Markup), and `comout` sends them (Tty/Com).
pub mod Pieces
pub mod Style
pub mod Serial
pub mod Fitting
use sesh_os.Base.{
  ℕ, ◌+◌, ◌-◌, Bool, true, false, List, [], ◌∷◌, ◌++◌, ◌==◌, ltb, if◌then◌else◌, length, get_elem?,
  replicate,
}
use mathlib.Core.List.{reverse_aux}
use sesh_os.Base.Run.{Run, done, fault, fetched, ◌>>=◌}
use sesh_os.Base.Text.{codes}
use sesh_os.Tty.{Tty, WriteFunc, com_log_wrapper, fbcon_write}
use sesh_os.Tty.FbCon.{put_all}

abbrev pub esc : ℕ
esc = 0x1b

-- `ansiColors`, by the level
abbrev pub ansi_colors : List (List ℕ)
ansi_colors =
    (esc ∷ codes "[0m")
    ∷ (esc ∷ codes "[0m")
    ∷ (esc ∷ codes "[37m")
    ∷ (esc ∷ codes "[33m")
    ∷ (esc ∷ codes "[0;31m")
    ∷ (esc ∷ codes "[31m !!! ")
    ∷ []

abbrev pub loglevel_fatal : ℕ
loglevel_fatal = 5

abbrev pub end_of_line : List ℕ
end_of_line = b'\r' ∷ b'\n' ∷ []

-- The string after `strcat`: "\e[0m\r\n" behind the message, and " !!!" before it if it is fatal.
abbrev pub finished : (level : ℕ) → List ℕ → List ℕ
finished level str =
    (if level == loglevel_fatal then str ++ codes " !!!" else str)
    ++ (esc ∷ codes "[0m")
    ++ end_of_line

abbrev pub is_serial : WriteFunc → Bool
is_serial com_log_wrapper = true
is_serial fbcon_write = false

-- `sprintf` is what the library makes of the format `fmt` with a module, a colour and a message. The
-- string must fit its array of 256 bytes with the final zero.
module _ (font : ℕ → ℕ → ℕ) (sprintf : (module_ color msg : List ℕ) → List ℕ) where
  unfoldable pub log : Tty → (module_ msg : List ℕ) → (level : ℕ) → Run Tty
  log t module_ msg level = do
    t1 ← if t.cursor_x == 0 then done t else put_all font t end_of_line
    color ← fetched (get_elem? ansi_colors level)
    let str = finished level (sprintf module_ color msg)
    let sent = record t1 {
      port_e9 = (if is_serial t1.write_func then t1.port_e9 else reverse_aux str t1.port_e9);
    }
    if ltb (length str) 256 then put_all font sent str else fault

-- ===== src/Tests/Console.antt =====
-- Runs of the terminal.
use sesh_os.Base.{ℕ, ◌+◌, ◌%◌, ◌++◌, ◌*◌, ◌-◌, ◌<◌, ◌≡◌, refl, true, false, List, [], ◌∷◌, arith}
use sesh_os.Base.Run.{done, ◌>>=◌}
use sesh_os.Base.Memory.{CStr}
use sesh_os.Tty.{Tty, Attributes, fbcon_write}
use sesh_os.Tty.Glyph.{Pen}
use sesh_os.Tty.Glyph.Pixels.{bit_color}
use sesh_os.Tty.FbCon.{putchar, put_all}
use sesh_os.Tty.FbCon.Cursor.{next, Undrawn, Moved, OnScreen, IsControl, putchar-OnScreen}
use sesh_os.Tty.FbCon.Sequence.{Inside}
use sesh_os.Tty.FbCon.Hidden.{kept, AllHidden-is_hidden, put_all-AllHidden}
use sesh_os.Base.Text.{codes}
use sesh_os.Video.Cursor.{set_cursor_pos, get_cursor_pos, clear_text}
use sesh_os.Video.Cursor.Ignored.{IsDecimal, Ignored, cursor_texts-Ignored}
use sesh_os.Tty.FbCon.Screen.{InCell, pen_here, putchar-cell}
use sesh_os.Tests.{text}

abbrev plain : Attributes
plain = record { color = 7; bg_color = 0; bold = false }

abbrev red : List ℕ
red = b'[' ∷ b'3' ∷ b'1' ∷ b'm' ∷ []

red-CStr : CStr (text 0 red) 0 red
red-CStr = (
  refl,
  (λ e. omega arith),
  (refl, (λ e. omega arith), (refl, (λ e. omega arith), (refl, (λ e. omega arith), refl))),
)

abbrev small_pen : Pen
small_pen = record { rows = λ i. 0x42; offset = 3; width = 16; fg = 7; bg = 0; bold = false }

abbrev pub font : ℕ → ℕ → ℕ
font ch row = ch

-- A console of 4 columns and 2 rows, with the cursor at the given place.
abbrev pub console : ℕ → ℕ → Tty
console x y = record {
  cursor_x = x;
  cursor_y = y;
  width = 4;
  height = 2;
  attr = plain;
  write_func = fbcon_write;
  fb = record { width = 32; height = 32; pixels = λ a. 0 };
  esc = false;
  escape = record { completed = false; sequence = λ a. 0; length = 0 };
  port_e9 = [];
}

pub console-OnScreen : (x y : ℕ) → x < 4 → OnScreen (console x y)
console-OnScreen x y h = record { to_fb = refl; no_escape = refl; column = h; narrow = omega arith }

putchar-OnScreen_example :
    (t' : Tty) × (putchar font (console 3 1) b'x' ≡ done t')
    × OnScreen t'
    × (t'.cursor_x ≡ (next font (console 3 1) b'x').0)
    × (t'.cursor_y ≡ (next font (console 3 1) b'x').1)
    × Undrawn font (console 3 1) b'x' t'
    × Moved (console 3 1) t'
putchar-OnScreen_example =
    putchar-OnScreen font (console 3 1) b'x' (console-OnScreen 3 1 (omega arith)) (λ e. omega arith)

x-Plain : ¬ IsControl b'x'
x-Plain h = ground arith

putchar-cell_example :
    (t' : Tty) × (putchar font (console 3 1) b'x' ≡ done t')
    × (t'.fb.pixels ((1 * 16 + 5) * 32 + 3 * 8 + 2)
        ≡ bit_color (pen_here font (console 3 1) b'x') 5 (7 - 2))
    × ((y x : ℕ) → x < 32 → ¬ InCell font (console 3 1) y x → t'.fb.pixels (y * 32 + x) ≡ 0)
putchar-cell_example =
    putchar-cell font (console 3 1) b'x' 5 2 (console-OnScreen 3 1 (omega arith))
      (record { columns = omega arith; indices = omega arith }) x-Plain (omega arith) (omega arith)

put_all-AllHidden_example :
    (t' : Tty) × (put_all font (console 1 1) (0x1b ∷ (codes "[2J " ++ 0x1b ∷ codes "[H")) ≡ done t')
    × Inside t' (kept (codes "[2J " ++ 0x1b ∷ codes "[H"))
    × (t' ≡ record (console 1 1) { esc = true; escape = t'.escape })
put_all-AllHidden_example =
    put_all-AllHidden font (console 1 1) (codes "[2J " ++ 0x1b ∷ codes "[H") (refl, refl, refl)
      (AllHidden-is_hidden (codes "[2J " ++ 0x1b ∷ codes "[H") refl) (omega arith)

abbrev digit : ℕ → List ℕ
digit n = (b'0' + n % 10) ∷ []

digit-IsDecimal : IsDecimal digit
digit-IsDecimal = record { digits = λ n. (omega arith, omega arith, tt); short = λ n. omega arith }

cursor_texts-Ignored_example :
    Ignored font digit
      (console 1 1)
      (set_cursor_pos font digit (console 1 1) 3 5 >>= λ v. put_all font v (codes "OK"))
    × Ignored font digit
        (console 1 1)
        (get_cursor_pos font (console 1 1) >>= λ v. put_all font v (codes "OK"))
    × Ignored font digit
        (console 1 1)
        (clear_text font (console 1 1) >>= λ v. put_all font v (codes "OK"))
cursor_texts-Ignored_example =
    cursor_texts-Ignored font digit (console 1 1) (codes "OK") 3 5 digit-IsDecimal
      (refl, refl, refl) (AllHidden-is_hidden (codes "OK") refl) (omega arith)

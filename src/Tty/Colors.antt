-- ===== src/Tty/Colors.antt =====
-- The colours of include/tty/fbCon.h, the colour switch of kernel/video/ansi.c, and the brightening
-- of bold text in kernel/video/fbcon.c.
use sesh_os.Base.{
  ℕ, zero, suc, ◌+◌, ◌*◌, ◌/◌, ◌%◌, ◌^◌, ◌<◌, ◌≡◌, refl, true, false, arith, if◌then◌else◌, ◌==◌,
  ltb, u8, min,
}
use sesh_os.Base.Int.{ℤ, pos, negsuc}
use sesh_os.Tty.{Attributes}

abbrev pub color_black : ℕ
color_black = 0xFF000000

abbrev pub color_red : ℕ
color_red = 0xFFAA0000

abbrev pub color_green : ℕ
color_green = 0xFF00AA00

abbrev pub color_blue : ℕ
color_blue = 0xFF0000AA

abbrev pub color_cyan : ℕ
color_cyan = 0xFF00AAAA

abbrev pub color_purple : ℕ
color_purple = 0xFFAA00AA

abbrev pub color_lgray : ℕ
color_lgray = 0xFFAAAAAA

abbrev pub color_yellow : ℕ
color_yellow = 0xFFAA5500

-- The palette by the last digit of a colour code, as the cases of the switch give it.
pub palette : ℕ → ℕ
palette n =
    if n == 0
    then color_black
    else if n == 1
    then color_red
    else if n == 2
    then color_green
    else if n == 3
    then color_yellow
    else if n == 4
    then color_blue
    else if n == 5
    then color_purple
    else if n == 6
    then color_cyan
    else color_lgray

-- `switch (code)`
unfoldable pub apply_code : ℤ → Attributes → Attributes
apply_code (negsuc n) a = a
apply_code (pos n) a =
    if n == 0
    then record { color = color_lgray; bg_color = color_black; bold = false }
    else if n == 1
    then record a { bold = true }
    else if n == 22
    then record a { bold = false }
    else if n == 30
    then record a { color = color_black }
    else if n == 31
    then record a { color = color_red }
    else if n == 32
    then record a { color = color_green }
    else if n == 33
    then record a { color = color_yellow }
    else if n == 34
    then record a { color = color_blue }
    else if n == 35
    then record a { color = color_purple }
    else if n == 36
    then record a { color = color_cyan }
    else if n == 37
    then record a { color = color_lgray }
    else if n == 40
    then record a { bg_color = color_black }
    else if n == 41
    then record a { bg_color = color_red }
    else if n == 42
    then record a { bg_color = color_green }
    else if n == 43
    then record a { bg_color = color_yellow }
    else if n == 44
    then record a { bg_color = color_blue }
    else if n == 45
    then record a { bg_color = color_purple }
    else if n == 46
    then record a { bg_color = color_cyan }
    else if n == 47
    then record a { bg_color = color_lgray }
    else a

-- The loop body over one byte of the colour: 0x55 is added, and an overflow gives 0xFF.
unfoldable pub brighten_byte : ℕ → ℕ
brighten_byte v = let sum = u8 (v + 0x55) in if ltb sum v then 0xFF else sum

-- The four bytes of the word; the colour yellow is replaced instead.
unfoldable pub brighten : ℕ → ℕ
unfolding brighten_byte
brighten color =
    if color == color_yellow
    then 0xFFFF55
    else brighten_byte (color % 256)
      + brighten_byte (color / 2 ^ 8 % 256) * 2 ^ 8
      + brighten_byte (color / 2 ^ 16 % 256) * 2 ^ 16
      + brighten_byte (color / 2 ^ 24 % 256) * 2 ^ 24

-- Brightening a byte adds 0x55 and stops at 0xFF.
pub brighten_byte-min : (v : ℕ) → v < 256 → brighten_byte v ≡ min 255 (v + 85)
unfolding brighten_byte
brighten_byte-min v h = ground arith

-- The codes 30 to 37 set the text colour and 40 to 47 the background to the same eight colours,
-- and change no other attribute.
pub apply_code-palette :
    (n : ℕ) (a : Attributes)
    → n < 8
    → (apply_code (pos (30 + n)) a ≡ record a { color = palette n })
      × (apply_code (pos (40 + n)) a ≡ record a { bg_color = palette n })
unfolding apply_code palette
apply_code-palette zero a h = (refl, refl)
apply_code-palette (suc zero) a h = (refl, refl)
apply_code-palette (suc (suc zero)) a h = (refl, refl)
apply_code-palette (suc (suc (suc zero))) a h = (refl, refl)
apply_code-palette (suc (suc (suc (suc zero)))) a h = (refl, refl)
apply_code-palette (suc (suc (suc (suc (suc zero))))) a h = (refl, refl)
apply_code-palette (suc (suc (suc (suc (suc (suc zero)))))) a h = (refl, refl)
apply_code-palette (suc (suc (suc (suc (suc (suc (suc zero))))))) a h = (refl, refl)
apply_code-palette (suc (suc (suc (suc (suc (suc (suc (suc n)))))))) a h = absurd (omega arith)

-- A code above 47 changes nothing.
pub apply_code-unsupported : (n : ℕ) (a : Attributes) → 47 < n → apply_code (pos n) a ≡ a
unfolding apply_code
apply_code-unsupported n a h = ground arith

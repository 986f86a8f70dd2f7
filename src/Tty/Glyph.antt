-- ===== src/Tty/Glyph.antt =====
-- The drawing loops of `FBCON_Write` in kernel/video/fbcon.c. The bitmap of a character is a function
-- from its 16 rows to bytes: the font file is no source text.
pub mod Pixels
use sesh_os.Base.{
  ℕ, zero, suc, ◌+◌, ◌-◌, ◌*◌, ◌/◌, ◌%◌, ◌^◌, ◌≤◌, ◌<◌, ◌≡◌, refl, ◌∙◌, ap, Bool, true, false, not,
  ◌&&◌, ◌⊎◌, inl, inr, arith, bit_and, if◌then◌else◌, ◌==◌, leb, ltb, u32,
}
use sesh_os.Base.Memory.{poke}
use sesh_os.Tty.Colors.{brighten}

-- What the loops read and do not change.
pub record Pen : Type 0 where
  pub rows : ℕ → ℕ
  pub offset : ℕ
  pub width : ℕ
  pub fg : ℕ
  pub bg : ℕ
  pub bold : Bool

-- The colour of bit `j` of row `i`.
pub pen_color : Pen → ℕ → ℕ → ℕ
pen_color p i j =
    if bit_and (p.rows i) (2 ^ j) == 0 then p.bg else if p.bold then brighten p.fg else p.fg

-- `for (j = 7; j != 0; j--)`
pub draw_columns : Pen → ℕ → ℕ → (ℕ → ℕ) → ℕ → ℕ
draw_columns p i zero pixels = pixels
draw_columns p i (suc j) pixels =
    draw_columns p i j
      (poke pixels (u32 (p.offset + (7 - suc j) + i * p.width)) (pen_color p i (suc j)))

-- `for (i = 0; i != 16; i++)`, with `left` rounds to go
pub draw_rows : Pen → ℕ → ℕ → (ℕ → ℕ) → ℕ → ℕ
draw_rows p zero i pixels = pixels
draw_rows p (suc left) i pixels = draw_rows p left (i + 1) (draw_columns p i 7 pixels)

unfoldable pub draw_glyph : Pen → (ℕ → ℕ) → ℕ → ℕ
unfolding draw_rows draw_columns pen_color
draw_glyph p pixels = draw_rows p 16 0 pixels

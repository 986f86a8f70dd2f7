-- ===== src/Tty/Glyph/Pixels.antt =====
-- Which pixels the drawing loops of `FBCON_Write` set, and to what.
use sesh_os.Base.{
  ℕ, zero, suc, ◌+◌, ◌-◌, ◌*◌, ◌/◌, ◌%◌, ◌^◌, ◌≤◌, ◌<◌, ◌≡◌, refl, ◌∙◌, ◌&&◌, ◌⊎◌, inl, inr, arith,
  if◌then◌else◌, ◌==◌, leb, ltb, u32, Bool-cases, ==→eq,
}
use mathlib.Core.Path.{subst}
use native.Mathlib.Nat.{one-le-pow}
use sesh_os.Base.Bits.{bit_and-power}
use sesh_os.Base.Memory.{poke}
use sesh_os.Tty.Colors.{brighten}
use sesh_os.Tty.Glyph.{Pen, pen_color, draw_columns, draw_rows, draw_glyph}

-- The first pixel of a row.
abbrev pub row_start : Pen → ℕ → ℕ
row_start p i = p.offset + i * p.width

draw_columns_lem :
    (p : Pen) (i j base : ℕ) (pixels : ℕ → ℕ) (a : ℕ)
    → j ≤ 7
    → base ≡ row_start p i
    → base + 7 < 2 ^ 32
    → draw_columns p i j pixels a ≡ (
        if leb (base + (7 - j)) a && ltb a (base + 7)
        then pen_color p i (base + 7 - a)
        else pixels a)
unfolding draw_columns
draw_columns_lem p i zero base pixels a h e b = ground arith
draw_columns_lem p i (suc j) base pixels a h e b = rw at (
    ground (
      arith,
      draw_columns_lem p i j base (poke pixels (base + (7 - suc j)) (pen_color p i (suc j))) a,
    ))
  where
    at : u32 (p.offset + (7 - suc j) + i * p.width) ≡ base + (7 - suc j)
    at = omega arith

row_mono : (p : Pen) (i j : ℕ) → i ≤ j → row_start p i ≤ row_start p j
row_mono p i j h = grind arith

row-next : (p : Pen) (i : ℕ) → row_start p (i + 1) ≡ row_start p i + p.width
row-next p i = grind arith

-- The pixels that a pen never touches, from row `i` on.
abbrev pub Spared : Pen → ℕ → ℕ → ℕ → Type 0
Spared p i n a = (r : ℕ) → i ≤ r → r < n → (a < row_start p r) ⊎ (row_start p r + 7 ≤ a)

draw_rows-Spared :
    (p : Pen) (left i n : ℕ) (pixels : ℕ → ℕ) (a : ℕ)
    → i + left ≡ n
    → row_start p n + 7 < 2 ^ 32
    → Spared p i n a
    → draw_rows p left i pixels a ≡ pixels a
unfolding draw_rows
draw_rows-Spared p zero i n pixels a e b out = refl
draw_rows-Spared p (suc left) i n pixels a e b out =
    draw_rows-Spared p left (i + 1) n (draw_columns p i 7 pixels) a (omega arith) b
      (λ r lo hi. out r (omega arith) hi)
    ∙ ground (
      arith,
      draw_columns_lem p i 7 (row_start p i) pixels a (omega arith) refl
          (omega (arith, row_mono p i n (omega arith))),
      out i (omega arith) (omega arith),
    )

-- The pixel in column `k` of row `r`.
draw_rows-pixel :
    (p : Pen) (left i n : ℕ) (pixels : ℕ → ℕ) (r k : ℕ)
    → i + left ≡ n
    → row_start p n + 7 < 2 ^ 32
    → 7 ≤ p.width
    → i ≤ r
    → r < n
    → k < 7
    → draw_rows p left i pixels (row_start p r + k) ≡ pen_color p r (7 - k)
unfolding draw_rows
draw_rows-pixel p zero i n pixels r k e b w lo hi h = absurd (omega arith)
draw_rows-pixel p (suc left) i n pixels r k e b w lo hi h = elim (Bool-cases (i == r)) [
  | inl here ↦
      subst
        (λ t.
          draw_rows p left (i + 1) (draw_columns p i 7 pixels) (row_start p t + k)
          ≡ pen_color p t (7 - k))
        (==→eq i r here)
        (draw_rows-Spared p left (i + 1) n (draw_columns p i 7 pixels) (row_start p i + k)
            (omega arith) b (λ q l u. inl (omega (arith, row-next p i, row_mono p (i + 1) q l)))
          ∙ first)
  | inr later ↦
      draw_rows-pixel p left (i + 1) n (draw_columns p i 7 pixels) r k (omega arith) b w
        (ground arith) hi h
]
  where
    first : draw_columns p i 7 pixels (row_start p i + k) ≡ pen_color p i (7 - k)
    first = ground (
      arith,
      draw_columns_lem p i 7 (row_start p i) pixels (row_start p i + k) (omega arith) refl
          (omega (arith, row_mono p i n (omega arith))),
    )

-- The colour of a pixel, by the bit of the bitmap.
abbrev pub bit_color : Pen → ℕ → ℕ → ℕ
bit_color p i j = if p.rows i / 2 ^ j % 2 == 0 then p.bg else if p.bold then brighten p.fg else p.fg

pen_color-bit : (p : Pen) (i j : ℕ) → pen_color p i j ≡ bit_color p i j
unfolding pen_color
pen_color-bit p i j = ground (arith, bit_and-power j (p.rows i), one-le-pow j 2)

-- On a surface of at least 7 columns, and with all indices below 2^32, the loops paint the first
-- seven columns of the 16 rows from the offset, column `k` by bit 7 - k of the row's byte, and no
-- other pixel: bit 0 is never shown.
pub draw_glyph-pixel :
    (p : Pen) (pixels : ℕ → ℕ) (r k : ℕ)
    → 7 ≤ p.width
    → p.offset + 16 * p.width + 7 < 2 ^ 32
    → r < 16
    → k < 7
    → (draw_glyph p pixels (p.offset + r * p.width + k) ≡ bit_color p r (7 - k))
      × ((a : ℕ) → Spared p 0 16 a → draw_glyph p pixels a ≡ pixels a)
unfolding draw_glyph
draw_glyph-pixel p pixels r k w b hr hk = (
  draw_rows-pixel p 16 0 16 pixels r k refl b w (omega arith) hr hk ∙ pen_color-bit p r (7 - k),
  λ a out. draw_rows-Spared p 16 0 16 pixels a refl b out,
)

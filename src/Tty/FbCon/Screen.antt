-- ===== src/Tty/FbCon/Screen.antt =====
-- Where on the framebuffer the characters of the console are drawn.
use sesh_os.Base.{
  Bool-cases, leb, ltb, u16, ◌⊎◌, ℕ, ◌+◌, ◌-◌, ◌*◌, ◌^◌, ◌≤◌, ◌<◌, ◌≡◌, refl, ◌∙◌, sym, ap, arith,
  inl, inr,
}
use native.Mathlib.Nat.{mul-le-mul_right}
use sesh_os.Base.Run.{done}
use sesh_os.Tty.{Tty, Framebuffer}
use sesh_os.Tty.Glyph.{Pen, draw_glyph}
use sesh_os.Tty.Glyph.Pixels.{draw_glyph-pixel, row_start, Spared, bit_color}
use sesh_os.Tty.FbCon.{advance, pen, write_glyph, putchar}
use sesh_os.Tty.FbCon.Cursor.{OnScreen, IsControl, glyph_here, putchar-glyph}

-- The pixels of a framebuffer that is as wide as its columns, and small enough for 32-bit indices
-- of everything that is drawn at the cursor.
pub record Fits (t : Tty) : Type 0 where
  pub columns : t.width * 8 ≤ t.fb.width
  pub indices : (t.cursor_y * 16 + 17) * t.fb.width + 7 < 2 ^ 32

advance-fb : (t : Tty) → (advance t).fb ≡ t.fb
unfolding advance
advance-fb t = elim (Bool-cases (leb t.width (u16 (t.cursor_x + 1)))) [
  | inl last ↦ rw last refl
  | inr more ↦ rw more refl
]

lt_cases : (y n : ℕ) → (y < n) ⊎ (n < y) ⊎ (y ≡ n)
lt_cases y n = ground arith

column_cases : (x c : ℕ) → (x < c) ⊎ (c + 7 ≤ x) ⊎ ((c ≤ x) × (x < c + 7))
column_cases x c = elim (Bool-cases (ltb x c)) [
  | inl left ↦ inl (ground arith)
  | inr more ↦ elim (Bool-cases (ltb x (c + 7))) [
    | inl inside ↦ inr (inr (ground arith, ground arith))
    | inr right ↦ inr (inl (ground arith))
  ]
]

module _ (font : ℕ → ℕ → ℕ) where
  -- The pen at the cursor.
  abbrev pub pen_here : Tty → ℕ → Pen
  pen_here t ch = pen font t ch t.cursor_x t.cursor_y t.attr.color t.attr.bg_color

  offset_here :
      (t : Tty) (ch : ℕ)
      → OnScreen t
      → Fits t
      → (pen_here t ch).offset ≡ t.cursor_y * 16 * t.fb.width + t.cursor_x * 8
  unfolding pen
  offset_here t ch on fits = omega (arith, fits.indices, fits.columns, on.column)

  room_here :
      (t : Tty) (ch : ℕ)
      → OnScreen t
      → Fits t
      → (pen_here t ch).offset + 16 * t.fb.width + 7 < 2 ^ 32
  room_here t ch on fits =
      omega (arith, offset_here t ch on fits, fits.indices, fits.columns, on.column)

  row_here :
      (t : Tty) (ch r : ℕ)
      → OnScreen t
      → Fits t
      → row_start (pen_here t ch) r ≡ (t.cursor_y * 16 + r) * t.fb.width + t.cursor_x * 8
  unfolding pen
  row_here t ch r on fits = omega (arith, offset_here t ch on fits)

  wide_here : (t : Tty) → OnScreen t → Fits t → 7 ≤ t.fb.width
  wide_here t on fits = omega (arith, fits.columns, on.column)

  drawn :
      (t : Tty) (ch : ℕ) → (glyph_here font t ch).fb.pixels ≡ draw_glyph (pen_here t ch) t.fb.pixels
  unfolding write_glyph
  drawn t ch =
      ap (λ (fb : Framebuffer). fb.pixels)
        (advance-fb
          (record t { fb = record (t.fb) { pixels = draw_glyph (pen_here t ch) t.fb.pixels } }))

  -- The pixel in row `y` and column `x` is one of those that a character at the cursor takes.
  abbrev pub InCell : Tty → ℕ → ℕ → Type 0
  InCell t y x =
      (t.cursor_y * 16 ≤ y)
      × (y < t.cursor_y * 16 + 16)
      × (t.cursor_x * 8 ≤ x)
      × (x < t.cursor_x * 8 + 7)

  outside-Spared :
      (t : Tty) (ch y x : ℕ)
      → OnScreen t
      → Fits t
      → x < t.fb.width
      → ¬ InCell t y x
      → Spared (pen_here t ch) 0 16 (y * t.fb.width + x)
  outside-Spared t ch y x on fits hx out r lo hi = elim (lt_cases y (t.cursor_y * 16 + r)) [
    | inl above ↦
        inl (omega (arith, row_here t ch r on fits, mul-le-mul_right t.fb.width above, hx))
    | inr (inl below) ↦ inr (
        omega (
          arith,
          row_here t ch r on fits,
          mul-le-mul_right t.fb.width below,
          wide_here t on fits,
          fits.columns,
          on.column,
        ))
    | inr (inr same) ↦
        let row = ap (λ (n : ℕ). n * t.fb.width) same in
        elim (column_cases x (t.cursor_x * 8)) [
          | inl left ↦ inl (omega (arith, row_here t ch r on fits, row, left))
          | inr (inl right) ↦ inr (omega (arith, row_here t ch r on fits, row, right))
          | inr (inr (from, to)) ↦ absurd (out (omega (arith, same), omega (arith, same), from, to))
        ]
  ]

  -- A character other than the four control bytes, written at a cursor in a column of the screen of
  -- a framebuffer that is as wide as its columns and whose indices fit 32 bits, has its bitmap in
  -- the first seven columns of its cell, and no other pixel of any row changes.
  pub putchar-cell :
      (t : Tty) (ch r k : ℕ)
      → OnScreen t
      → Fits t
      → ¬ IsControl ch
      → r < 16
      → k < 7
      → (t' : Tty) × (putchar font t ch ≡ done t')
        × (t'.fb.pixels ((t.cursor_y * 16 + r) * t.fb.width + t.cursor_x * 8 + k)
            ≡ bit_color (pen_here t ch) r (7 - k))
        × ((y x : ℕ)
            → x < t.fb.width
            → ¬ InCell t y x
            → t'.fb.pixels (y * t.fb.width + x) ≡ t.fb.pixels (y * t.fb.width + x))
  unfolding pen
  putchar-cell t ch r k on fits plain hr hk =
      let (inked, rest) =
        draw_glyph-pixel (pen_here t ch) t.fb.pixels r k (wide_here t on fits)
          (room_here t ch on fits) hr hk in
      (
        glyph_here font t ch,
        putchar-glyph font t ch on plain,
        ap (λ (f : ℕ → ℕ). f ((t.cursor_y * 16 + r) * t.fb.width + t.cursor_x * 8 + k)) (drawn t ch)
            ∙ ap (λ (a : ℕ). draw_glyph (pen_here t ch) t.fb.pixels (a + k))
                (sym (row_here t ch r on fits))
            ∙ inked,
        λ y x hx out.
            ap (λ (f : ℕ → ℕ). f (y * t.fb.width + x)) (drawn t ch)
            ∙ rest (y * t.fb.width + x) (outside-Spared t ch y x on fits hx out),
      )

  -- The console does not scroll: a character written at a cursor below the last row of pixels
  -- changes no pixel of the framebuffer.
  pub putchar-below :
      (t : Tty) (ch : ℕ)
      → OnScreen t
      → Fits t
      → ¬ IsControl ch
      → t.fb.height ≤ t.cursor_y * 16
      → (t' : Tty) × (putchar font t ch ≡ done t')
        × ((y x : ℕ)
            → y < t.fb.height
            → x < t.fb.width
            → t'.fb.pixels (y * t.fb.width + x) ≡ t.fb.pixels (y * t.fb.width + x))
  putchar-below t ch on fits plain low =
      let (t', runs, inked, rest) =
        putchar-cell t ch 0 0 on fits plain (omega arith) (omega arith) in
      (t', runs, λ y x hy hx. rest y x hx (λ cell. omega (arith, cell.0)))

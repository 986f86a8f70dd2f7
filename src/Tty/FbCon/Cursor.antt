-- ===== src/Tty/FbCon/Cursor.antt =====
-- The cursor of the framebuffer console.
use sesh_os.Base.{
  ℕ, suc, ◌+◌, ◌-◌, ◌^◌, ◌<◌, ◌≡◌, ◌≢◌, refl, ◌∙◌, ap, false, Bool-cases, inl, inr, arith, ◌==◌,
  leb, if◌then◌else◌, u16, ==→eq, ne→==, ==→ne, ◌⊎◌,
}
use sesh_os.Base.Run.{done}
use sesh_os.Tty.{Tty, fbcon_write}
use sesh_os.Tty.Glyph.{draw_glyph}
use sesh_os.Tty.FbCon.{advance, pen, write_glyph, write, call, putchar}

-- The console writes to the framebuffer, no escape sequence is open, and the cursor is in a column
-- of the screen.
pub record OnScreen (t : Tty) : Type 0 where
  pub to_fb : t.write_func ≡ fbcon_write
  pub no_escape : t.esc ≡ false
  pub column : t.cursor_x < t.width
  pub narrow : t.width < 2 ^ 16

advance-OnScreen : (t : Tty) → OnScreen t → OnScreen (advance t)
unfolding advance
advance-OnScreen t on = elim (Bool-cases (leb t.width (u16 (t.cursor_x + 1)))) [
  | inl last ↦ rw last (record {
    to_fb = on.to_fb;
    no_escape = on.no_escape;
    column = omega arith;
    narrow = on.narrow;
  })
  | inr more ↦ rw more (record {
    to_fb = on.to_fb;
    no_escape = on.no_escape;
    column = ground arith;
    narrow = on.narrow;
  })
]

-- Only the cursor and the pixels may differ.
abbrev pub Moved : Tty → Tty → Type 0
Moved t t' = t' ≡ record t {
  cursor_x = t'.cursor_x;
  cursor_y = t'.cursor_y;
  fb = record (t.fb) { pixels = t'.fb.pixels };
}

advance-Moved : (t : Tty) → Moved t (advance t)
unfolding advance
advance-Moved t = elim (Bool-cases (leb t.width (u16 (t.cursor_x + 1)))) [
  | inl last ↦ rw last refl
  | inr more ↦ rw more refl
]

-- The bytes that `FBCON_Write` does not draw.
abbrev pub IsControl : ℕ → Type 0
IsControl ch = (ch ≡ 0x1b) ⊎ (ch ≡ b'\r') ⊎ (ch ≡ 8) ⊎ (ch ≡ b'\n')

IsControl-cases : (ch : ℕ) → ch ≢ 0x1b → (¬ IsControl ch) ⊎ (ch ≡ b'\r') ⊎ (ch ≡ 8) ⊎ (ch ≡ b'\n')
IsControl-cases ch ne = elim (Bool-cases (ch == b'\r')) [
  | inl e ↦ inr (inl (==→eq ch b'\r' e))
  | inr a ↦ elim (Bool-cases (ch == 8)) [
    | inl e ↦ inr (inr (inl (==→eq ch 8 e)))
    | inr b ↦ elim (Bool-cases (ch == b'\n')) [
      | inl e ↦ inr (inr (inr (==→eq ch b'\n' e)))
      | inr c ↦ inl (λ q. not_control a b c q)
    ]
  ]
]
  where
    not_control :
        (ch == b'\r') ≡ false → (ch == 8) ≡ false → (ch == b'\n') ≡ false → IsControl ch → ⊥
    not_control a b c q = ground arith

module _ (font : ℕ → ℕ → ℕ) where
  -- A glyph in the colours and at the cursor of the terminal.
  abbrev pub glyph_here : Tty → ℕ → Tty
  glyph_here t ch = write_glyph font t ch t.cursor_x t.cursor_y t.attr.color t.attr.bg_color

  glyph_here-OnScreen : (t : Tty) (ch : ℕ) → OnScreen t → OnScreen (glyph_here t ch)
  unfolding write_glyph
  glyph_here-OnScreen t ch on = advance-OnScreen _ (record {
    to_fb = on.to_fb;
    no_escape = on.no_escape;
    column = on.column;
    narrow = on.narrow;
  })

  pub putchar-write :
      (t : Tty) (ch : ℕ)
      → t.write_func ≡ fbcon_write
      → putchar font t ch ≡ write font 2 t ch t.cursor_x t.cursor_y t.attr.color t.attr.bg_color
  unfolding putchar
  putchar-write t ch e =
      ap (λ f. call font f t ch t.cursor_x t.cursor_y t.attr.color t.attr.bg_color) e

  write-glyph :
      (depth : ℕ) (t : Tty) (ch x y fg bg : ℕ)
      → t.esc ≡ false
      → ¬ IsControl ch
      → write font (suc depth) t ch x y fg bg ≡ done (write_glyph font t ch x y fg bg)
  unfolding write
  write-glyph depth t ch x y fg bg e plain =
      rw
        (
          ne→== ch 0x1b (λ q. plain (inl q)),
          e,
          ne→== ch b'\r' (λ q. plain (inr (inl q))),
          ne→== ch 8 (λ q. plain (inr (inr (inl q)))),
          ne→== ch b'\n' (λ q. plain (inr (inr (inr q)))),
        )
        refl

  -- A backspace that is not in the first column.
  erased : Tty → Tty
  erased t =
      let t' = glyph_here (record t { cursor_x = t.cursor_x - 1 }) b' ' in
      record t' { cursor_x = u16 (t'.cursor_x + 2 ^ 16 - 1) }

  write-backspace :
      (t : Tty) (x y fg bg : ℕ)
      → OnScreen t
      → write font 2 t 8 x y fg bg ≡ (if t.cursor_x == 0 then done t else done (erased t))
  unfolding write erased
  write-backspace t x y fg bg on = simp (on.to_fb, on.no_escape)

  -- The terminal with a blank drawn before the cursor, which goes there.
  abbrev pub one_back : Tty → Tty
  one_back t =
      let x = t.cursor_x - 1 in
      record t {
        cursor_x = x;
        fb = record (t.fb) {
          pixels =
              draw_glyph (pen font t b' ' x t.cursor_y t.attr.color t.attr.bg_color) t.fb.pixels;
        };
      }

  erased-one_back : (t : Tty) → OnScreen t → t.cursor_x ≢ 0 → erased t ≡ one_back t
  unfolding erased write_glyph advance pen
  erased-one_back t on ne =
      rw inner (ap (λ (x : ℕ). record (one_back t) { cursor_x = x }) (omega arith))
    where
      inner : leb t.width (u16 (t.cursor_x - 1 + 1)) ≡ false
      inner = ground arith

  -- A backspace draws a blank over the character before the cursor and moves the cursor there; in
  -- the first column it does nothing.
  pub putchar-backspace :
      (t : Tty) → OnScreen t → putchar font t 8 ≡ done (if t.cursor_x == 0 then t else one_back t)
  putchar-backspace t on =
      putchar-write t 8 on.to_fb
      ∙ write-backspace t t.cursor_x t.cursor_y t.attr.color t.attr.bg_color on
      ∙ elim (Bool-cases (t.cursor_x == 0)) [
        | inl first ↦ rw first refl
        | inr inside ↦ rw inside (ap done (erased-one_back t on (==→ne t.cursor_x 0 inside)))
      ]

  one_back-OnScreen : (t : Tty) → OnScreen t → OnScreen (if t.cursor_x == 0 then t else one_back t)
  one_back-OnScreen t on = elim (Bool-cases (t.cursor_x == 0)) [
    | inl first ↦ rw first on
    | inr inside ↦ rw inside (record {
      to_fb = on.to_fb;
      no_escape = on.no_escape;
      column = omega arith;
      narrow = on.narrow;
    })
  ]

  -- A carriage return and a new line: the cursor goes to the first column, and down by one row
  -- without any bound but the width of its counter.
  pub putchar-line :
      (t : Tty)
      → OnScreen t
      → (putchar font t b'\r' ≡ done (record t { cursor_x = 0 }))
        × (putchar font t b'\n' ≡ done (record t { cursor_x = 0; cursor_y = u16 (t.cursor_y + 1) }))
  unfolding write
  putchar-line t on = (
    putchar-write t b'\r' on.to_fb ∙ simp on.no_escape,
    putchar-write t b'\n' on.to_fb ∙ simp on.no_escape,
  )

  pub putchar-glyph :
      (t : Tty) (ch : ℕ) → OnScreen t → ¬ IsControl ch → putchar font t ch ≡ done (glyph_here t ch)
  putchar-glyph t ch on plain =
      putchar-write t ch on.to_fb
      ∙ write-glyph 1 t ch t.cursor_x t.cursor_y t.attr.color t.attr.bg_color on.no_escape plain

  glyph_here-Moved : (t : Tty) (ch : ℕ) → Moved t (glyph_here t ch)
  unfolding write_glyph
  glyph_here-Moved t ch = advance-Moved _

  erased_or_same-Moved : (t : Tty) → Moved t (if t.cursor_x == 0 then t else one_back t)
  erased_or_same-Moved t = elim (Bool-cases (t.cursor_x == 0)) [
    | inl first ↦ rw first refl
    | inr inside ↦ rw inside refl
  ]

  backwards :
      (t : Tty)
      → ((if t.cursor_x == 0 then t else one_back t).cursor_x ≡ t.cursor_x - 1)
        × ((if t.cursor_x == 0 then t else one_back t).cursor_y ≡ t.cursor_y)
  backwards t = elim (Bool-cases (t.cursor_x == 0)) [
    | inl left ↦ rw left (omega (arith, ==→eq t.cursor_x 0 left), refl)
    | inr inside ↦ rw inside (refl, refl)
  ]

  backwards_first :
      (t : Tty)
      → t.cursor_x ≡ 0
      → (if t.cursor_x == 0 then t else one_back t).fb.pixels ≡ t.fb.pixels
  backwards_first t e = rw e refl

  -- Where the cursor goes.
  abbrev pub next : Tty → ℕ → ℕ × ℕ
  next t ch =
      if ch == b'\r'
      then (0, t.cursor_y)
      else if ch == 8
      then (t.cursor_x - 1, t.cursor_y)
      else if ch == b'\n'
      then (0, u16 (t.cursor_y + 1))
      else if leb t.width (t.cursor_x + 1)
      then (0, u16 (t.cursor_y + 1))
      else (t.cursor_x + 1, t.cursor_y)

  -- The pixels stay where nothing is drawn.
  abbrev pub Undrawn : Tty → ℕ → Tty → Type 0
  Undrawn t ch t' =
      (ch ≡ b'\r') ⊎ (ch ≡ b'\n') ⊎ ((ch ≡ 8) × (t.cursor_x ≡ 0)) → t'.fb.pixels ≡ t.fb.pixels

  advance-next :
      (t : Tty) (ch : ℕ)
      → OnScreen t
      → ¬ IsControl ch
      → ((advance t).cursor_x ≡ (next t ch).0) × ((advance t).cursor_y ≡ (next t ch).1)
  unfolding advance
  advance-next t ch on plain =
      rw
        (
          ne→== ch b'\r' (λ q. plain (inr (inl q))),
          ne→== ch 8 (λ q. plain (inr (inr (inl q)))),
          ne→== ch b'\n' (λ q. plain (inr (inr (inr q)))),
          wide,
        )
        (elim (Bool-cases (leb t.width (t.cursor_x + 1))) [
          | inl last ↦ rw last (refl, refl)
          | inr more ↦ rw more (refl, refl)
        ])
    where
      wide : u16 (t.cursor_x + 1) ≡ t.cursor_x + 1
      wide = omega (arith, on.column, on.narrow)

  glyph_here-next :
      (t : Tty) (ch : ℕ)
      → OnScreen t
      → ¬ IsControl ch
      → ((glyph_here t ch).cursor_x ≡ (next t ch).0) × ((glyph_here t ch).cursor_y ≡ (next t ch).1)
  unfolding write_glyph
  glyph_here-next t ch on plain =
      advance-next _ ch
        (record {
          to_fb = on.to_fb;
          no_escape = on.no_escape;
          column = on.column;
          narrow = on.narrow;
        })
        plain

  -- Every byte but the escape byte leaves the cursor in a column of the screen: a carriage return in
  -- the first one, a backspace one to the left but not beyond it, a new line in the first one of the
  -- row below, any other one to the right or, behind the last column, in the first one of the row
  -- below. A carriage return, a new line and a backspace in the first column draw nothing, and no
  -- byte changes anything but the cursor and pixels. There is no last row: below the screen the
  -- pixels are those behind the framebuffer.
  pub putchar-OnScreen :
      (t : Tty) (ch : ℕ)
      → OnScreen t
      → ch ≢ 0x1b
      → (t' : Tty) × (putchar font t ch ≡ done t')
        × OnScreen t'
        × (t'.cursor_x ≡ (next t ch).0)
        × (t'.cursor_y ≡ (next t ch).1)
        × Undrawn t ch t'
        × Moved t t'
  putchar-OnScreen t ch on ne = elim (IsControl-cases ch ne) [
    | inl plain ↦ (
      glyph_here t ch,
      putchar-glyph t ch on plain,
      glyph_here-OnScreen t ch on,
      (glyph_here-next t ch on plain).0,
      (glyph_here-next t ch on plain).1,
      (λ q. absurd (plain (drawn q))),
      glyph_here-Moved t ch,
    )
    | inr (inl e) ↦ rw e (
      record t { cursor_x = 0 },
      (putchar-line t on).0,
      at_start t.cursor_y,
      refl,
      refl,
      (λ q. refl),
      refl,
    )
    | inr (inr (inl e)) ↦ rw e (
      (if t.cursor_x == 0 then t else one_back t),
      putchar-backspace t on,
      one_back-OnScreen t on,
      (backwards t).0,
      (backwards t).1,
      (λ q. backwards_first t (first 8 refl q)),
      erased_or_same-Moved t,
    )
    | inr (inr (inr e)) ↦ rw e (
      record t { cursor_x = 0; cursor_y = u16 (t.cursor_y + 1) },
      (putchar-line t on).1,
      at_start (u16 (t.cursor_y + 1)),
      refl,
      refl,
      (λ q. refl),
      refl,
    )
  ]
    where
      drawn : (ch ≡ b'\r') ⊎ (ch ≡ b'\n') ⊎ ((ch ≡ 8) × (t.cursor_x ≡ 0)) → IsControl ch
      drawn (inl e) = inr (inl e)
      drawn (inr (inl e)) = inr (inr (inr e))
      drawn (inr (inr h)) = inr (inr (inl h.0))

      first :
          (c : ℕ)
          → c ≡ 8
          → (c ≡ b'\r') ⊎ (c ≡ b'\n') ⊎ ((c ≡ 8) × (t.cursor_x ≡ 0))
          → t.cursor_x ≡ 0
      first c is (inl e) = absurd (omega arith)
      first c is (inr (inl e)) = absurd (omega arith)
      first c is (inr (inr h)) = h.1

      at_start : (y : ℕ) → OnScreen (record t { cursor_x = 0; cursor_y = y })
      at_start y = record {
        to_fb = on.to_fb;
        no_escape = on.no_escape;
        column = omega (arith, on.column);
        narrow = on.narrow;
      }

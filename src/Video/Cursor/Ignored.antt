-- ===== src/Video/Cursor/Ignored.antt =====
-- What the console makes of the texts for the cursor.
use sesh_os.Base.{
  ℕ, ◌+◌, ◌≤◌, ◌≡◌, refl, sym, ap, ◌∙◌, true, List, [], ◌∷◌, ◌++◌, arith, length, length-append,
}
use sesh_os.Base.Run.{Run, done, ◌>>=◌}
use sesh_os.Base.Text.{codes}
use sesh_os.Str.Number.{AllDigits}
use sesh_os.Tty.{Tty}
use sesh_os.Tty.FbCon.{put_all}
use sesh_os.Tty.FbCon.Markup.{put_all-append}
use sesh_os.Tty.FbCon.Sequence.{Fresh}
use sesh_os.Tty.FbCon.Hidden.{AllHidden, AllHidden-is_hidden, put_all-AllHidden}
use sesh_os.Video.Cursor.{set_cursor_pos, get_cursor_pos, clear_text}

AllHidden-append : (a b : List ℕ) → AllHidden a → AllHidden b → AllHidden (a ++ b)
AllHidden-append [] b ha hb = hb
AllHidden-append (c ∷ a) b ha hb = (ha.0, ha.1, AllHidden-append a b ha.2 hb)

AllHidden-digits : (s : List ℕ) → AllDigits s → AllHidden s
AllHidden-digits [] h = tt
AllHidden-digits (c ∷ s) h =
    ((λ e. omega (arith, h.0)), (λ e. omega (arith, h.1)), AllHidden-digits s h.2)

-- What the library prints for `%i` and a number that is not negative: digits, at most 10 of them.
pub record IsDecimal (decimal : ℕ → List ℕ) : Type 0 where
  pub digits : (n : ℕ) → AllDigits (decimal n)
  pub short : (n : ℕ) → length (decimal n) ≤ 10

-- The two texts of `setCursorPos`, each behind its escape byte.
abbrev position : (x y : List ℕ) → List ℕ
position x y = codes "[" ++ x ++ codes ";" ++ y ++ codes "H"

abbrev home : List ℕ
home = codes "[1;1H"

position-AllHidden :
    (x y s : List ℕ)
    → AllDigits x
    → AllDigits y
    → AllHidden s
    → AllHidden (position x y ++ (0x1b ∷ home) ++ s)
position-AllHidden x y s dx dy h =
    let column =
      AllHidden-append (codes "[") x (AllHidden-is_hidden (codes "[") refl)
        (AllHidden-digits x dx) in
    let row =
      AllHidden-append (codes "[" ++ x ++ codes ";") y
        (AllHidden-append (codes "[" ++ x) (codes ";") column
          (AllHidden-is_hidden (codes ";") refl))
        (AllHidden-digits y dy) in
    AllHidden-append (position x y ++ (0x1b ∷ home)) s
      (AllHidden-append (position x y) (0x1b ∷ home)
        (AllHidden-append (codes "[" ++ x ++ codes ";" ++ y) (codes "H") row
          (AllHidden-is_hidden (codes "H") refl))
        (AllHidden-is_hidden (0x1b ∷ home) refl))
      h

length-position :
    (x y s : List ℕ)
    → length (position x y ++ (0x1b ∷ home) ++ s) ≡ length x + length y + length s + 9
length-position x y s = omega (
  arith,
  length-append {0} (position x y ++ (0x1b ∷ home)) s,
  length-append {0} (position x y) (0x1b ∷ home),
  length-append {0} (codes "[" ++ x ++ codes ";" ++ y) (codes "H"),
  length-append {0} (codes "[" ++ x ++ codes ";") y,
  length-append {0} (codes "[" ++ x) (codes ";"),
)

module _ (font : ℕ → ℕ → ℕ) (decimal : ℕ → List ℕ) where
  set_cursor_pos-position :
      (t : Tty) (x y : ℕ) (s : List ℕ)
      → (set_cursor_pos font decimal t x y >>= λ u. put_all font u s)
        ≡ put_all font t (0x1b ∷ (position (decimal x) (decimal y) ++ (0x1b ∷ home) ++ s))
  unfolding set_cursor_pos
  set_cursor_pos-position t x y s =
      let first = 0x1b ∷ position (decimal x) (decimal y) in
      sym (
        put_all-append font (first ++ (0x1b ∷ home)) s t
        ∙ ap (λ (r : Run Tty). r >>= λ u. put_all font u s)
            (put_all-append font first (0x1b ∷ home) t))

  -- The text is not drawn: only the sequence that it stands in has grown.
  abbrev pub Ignored : Tty → Run Tty → Type 0
  Ignored t run = (u : Tty) × (run ≡ done u) × (u ≡ record t { esc = true; escape = u.escape })

  -- On a console outside any sequence, when the library prints a number as at most 10 digits, up to
  -- 200 bytes of text without a zero or an "m" are not drawn behind `setCursorPos` of any column and
  -- row, behind `getCursorPos` or behind the text that `Clear` prints: the console is inside a
  -- sequence, and the cursor, the colours and the picture of the console are those from before.
  pub cursor_texts-Ignored :
      (t : Tty) (s : List ℕ) (x y : ℕ)
      → IsDecimal decimal
      → Fresh font t
      → AllHidden s
      → length s ≤ 200
      → Ignored t (set_cursor_pos font decimal t x y >>= λ v. put_all font v s)
        × Ignored t (get_cursor_pos font t >>= λ v. put_all font v s)
        × Ignored t (clear_text font t >>= λ v. put_all font v s)
  unfolding get_cursor_pos clear_text
  cursor_texts-Ignored t s x y is fresh h room =
      let column = decimal x in
      let row = decimal y in
      let query = codes "[6n" in
      let cleared = codes "[2J " ++ 0x1b ∷ codes "[H" in
      let (u, moves, _, same_u) =
        put_all-AllHidden font t (position column row ++ (0x1b ∷ home) ++ s) fresh
          (position-AllHidden column row s (is.digits x) (is.digits y) h)
          (omega (arith, length-position column row s, is.short x, is.short y)) in
      let (v, asks, _, same_v) =
        put_all-AllHidden font t (query ++ s) fresh
          (AllHidden-append query s (AllHidden-is_hidden query refl) h) (omega arith) in
      let (w, clears, _, same_w) =
        put_all-AllHidden font t (cleared ++ s) fresh
          (AllHidden-append cleared s (AllHidden-is_hidden cleared refl) h) (omega arith) in
      (
        (u, set_cursor_pos-position t x y s ∙ moves, same_u),
        (v, sym (put_all-append font (0x1b ∷ query) s t) ∙ asks, same_v),
        (w, sym (put_all-append font (0x1b ∷ cleared) s t) ∙ clears, same_w),
      )

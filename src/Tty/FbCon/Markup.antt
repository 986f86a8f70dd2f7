-- ===== src/Tty/FbCon/Markup.antt =====
-- Texts with colour sequences, written to the framebuffer console by `puts`.
use sesh_os.Base.{
  ℕ, zero, suc, ◌+◌, ◌<◌, ◌≡◌, ◌≢◌, refl, sym, ap, ◌∙◌, false, List, [], ◌∷◌, ◌++◌, arith, length,
  ne→==,
}
use mathlib.Core.Path.{subst}
use sesh_os.Base.Int.{signed32}
use sesh_os.Base.Run.{done, ◌>>=◌, bind-done, bind-ext, bind_assoc}
use sesh_os.Base.Memory.{Memory, CStr}
use sesh_os.Str.Number.{accumulate}
use sesh_os.Tty.{Tty, Attributes}
use sesh_os.Tty.Colors.{apply_code}
use sesh_os.Tty.FbCon.{putchar, puts, put_all}
use sesh_os.Tty.FbCon.Cursor.{OnScreen, Moved, putchar-OnScreen}
use sesh_os.Tty.FbCon.Sequence.{AllOpen, Fresh, put_all-colored}

module _ (font : ℕ → ℕ → ℕ) where
  pub put_all-append :
      (xs ys : List ℕ) (t : Tty)
      → put_all font t (xs ++ ys) ≡ (put_all font t xs >>= λ u. put_all font u ys)
  unfolding put_all
  put_all-append [] ys t = refl
  put_all-append (x ∷ xs) ys t =
      bind-ext (putchar font t x) _ _ (λ u. put_all-append xs ys u)
      ∙ sym (bind_assoc (putchar font t x) (λ u. put_all font u xs) _)

  -- `puts` of a string writes its bytes one after the other and counts them; fuel for the bytes and
  -- the final zero is enough.
  pub puts-put_all :
      (fuel : ℕ) (m : Memory) (t : Tty) (string count : ℕ) (s : List ℕ)
      → CStr m string s
      → length s < fuel
      → puts font fuel m t string count ≡ (put_all font t s >>= λ u. done (u, count + length s))
  unfolding puts put_all
  puts-put_all zero m t string count s h f = absurd (omega arith)
  puts-put_all (suc fuel) m t string count [] h f = rw h (ap (λ (n : ℕ). done (t, n)) (omega arith))
  puts-put_all (suc fuel) m t string count (c ∷ s) h f =
      rw (h.0, ne→== c 0 h.1)
        (bind-ext (putchar font t c) _ _ (λ u.
            puts-put_all fuel m u (string + 1) (count + 1) s h.2 (omega arith)
            ∙ ap (λ (n : ℕ). put_all font u s >>= λ v. done (v, n)) (omega arith))
          ∙ sym (bind_assoc (putchar font t c) (λ u. put_all font u s) _))

-- A part of a text: a byte that is drawn or moves the cursor, or a sequence ESC "[" body "m".
pub data Piece : Type 0 where
  byte : ℕ → Piece
  sequence : List ℕ → Piece

abbrev pub render : List Piece → List ℕ
render [] = []
render (byte c ∷ ps) = c ∷ render ps
render (sequence body ∷ ps) = (0x1b ∷ b'[' ∷ body ++ b'm' ∷ []) ++ render ps

-- The attributes after the sequences of a text.
abbrev pub restyle : List Piece → Attributes → Attributes
restyle [] a = a
restyle (byte c ∷ ps) a = restyle ps a
restyle (sequence body ∷ ps) a = restyle ps (apply_code (signed32 (accumulate 0 body)) a)

-- Bytes are no escape bytes, and bodies are short and have no zero, escape byte or "m".
abbrev pub AllProper : List Piece → Type 0
AllProper [] = Unit {0}
AllProper (byte c ∷ ps) = (c ≢ 0x1b) × AllProper ps
AllProper (sequence body ∷ ps) = AllOpen body × (length body < 253) × AllProper ps

module _ (font : ℕ → ℕ → ℕ) where
  -- The console is outside any sequence, with no bytes of one left over.
  abbrev pub Ready : Tty → Type 0
  Ready t = OnScreen t × Fresh font t

  Ready-Moved :
      (t t' : Tty)
      → Moved t t'
      → OnScreen t'
      → Ready t
      → Ready t' × (t'.attr ≡ t.attr) × (t'.port_e9 ≡ t.port_e9)
  Ready-Moved t t' moved on (_, (to_fb, empty, open_ended)) = (
    (
      on,
      (
        on.to_fb,
        ap (λ (u : Tty). u.escape.length) moved ∙ empty,
        ap (λ (u : Tty). u.escape.completed) moved ∙ open_ended,
      ),
    ),
    ap (λ (u : Tty). u.attr) moved,
    ap (λ (u : Tty). u.port_e9) moved,
  )

  OnScreen-colored :
      (t t' : Tty)
      → OnScreen t
      → t' ≡ record t { esc = false; attr = t'.attr; escape = t'.escape }
      → OnScreen t'
  OnScreen-colored t t' on e =
      subst OnScreen (sym e)
        (record { to_fb = on.to_fb; no_escape = refl; column = on.column; narrow = on.narrow })

  -- A text of bytes and colour sequences leaves the console ready for the next one, with the
  -- attributes that its sequences set one after the other, whatever the bytes between them are;
  -- nothing goes to the debug port.
  pub put_all-render :
      (ps : List Piece) (t : Tty)
      → AllProper ps
      → Ready t
      → (t' : Tty) × (put_all font t (render ps) ≡ done t')
        × Ready t'
        × (t'.attr ≡ restyle ps t.attr)
        × (t'.port_e9 ≡ t.port_e9)
  unfolding put_all
  put_all-render [] t proper ready = (t, refl, ready, refl, refl)
  put_all-render (byte c ∷ ps) t proper ready =
      let (u, runs, on, _, _, _, moved) = putchar-OnScreen font t c ready.0 proper.0 in
      let (ready', same, port) = Ready-Moved t u moved on ready in
      let (t', rest, end, style, ports) = put_all-render ps u proper.1 ready' in
      (t', bind-done _ runs rest, end, style ∙ ap (restyle ps) same, ports ∙ port)
  put_all-render (sequence body ∷ ps) t proper ready =
      let (u, runs, colors, fresh, changed) =
        put_all-colored font t body ready.1 proper.0 proper.1 in
      let (t', rest, end, style, ports) =
        put_all-render ps u proper.2 (OnScreen-colored t u ready.0 changed, fresh) in
      (
        t',
        put_all-append font (0x1b ∷ b'[' ∷ body ++ b'm' ∷ []) (render ps) t ∙ bind-done _ runs rest,
        end,
        style ∙ ap (restyle ps) colors,
        ports ∙ ap (λ (v : Tty). v.port_e9) changed,
      )

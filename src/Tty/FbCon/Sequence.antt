-- ===== src/Tty/FbCon/Sequence.antt =====
-- Escape sequences written to the framebuffer console.
use sesh_os.Base.{
  ℕ, ◌+◌, ◌<◌, ◌≡◌, ◌≢◌, refl, ◌∙◌, sym, ap, Bool, true, false, not, List, [], ◌∷◌, ◌++◌, arith,
  length, length-append, ne→==,
}
use mathlib.Core.List.{append_assoc, append-nil}
use mathlib.Core.Path.{subst}
use sesh_os.Base.Int.{signed32}
use sesh_os.Base.Run.{done, ◌>>=◌}
use sesh_os.Str.Number.{accumulate}
use sesh_os.Tty.{Tty, fbcon_write}
use sesh_os.Tty.Colors.{apply_code}
use sesh_os.Tty.Ansi.{handle_esc}
use sesh_os.Tty.Ansi.Feed.{
  Pending, with_byte, Pending-with_byte, NoM, handle_esc-NoM, handle_esc-finished,
}
use sesh_os.Tty.FbCon.{write, putchar, put_all}
use sesh_os.Tty.FbCon.Cursor.{putchar-write}

-- The console is inside a sequence and has its bytes `s`.
pub record Inside (t : Tty) (s : List ℕ) : Type 0 where
  pub to_fb : t.write_func ≡ fbcon_write
  pub escaping : t.esc ≡ true
  pub pending : Pending t s

-- Bytes that keep a sequence open: no zero, no escape byte and no "m".
abbrev pub AllOpen : List ℕ → Type 0
AllOpen [] = Unit {0}
AllOpen (c ∷ s) = (c ≢ 0) × (c ≢ 0x1b) × (c ≢ b'm') × AllOpen s

AllOpen-NoM : (s : List ℕ) → AllOpen s → NoM s
AllOpen-NoM [] h = tt
AllOpen-NoM (c ∷ s) h = (h.2, AllOpen-NoM s h.3)

pub NoM-snoc : (s : List ℕ) (c : ℕ) → NoM s → c ≢ b'm' → NoM (s ++ c ∷ [])
NoM-snoc [] c h ne = (ne, tt)
NoM-snoc (d ∷ s) c h ne = (h.0, NoM-snoc s c h.1 ne)

module _ (font : ℕ → ℕ → ℕ) where
  pub putchar-esc :
      (t : Tty) → t.write_func ≡ fbcon_write → putchar font t 0x1b ≡ done (record t { esc = true })
  unfolding write
  putchar-esc t e = putchar-write font t 0x1b e

  putchar-inside :
      (t : Tty) (ch : ℕ)
      → t.write_func ≡ fbcon_write
      → t.esc ≡ true
      → ch ≢ 0x1b
      → putchar font t ch ≡ (handle_esc t ch >>= λ r. done (record (r.0) { esc = not r.1 }))
  unfolding write
  putchar-inside t ch to_fb escaping ne =
      putchar-write font t ch to_fb ∙ simp (ne→== ch 0x1b ne, escaping)

  putchar-open :
      (c : ℕ) (s : List ℕ) (t : Tty)
      → Inside t s
      → NoM s
      → c ≢ 0
      → c ≢ 0x1b
      → c ≢ b'm'
      → length s + 1 < 256
      → putchar font t c ≡ done (record (with_byte t c) { esc = true })
  putchar-open c s t ins clean nz ne nm room =
      putchar-inside t c ins.to_fb ins.escaping ne
      ∙ simp (handle_esc-NoM c ins.pending nz room (NoM-snoc s c clean nm))

  -- The bytes of an open sequence only make it longer.
  pub put_all-open :
      (bs rest s : List ℕ) (t : Tty)
      → Inside t s
      → NoM s
      → AllOpen bs
      → length s + length bs < 255
      → (t' : Tty) × (put_all font t (bs ++ rest) ≡ put_all font t' rest)
        × Inside t' (s ++ bs)
        × (t' ≡ record t { escape = t'.escape })
  unfolding put_all
  put_all-open [] rest s t ins clean h room =
      (t, refl, subst (Inside t) (sym (append-nil s)) ins, refl)
  put_all-open (c ∷ bs) rest s t ins clean h room =
      let grown : Tty = record (with_byte t c) { esc = true } in
      let step : putchar font t c ≡ done grown =
        putchar-open c s t ins clean h.0 h.1 h.2 (omega arith) in
      let more = Pending-with_byte c ins.pending h.0 in
      let next : Inside grown (s ++ c ∷ []) = record {
        to_fb = ins.to_fb;
        escaping = refl;
        pending = record {
          bytes = more.bytes;
          nonzero = more.nonzero;
          same_length = more.same_length;
          open_ended = more.open_ended;
        };
      } in
      let (t', runs, ins', same) =
        put_all-open bs rest (s ++ c ∷ []) grown next (NoM-snoc s c clean h.2) h.3
          (omega (arith, length-append {0} s (c ∷ []))) in
      (
        t',
        rw step runs,
        subst (Inside t') (append_assoc s (c ∷ []) bs) ins',
        same ∙ ap (λ (b : Bool). record t { escape = t'.escape; esc = b }) (sym ins.escaping),
      )

  -- A console outside any sequence, with no bytes of one left over.
  abbrev pub Fresh : Tty → Type 0
  Fresh t = (t.write_func ≡ fbcon_write) × (t.escape.length ≡ 0) × (t.escape.completed ≡ false)

  pub opened : (t : Tty) → Fresh t → Inside (record t { esc = true }) []
  opened t fresh = record {
    to_fb = fresh.0;
    escaping = refl;
    pending = record { bytes = tt; nonzero = tt; same_length = fresh.1; open_ended = fresh.2 };
  }

  -- What the terminal `t'` is when a coloured sequence that began at `t` has ended.
  abbrev pub Colored : List ℕ → Tty → Tty → Type 0
  Colored body t t' =
      (t'.attr ≡ apply_code (signed32 (accumulate 0 body)) t.attr)
      × Fresh t'
      × (t' ≡ record t { esc = false; attr = t'.attr; escape = t'.escape })

  putchar-finish :
      (t : Tty) (body : List ℕ)
      → Inside t (b'[' ∷ body)
      → length body + 2 < 256
      → NoM body
      → (t' : Tty) × (putchar font t b'm' ≡ done t') × Colored body t t'
  putchar-finish t body ins room clean =
      let (t1, ends, colors, empty, ready, same) =
        handle_esc-finished body ins.pending room clean in
      (
        record t1 { esc = false },
        putchar-inside t b'm' ins.to_fb ins.escaping (λ e. omega arith) ∙ simp ends,
        (
          colors,
          (ap (λ (u : Tty). u.write_func) same ∙ ins.to_fb, empty, ready),
          ap (λ (u : Tty). record u { esc = false; attr = t1.attr; escape = t1.escape }) same,
        ),
      )

  Colored-from :
      (body : List ℕ) (t t1 t2 : Tty)
      → t1 ≡ record t { esc = true; escape = t1.escape }
      → Colored body t1 t2
      → Colored body t t2
  Colored-from body t t1 t2 same (colors, fresh, end) = (
    colors ∙ ap (λ (u : Tty). apply_code (signed32 (accumulate 0 body)) u.attr) same,
    fresh,
    end ∙ ap (λ (u : Tty). record u { esc = false; attr = t2.attr; escape = t2.escape }) same,
  )

  -- An escape byte, "[", a body of up to 252 bytes of the same kind and "m" set the colours by the
  -- number that `atoi` reads in the body, end the sequence, and change no pixel and not the cursor.
  pub put_all-colored :
      (t : Tty) (body : List ℕ)
      → Fresh t
      → AllOpen body
      → length body < 253
      → (t' : Tty) × (put_all font t (0x1b ∷ b'[' ∷ body ++ b'm' ∷ []) ≡ done t')
        × (t'.attr ≡ apply_code (signed32 (accumulate 0 body)) t.attr)
        × Fresh t'
        × (t' ≡ record t { esc = false; attr = t'.attr; escape = t'.escape })
  unfolding put_all
  put_all-colored t body fresh h room =
      let (t1, runs, ins, same) =
        put_all-open (b'[' ∷ body) (b'm' ∷ []) [] (record t { esc = true }) (opened t fresh) tt
          ((λ e. omega arith), (λ e. omega arith), (λ e. omega arith), h) (omega arith) in
      let (t2, ends, colored) = putchar-finish t1 body ins (omega arith) (AllOpen-NoM body h) in
      let result = Colored-from body t t1 t2 same colored in
      (t2, rw (putchar-esc t fresh.0) (runs ∙ last t1 t2 ends), result.0, result.1, result.2)
    where
      last : (u v : Tty) → putchar font u b'm' ≡ done v → put_all font u (b'm' ∷ []) ≡ done v
      last u v e = rw e refl

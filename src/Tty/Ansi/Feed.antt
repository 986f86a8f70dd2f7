-- ===== src/Tty/Ansi/Feed.antt =====
-- `TTY_HandleEsc` byte by byte.
use sesh_os.Base.{
  ℕ, ◌+◌, ◌<◌, ◌≡◌, ◌≢◌, refl, ◌∙◌, ap, true, false, ◌&&◌, Bool-cases, inl, inr, Option, none, some,
  List, [], ◌∷◌, ◌++◌, arith, length, length-append, leb, ltb, if◌then◌else◌, ◌==◌, lt→ltb, ne→==,
}
use sesh_os.Base.Int.{ℤ, signed32}
use sesh_os.Base.Run.{done}
use sesh_os.Base.Memory.{CStr, CStr-snoc, Holds, NonZero, CStr-Holds, CStr-NonZero}
use sesh_os.Str.Number.{accumulate}
use sesh_os.Tty.{Tty}
use sesh_os.Tty.Colors.{apply_code}
use sesh_os.Tty.Ansi.{appended, set_code, close_escape, handle_esc}
use sesh_os.Tty.Ansi.Cut.{cut}
use sesh_os.Tty.Ansi.Parse.{code_of, code_upto, code_from, find_code-code_of}

-- The terminal has the bytes `s` of a sequence that is not complete.
pub record Pending (t : Tty) (s : List ℕ) : Type 0 where
  pub bytes : Holds t.escape.sequence 0 s
  pub nonzero : NonZero s
  pub same_length : t.escape.length ≡ length s
  pub open_ended : t.escape.completed ≡ false

-- The terminal with one more byte of the sequence.
abbrev pub with_byte : Tty → ℕ → Tty
with_byte t ch = record t {
  escape = record (t.escape) { sequence = appended t.escape ch; length = t.escape.length + 1 };
}

with_byte-CStr :
    {t : Tty} {s : List ℕ} (ch : ℕ)
    → Pending t s
    → ch ≢ 0
    → CStr (appended t.escape ch) 0 (s ++ ch ∷ [])
with_byte-CStr {t} {s} ch held ne =
    CStr-snoc t.escape.sequence 0 t.escape.length ch s held.bytes held.nonzero
      (omega (arith, held.same_length)) ne

pub Pending-with_byte :
    {t : Tty} {s : List ℕ} (ch : ℕ) → Pending t s → ch ≢ 0 → Pending (with_byte t ch) (s ++ ch ∷ [])
Pending-with_byte {t} {s} ch held ne =
    let string = with_byte-CStr ch held ne in
    record {
      bytes = CStr-Holds (appended t.escape ch) 0 (s ++ ch ∷ []) string;
      nonzero = CStr-NonZero (appended t.escape ch) 0 (s ++ ch ∷ []) string;
      same_length = omega (arith, held.same_length, length-append {0} s (ch ∷ []));
      open_ended = held.open_ended;
    }

-- The code that is looked for only at a byte that may end a sequence.
abbrev pub code_at : ℕ → List ℕ → Option ℤ
code_at ch s = if leb 0x40 ch && leb ch 0x7E then code_of s else none

handle_esc-code_at :
    {t : Tty} {s : List ℕ} (ch : ℕ)
    → Pending t s
    → ch ≢ 0
    → length s + 1 < 256
    → handle_esc t ch ≡ done (close_escape (set_code (code_at ch (s ++ ch ∷ [])) (with_byte t ch)))
unfolding handle_esc
handle_esc-code_at {t} {s} ch held ne room =
    let found =
      find_code-code_of (appended t.escape ch) (s ++ ch ∷ []) (with_byte-CStr ch held ne)
        (omega (arith, length-append {0} s (ch ∷ []))) in
    let fits : ltb (t.escape.length + 1) 256 ≡ true =
      lt→ltb _ 256 (omega (arith, held.same_length)) in
    rw fits (elim (Bool-cases (leb 0x40 ch && leb ch 0x7E)) [
      | inl final ↦ rw (final, found) refl
      | inr more ↦ rw more refl
    ])

-- No byte of the list is "m".
abbrev pub NoM : List ℕ → Type 0
NoM [] = Unit {0}
NoM (c ∷ s) = (c ≢ b'm') × NoM s

cut-NoM : (s : List ℕ) → NoM s → cut b'm' s ≡ none
unfolding cut
cut-NoM [] h = refl
cut-NoM (c ∷ s) h = rw (ne→== c b'm' h.0, cut-NoM s h.1)

NoM-rest : (s : List ℕ) → NoM s → code_of s ≡ none
unfolding code_of cut
NoM-rest [] h = refl
NoM-rest (c ∷ s) h = elim (Bool-cases (c == b'[')) [
  | inl hit ↦ rw (hit, cut-NoM s h.1)
  | inr miss ↦ rw miss (from_rest (cut b'[' s) (NoM-rest s h.1))
]
  where
    from_rest :
        (o : Option (List ℕ × List ℕ))
        → code_from o ≡ none
        → code_from (elim o [ none ↦ none | some (a, b) ↦ some (c ∷ a, b) ]) ≡ none
    from_rest none e = refl
    from_rest (some (a, b)) e = e

-- While no "m" has come, `TTY_HandleEsc` adds the byte to the sequence, answers false and changes
-- no colour, whatever the byte is.
pub handle_esc-NoM :
    {t : Tty} {s : List ℕ} (ch : ℕ)
    → Pending t s
    → ch ≢ 0
    → length s + 1 < 256
    → NoM (s ++ ch ∷ [])
    → handle_esc t ch ≡ done (with_byte t ch, false)
unfolding set_code close_escape
handle_esc-NoM {t} {s} ch held ne room clean =
    handle_esc-code_at ch held ne room ∙ rw (nothing, held.open_ended) refl
  where
    nothing : code_at ch (s ++ ch ∷ []) ≡ none
    nothing = elim (Bool-cases (leb 0x40 ch && leb ch 0x7E)) [
      | inl final ↦ rw (final, NoM-rest (s ++ ch ∷ []) clean) refl
      | inr more ↦ rw more refl
    ]

-- The code of a finished sequence that begins with "[".
code_of-finished :
    (body : List ℕ)
    → NoM body
    → code_of (b'[' ∷ body ++ b'm' ∷ []) ≡ some (signed32 (accumulate 0 body))
unfolding code_of cut
code_of-finished body clean = ap code_upto (cut-finished body clean)
  where
    cut-finished : (b : List ℕ) → NoM b → cut b'm' (b ++ b'm' ∷ []) ≡ some (b, [])
    cut-finished [] h = refl
    cut-finished (c ∷ b) h = rw (ne→== c b'm' h.0, cut-finished b h.1)

-- When "m" comes behind "[" and a body without "m", `TTY_HandleEsc` answers true, applies the
-- number that `atoi` reads from the body, and is ready for a new sequence.
pub handle_esc-finished :
    {t : Tty} (body : List ℕ)
    → Pending t (b'[' ∷ body)
    → length body + 2 < 256
    → NoM body
    → (t' : Tty) × (handle_esc t b'm' ≡ done (t', true))
      × (t'.attr ≡ apply_code (signed32 (accumulate 0 body)) t.attr)
      × (t'.escape.length ≡ 0)
      × (t'.escape.completed ≡ false)
      × (t' ≡ record t { attr = t'.attr; escape = t'.escape })
unfolding set_code close_escape
handle_esc-finished {t} body held room clean =
    let code = signed32 (accumulate 0 body) in
    (
      record (with_byte t b'm') {
        attr = apply_code code t.attr;
        escape = record t.escape {
          sequence = appended t.escape b'm';
          completed = false;
          length = 0;
        };
      },
      handle_esc-code_at b'm' held (omega arith) (omega arith)
          ∙ rw (code_of-finished body clean) refl,
      refl,
      refl,
      refl,
      refl,
    )

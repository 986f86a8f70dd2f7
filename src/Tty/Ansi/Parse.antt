-- ===== src/Tty/Ansi/Parse.antt =====
-- What `TTY_HandleEsc` makes of the bytes of a sequence.
use sesh_os.Base.{
  ℕ, suc, ◌+◌, ◌-◌, ◌^◌, ◌≤◌, ◌<◌, ◌≡◌, refl, ◌∙◌, ap, sym, inr, Option, none, some, List, [], ◌∷◌,
  arith, length, u64,
}
use sesh_os.Base.Int.{ℤ, signed32}
use sesh_os.Base.Run.{done, ◌>>=◌}
use sesh_os.Base.Memory.{Memory, poke, CStr, CStr-SameOn, Holds, NonZero}
use sesh_os.Mem.{memcpy}
use sesh_os.Mem.Copy.{memcpy_lem, copied-inside}
use sesh_os.Str.{strstr}
use sesh_os.Str.Number.{accumulate, atoi-accumulate}
use sesh_os.Tty.Ansi.{
  with_literals, extract_code, find_code, bracket_literal, m_literal, color_code,
}
use sesh_os.Tty.Ansi.Cut.{cut, place, Parts, cut-Parts, strstr-cut}
use sesh_os.Str.Search.{address_of}

-- The code is read from the bytes between the first "[" and the first "m" behind it.
abbrev pub code_upto : Option (List ℕ × List ℕ) → Option ℤ
code_upto none = none
code_upto (some (body, _)) = some (signed32 (accumulate 0 body))

abbrev pub code_from : Option (List ℕ × List ℕ) → Option ℤ
code_from none = none
code_from (some (_, rest)) = code_upto (cut b'm' rest)

unfoldable pub code_of : List ℕ → Option ℤ
code_of s = code_from (cut b'[' s)

-- A copy of bytes that are not zero is a string once a zero stands behind it.
CStr-copy :
    (m g : Memory) (src dst : ℕ) (s : List ℕ)
    → NonZero s
    → Holds m src s
    → ((j : ℕ) → j < length s → g (dst + j) ≡ m (src + j))
    → g (dst + length s) ≡ 0
    → CStr g dst s
CStr-copy m g src dst [] ne h same z = ap g (omega arith) ∙ z
CStr-copy m g src dst (c ∷ s) ne h same z = (
  ap g (omega arith) ∙ same 0 (omega arith) ∙ ap m (omega arith) ∙ h.0,
  ne.0,
  CStr-copy m g (src + 1) (dst + 1) s ne.1 h.1
      (λ j l. ap g (omega arith) ∙ same (suc j) (omega arith) ∙ ap m (omega arith))
      (ap g (omega arith) ∙ z),
)

extract_code-accumulate :
    (m : Memory) (p q : ℕ) (body : List ℕ)
    → NonZero body
    → Holds m (p + 1) body
    → q ≡ p + suc (length body)
    → q < 256
    → extract_code m p q ≡ done (signed32 (accumulate 0 body))
unfolding extract_code
extract_code-accumulate m p q body ne h e l = rw wraps (
    atoi-accumulate 257 g color_code body
      (CStr-copy m g (p + 1) color_code body ne h same (ground arith)) (omega arith))
  where
    n : ℕ
    n = length body

    wraps : u64 (q + 2 ^ 64 - p - 1) ≡ n
    wraps = omega arith

    mid : Memory
    mid = (memcpy m color_code (p + 1) n).0

    g : Memory
    g = poke mid (color_code + n) 0

    same : (j : ℕ) → j < length body → g (color_code + j) ≡ m (p + 1 + j)
    same j lt = ground (
      arith,
      (memcpy_lem m color_code (p + 1) n (inr (omega arith))).1 (color_code + j),
      copied-inside m color_code (p + 1) n j,
    )

with_literals-below : (m : Memory) (a : ℕ) → a < 256 → with_literals m a ≡ m a
unfolding with_literals
with_literals-below m a h = ground arith

literals :
    (m : Memory)
    → CStr (with_literals m) bracket_literal (b'[' ∷ [])
      × CStr (with_literals m) m_literal (b'm' ∷ [])
unfolding with_literals
literals m = ((refl, omega arith, refl), (refl, omega arith, refl))

-- The bytes before a place found are not zero.
NonZero-Holds :
    (m : Memory) (p : ℕ) (s a : List ℕ) → CStr m p s → Holds m p a → length a ≤ length s → NonZero a
NonZero-Holds m p s [] h k l = tt
NonZero-Holds m p [] (d ∷ a) h k l = absurd (omega arith)
NonZero-Holds m p (c ∷ s) (d ∷ a) h k l =
    ((λ z. h.1 (sym h.0 ∙ k.0 ∙ z)), NonZero-Holds m (p + 1) s a h.2 k.1 (omega arith))

module _ (m : Memory) (bracket : CStr m bracket_literal (b'[' ∷ []))
    (letter : CStr m m_literal (b'm' ∷ [])) where
  -- The steps behind the search for "m", which found the place `o` from the "[" at `p`.
  end_step :
      (p : ℕ) (rest : List ℕ) (o : Option (List ℕ × List ℕ))
      → Parts m (p + 1) b'm' rest o
      → CStr m (p + 1) rest
      → p + 1 + length rest < 256
      → elim (address_of p (place (elim o [ none ↦ none | some (a, b) ↦ some (b'[' ∷ a, b) ]))) [
        | none ↦ done none
        | some q ↦ extract_code m p q >>= λ code. done (some code)
      ]
        ≡ done (code_upto o)
  end_step p rest none parts h l = refl
  end_step p rest (some (body, tail)) parts h l =
      rw
        (extract_code-accumulate m p (p + suc (length body)) body
          (NonZero-Holds m (p + 1) rest body h parts.2 (omega (arith, parts.0))) parts.2 refl
          (omega (arith, parts.0)))
        refl

  start_step :
      (s : List ℕ) (o : Option (List ℕ × List ℕ))
      → Parts m 0 b'[' s o
      → length s < 256
      → elim (address_of 0 (place o)) [
        | none ↦ done none
        | some p ↦ strstr 257 m p m_literal >>= λ end. elim end [
          | none ↦ done none
          | some q ↦ extract_code m p q >>= λ code. done (some code)
        ]
      ]
        ≡ done (code_from o)
  unfolding cut
  start_step s none parts l = refl
  start_step s (some (a, rest)) parts l =
      let p = 0 + length a in
      let at : CStr m p (b'[' ∷ rest) = (parts.3, omega arith, parts.1) in
      rw (strstr-cut m p m_literal b'm' (b'[' ∷ rest) at letter (omega (arith, parts.0))) (
        end_step p rest (cut b'm' rest) (cut-Parts m (p + 1) b'm' rest parts.1) parts.1
          (omega (arith, parts.0)))

  find_code-from : (s : List ℕ) → CStr m 0 s → length s < 256 → find_code m ≡ done (code_of s)
  unfolding find_code code_of
  find_code-from s h l =
      rw (strstr-cut m 0 bracket_literal b'[' s h bracket (omega arith))
        (start_step s (cut b'[' s) (cut-Parts m 0 b'[' s h) l)

-- The search and the conversion, on the array that holds the sequence `s`.
pub find_code-code_of :
    (sequence : Memory) (s : List ℕ)
    → CStr sequence 0 s
    → length s < 256
    → find_code (with_literals sequence) ≡ done (code_of s)
find_code-code_of sequence s h l =
    let (bracket, letter) = literals sequence in
    let held =
      CStr-SameOn {m = sequence} 0 s h (λ a _ r. with_literals-below sequence a (omega arith)) in
    find_code-from (with_literals sequence) bracket letter s held l

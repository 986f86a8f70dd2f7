-- ===== src/Tty/FbCon/Hidden.antt =====
-- Text behind a sequence that is not ended by an "m".
use sesh_os.Base.{
  ℕ, ◌+◌, ◌<◌, ◌≡◌, ◌≢◌, refl, ◌∙◌, sym, ap, Bool, true, ◌&&◌, not, List, [], ◌∷◌, ◌++◌, arith,
  ◌==◌, length, length-append, ==→ne, ==→eq, if◌then◌else◌, Bool-cases, inl, inr,
}
use mathlib.Core.List.{append_assoc, append-nil}
use mathlib.Core.Path.{subst}
use sesh_os.Base.Run.{done, bind-done}
use sesh_os.Tty.{Tty}
use sesh_os.Tty.Ansi.Feed.{NoM}
use sesh_os.Tty.FbCon.{putchar, put_all}
use sesh_os.Tty.FbCon.Sequence.{Inside, NoM-snoc, Fresh, opened, putchar-esc, put_all-open}

-- Bytes that end no sequence: no zero and no "m".
abbrev pub AllHidden : List ℕ → Type 0
AllHidden [] = Unit {0}
AllHidden (c ∷ s) = (c ≢ 0) × (c ≢ b'm') × AllHidden s

-- The bytes without the escape bytes.
abbrev pub kept : List ℕ → List ℕ
kept [] = []
kept (c ∷ s) = if c == 0x1b then kept s else c ∷ kept s

-- A test of `AllHidden` that closed texts pass by evaluation.
abbrev is_hidden : List ℕ → Bool
is_hidden [] = true
is_hidden (c ∷ s) = not (c == 0) && not (c == b'm') && is_hidden s

pub AllHidden-is_hidden : (s : List ℕ) → is_hidden s ≡ true → AllHidden s
AllHidden-is_hidden [] h = tt
AllHidden-is_hidden (c ∷ s) h =
    (==→ne c 0 (ground arith), ==→ne c b'm' (ground arith), AllHidden-is_hidden s (ground arith))

module _ (font : ℕ → ℕ → ℕ) where
  -- An escape byte inside a sequence changes nothing.
  escape_again :
      (t : Tty) (c : ℕ) (s : List ℕ) → Inside t s → (c == 0x1b) ≡ true → putchar font t c ≡ done t
  escape_again t c s ins e =
      ap (putchar font t) (==→eq c 0x1b e)
      ∙ putchar-esc font t ins.to_fb
      ∙ ap (λ (b : Bool). done (record t { esc = b })) (sym ins.escaping)

  put_all-hidden :
      (bs s : List ℕ) (t : Tty)
      → Inside t s
      → NoM s
      → AllHidden bs
      → length s + length bs < 255
      → (t' : Tty) × (put_all font t bs ≡ done t')
        × Inside t' (s ++ kept bs)
        × (t' ≡ record t { escape = t'.escape })
  unfolding put_all
  put_all-hidden [] s t ins clean h room =
      (t, refl, subst (Inside t) (sym (append-nil s)) ins, refl)
  put_all-hidden (c ∷ bs) s t ins clean h room = elim (Bool-cases (c == 0x1b)) [
    | inl escape ↦
        let (t', runs, ins', same) = put_all-hidden bs s t ins clean h.2 (omega arith) in
        (t', bind-done _ (escape_again t c s ins escape) runs, rw escape ins', same)
    | inr other ↦
        let (u, step, ins_u, same) =
          put_all-open font (c ∷ []) bs s t ins clean (h.0, ==→ne c 0x1b other, h.1, tt)
            (omega arith) in
        let (t', runs, ins', same') =
          put_all-hidden bs (s ++ c ∷ []) u ins_u (NoM-snoc s c clean h.1) h.2
            (omega (arith, length-append {0} s (c ∷ []))) in
        (
          t',
          step ∙ runs,
          rw other (subst (Inside t') (append_assoc s (c ∷ []) (kept bs)) ins'),
          same' ∙ ap (λ (v : Tty). record v { escape = t'.escape }) same,
        )
  ]

  -- After an escape byte, up to 254 bytes without a zero or an "m" do not end the sequence: it has then
  -- all of them, in order, but further escape bytes, which are dropped; nothing of them is drawn, and
  -- the cursor and the colours stay.
  pub put_all-AllHidden :
      (t : Tty) (bs : List ℕ)
      → Fresh font t
      → AllHidden bs
      → length bs < 255
      → (t' : Tty) × (put_all font t (0x1b ∷ bs) ≡ done t')
        × Inside t' (kept bs)
        × (t' ≡ record t { esc = true; escape = t'.escape })
  unfolding put_all
  put_all-AllHidden t bs fresh h room =
      let (t', runs, ins, same) =
        put_all-hidden bs [] (record t { esc = true }) (opened font t fresh) tt h (omega arith) in
      (t', bind-done _ (putchar-esc font t fresh.0) runs, ins, same)

-- ===== src/Keyboard/Line.antt =====
-- The line that the keyboard handler keeps.
use sesh_os.Base.{
  ℕ, ◌+◌, ◌-◌, ◌<◌, ◌≡◌, ◌≢◌, refl, sym, ap, ◌∙◌, inl, inr, List, [], ◌∷◌, ◌++◌, ◌==◌, ltb,
  if◌then◌else◌, length, length-append, get_or, set, Bool-cases, arith, ==→eq, ==→ne, ne→==,
  length-set, get_or-set_self, get_or-set_ne, lt→ltb,
}
use sesh_os.Base.Run.{done, bind-done}
use sesh_os.Keyboard.{Keyboard, shift_keys, enter, backspace, type_char, handle_keyboard}
use sesh_os.Keyboard.Chars.{
  drop_last, key_char, Kept, get_or-outside, get_or-snoc_left, get_or-snoc_end, length-drop_last,
  get_or-drop_last, get_or-replicate, looked_up, shift_keys-Kept,
}

-- The buffer of 100 bytes holds the line `s` and zeros behind it.
pub record Line (k : Keyboard) (s : List ℕ) : Type 0 where
  pub size : length k.input ≡ 100
  pub at_end : k.i ≡ length s
  pub bytes : (j : ℕ) → get_or k.input j 0 ≡ get_or s j 0

-- The line after a key.
abbrev pub edited : Keyboard → ℕ → List ℕ → List ℕ
edited k scancode s =
    if scancode == 0x1C
    then []
    else if scancode == 0x0E
    then drop_last s
    else if key_char k scancode == 0
    then s
    else s ++ key_char k scancode ∷ []

Line-same : (k g : Keyboard) (s : List ℕ) → g.input ≡ k.input → g.i ≡ k.i → Line k s → Line g s
Line-same k g s e f on = record {
  size = ap (length {0}) e ∙ on.size;
  at_end = f ∙ on.at_end;
  bytes = λ j. ap (λ (t : List ℕ). get_or t j 0) e ∙ on.bytes j;
}

module _ (printf : List ℕ → List ℕ) where
  enter-Line : (k : Keyboard) → Line (enter printf k) []
  unfolding enter
  enter-Line k = record { size = refl; at_end = refl; bytes = get_or-replicate 100 }

  type_char-Line :
      (k : Keyboard) (s : List ℕ) (c : ℕ)
      → Line k s
      → length s < 100
      → (g : Keyboard) × (type_char printf k c ≡ done g)
        × Line g (if c == 0 then s else s ++ c ∷ [])
        × (g.eoi ≡ k.eoi)
  unfolding type_char
  type_char-Line k s c on room = elim (Bool-cases (c == 0)) [
    | inl none_typed ↦ rw none_typed (k, refl, on, refl)
    | inr typed ↦
        rw (typed, lt→ltb k.i (length k.input) (omega (arith, on.size, on.at_end)))
          (
            record k {
              input = set k.input k.i c;
              i = k.i + 1;
              printed = k.printed ++ printf (c ∷ []);
            },
            refl,
            record {
              size = length-set k.input k.i c ∙ on.size;
              at_end = omega (arith, on.at_end, length-append {0} s (c ∷ []));
              bytes = stored;
            },
            refl,
          )
  ]
    where
      stored : (j : ℕ) → get_or (set k.input k.i c) j 0 ≡ get_or (s ++ c ∷ []) j 0
      stored j = elim (Bool-cases (j == length s)) [
        | inl here ↦
            let e = ==→eq j (length s) here in
            ap (λ (n : ℕ). get_or (set k.input n c) j 0) (on.at_end ∙ sym e)
            ∙ get_or-set_self k.input j c 0 (omega (arith, on.size))
            ∙ sym (get_or-snoc_end s c 0)
            ∙ ap (λ (n : ℕ). get_or (s ++ c ∷ []) n 0) (sym e)
        | inr away ↦
            let ne = ==→ne j (length s) away in
            get_or-set_ne k.input k.i j c 0 (λ e. ne (sym e ∙ on.at_end)) ∙ on.bytes j ∙ beside ne
      ]
        where
          beside : j ≢ length s → get_or s j 0 ≡ get_or (s ++ c ∷ []) j 0
          beside ne = elim (Bool-cases (ltb j (length s))) [
            | inl before ↦ sym (get_or-snoc_left s c j 0 (ground arith))
            | inr after ↦
                get_or-outside s j 0 (ground arith)
                ∙ sym (
                    get_or-outside (s ++ c ∷ []) j 0 (ground (arith, length-append {0} s (c ∷ []))))
          ]

  backspace-Line :
      (k : Keyboard) (s : List ℕ)
      → Line k s
      → length s < 100
      → s ≢ []
      → (g : Keyboard) × (backspace printf k ≡ done g) × Line g (drop_last s) × (g.eoi ≡ k.eoi)
  unfolding backspace
  backspace-Line k [] on room ne = absurd (ne refl)
  backspace-Line k (c ∷ s) on room ne =
      rw
        (
          ne→== k.i 0 (λ e. omega (arith, on.at_end)),
          lt→ltb (k.i - 1) (length k.input) (omega (arith, on.size, on.at_end)),
        )
        (
          record k { printed = k.printed ++ 8 ∷ []; i = k.i - 1; input = set k.input (k.i - 1) 0 },
          refl,
          record {
            size = length-set k.input (k.i - 1) 0 ∙ on.size;
            at_end = omega (arith, on.at_end, length-drop_last (c ∷ s));
            bytes = cleared;
          },
          refl,
        )
    where
      cleared : (j : ℕ) → get_or (set k.input (k.i - 1) 0) j 0 ≡ get_or (drop_last (c ∷ s)) j 0
      cleared j = elim (Bool-cases (j == length s)) [
        | inl here ↦
            let e : k.i - 1 ≡ j = omega (arith, on.at_end, ==→eq j (length s) here) in
            ap (λ (n : ℕ). get_or (set k.input n 0) j 0) e
            ∙ get_or-set_self k.input j 0 0 (omega (arith, on.size, ==→eq j (length s) here))
            ∙ sym (
                get_or-outside (drop_last (c ∷ s)) j 0
                  (omega (arith, length-drop_last (c ∷ s), ==→eq j (length s) here)))
        | inr away ↦
            get_or-set_ne k.input (k.i - 1) j 0 0
              (λ e. ==→ne j (length s) away (omega (arith, on.at_end)))
            ∙ on.bytes j
            ∙ beside (==→ne j (length s) away)
      ]
        where
          beside : j ≢ length s → get_or (c ∷ s) j 0 ≡ get_or (drop_last (c ∷ s)) j 0
          beside far = elim (Bool-cases (ltb j (length s))) [
            | inl before ↦ sym (get_or-drop_last (c ∷ s) j (ground arith))
            | inr after ↦
                get_or-outside (c ∷ s) j 0 (ground arith)
                ∙ sym (
                    get_or-outside (drop_last (c ∷ s)) j 0
                      (ground (arith, length-drop_last (c ∷ s))))
          ]

  -- What the handler does once the character is known.
  key_done :
      (k : Keyboard) (scancode : ℕ) (s : List ℕ)
      → Line k s
      → length s < 100
      → (scancode ≡ 0x0E → s ≢ [])
      → (r : Keyboard × ℕ) → Kept k (key_char k scancode) r
      → (g : Keyboard) × ((if scancode == 0x1C
            then done (enter printf r.0)
            else if scancode == 0x0E
            then backspace printf r.0
            else type_char printf r.0 r.1)
          ≡ done g)
        × Line g (edited k scancode s)
        × (g.eoi ≡ k.eoi)
  unfolding enter
  key_done k scancode s on room some_left r kept = elim (Bool-cases (scancode == 0x1C)) [
    | inl a ↦ rw a (enter printf r.0, refl, enter-Line r.0, counted)
    | inr na ↦ rw na (elim (Bool-cases (scancode == 0x0E)) [
      | inl b ↦
          let (g, runs, line, count) =
            backspace-Line r.0 s held room (some_left (==→eq scancode 0x0E b)) in
          rw b (g, runs, line, count ∙ kept.count)
      | inr nb ↦
          let (g, runs, line, count) = type_char-Line r.0 s (key_char k scancode) held room in
          rw nb (g, ap (type_char printf r.0) kept.char ∙ runs, line, count ∙ kept.count)
    ])
  ]
    where
      held : Line r.0 s
      held = Line-same k r.0 s kept.input kept.place on

      counted : (enter printf r.0).eoi ≡ k.eoi
      counted = kept.count

  -- While the line has less than 100 characters, every scan code but 58, and but a backspace on the
  -- empty line, is handled: enter empties the line, a backspace takes its last character, a key
  -- with a character adds it, shifted if a shift key is down, every other code leaves it, and the
  -- interrupt is acknowledged once.
  pub handle_keyboard-Line :
      (k : Keyboard) (scancode : ℕ) (s : List ℕ)
      → Line k s
      → length s < 100
      → scancode ≢ 58
      → (scancode ≡ 0x0E → s ≢ [])
      → (g : Keyboard) × (handle_keyboard printf k scancode ≡ done g)
        × Line g (edited k scancode s)
        × (g.eoi ≡ k.eoi + 1)
  unfolding handle_keyboard
  handle_keyboard-Line k scancode s on room known some_left =
      let r = shift_keys k scancode (key_char k scancode) in
      let (g, runs, line, count) =
        key_done k scancode s on room some_left r (shift_keys-Kept k scancode) in
      (
        record g { eoi = g.eoi + 1 },
        bind-done _ (looked_up k scancode known) (bind-done _ runs refl),
        Line-same g (record g { eoi = g.eoi + 1 }) (edited k scancode s) refl refl line,
        ap (λ (n : ℕ). n + 1) count,
      )

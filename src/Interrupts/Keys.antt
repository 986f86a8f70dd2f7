-- ===== src/Interrupts/Keys.antt =====
-- What the interrupts of the keyboard do to the line that is typed.
use sesh_os.Base.{
  ℕ, ◌+◌, ◌≤◌, ◌≡◌, ◌≢◌, refl, sym, ap, ◌∙◌, true, List, [], ◌∷◌, ◌++◌, arith, ◌==◌, if◌then◌else◌,
  length, length-append, replicate, ne→==, Bool-cases, inl, inr,
}
use mathlib.Core.List.{append_assoc, append-nil}
use sesh_os.Base.Run.{done, bind-done}
use sesh_os.Idt.{InterruptEntry, Handlers, Out, outb}
use sesh_os.Idt.Table.{Installed}
use sesh_os.Keyboard.{Keyboard, handle_keyboard}
use sesh_os.Keyboard.Chars.{key_char}
use sesh_os.Keyboard.Line.{Line, edited, handle_keyboard-Line}
use sesh_os.Interrupts.{
  resumed, pic_end_master, keyboard_handler, interrupt, after_key, key_interrupts,
}

-- The keyboard's handler is none of the four that panic.
pub record Apart (h : Handlers) : Type 0 where
  pub divide_by_zero : h.keyboard ≢ h.divide_by_zero
  pub page_fault : h.keyboard ≢ h.page_fault
  pub double_fault : h.keyboard ≢ h.double_fault
  pub gp_fault : h.keyboard ≢ h.gp_fault

same_address : (a : ℕ) → (a == a) ≡ true
same_address a = ground arith

module _ (printf : List ℕ → List ℕ) where
  interrupt-keyboard :
      (h : Handlers) (t : List InterruptEntry) (k : Keyboard) (scancode : ℕ)
      → Installed t h
      → Apart h
      → interrupt printf h t 0x21 k scancode ≡ keyboard_handler printf k scancode
  unfolding interrupt
  interrupt-keyboard h t k scancode installed apart =
      rw
        (
          installed.1.offset,
          ne→== _ _ apart.divide_by_zero,
          ne→== _ _ apart.page_fault,
          ne→== _ _ apart.double_fault,
          ne→== _ _ apart.gp_fault,
          same_address h.keyboard,
        )
        refl

  -- Keys that were handled one after the other, and the line before and behind them.
  pub data Edits
      : (scancodes : List ℕ)
        → (k : Keyboard) → (s : List ℕ) → (g : Keyboard) → (s' : List ℕ) → Type 0 where
    end : {k : Keyboard} {s : List ℕ} → Edits [] k s k s
    key :
        {scancode : ℕ} {scancodes s s' : List ℕ} {k k1 g : Keyboard}
        → handle_keyboard printf k scancode ≡ done k1
        → Edits scancodes k1 (edited k scancode s) g s'
        → Edits (scancode ∷ scancodes) k s g s'

  -- No key is caps lock or backspace.
  abbrev pub Typable : List ℕ → Type 0
  Typable [] = Unit {0}
  Typable (scancode ∷ scancodes) = (scancode ≢ 58) × (scancode ≢ 0x0E) × Typable scancodes

  length-edited :
      (k : Keyboard) (scancode : ℕ) (s : List ℕ)
      → scancode ≢ 0x0E
      → length (edited k scancode s) ≤ length s + 1
  length-edited k scancode s ne = elim (Bool-cases (scancode == 0x1C)) [
    | inl entered ↦ rw entered (omega arith)
    | inr other ↦ rw (other, ne→== scancode 0x0E ne) (shown (key_char k scancode))
  ]
    where
      shown : (c : ℕ) → length (if c == 0 then s else s ++ c ∷ []) ≤ length s + 1
      shown c = elim (Bool-cases (c == 0)) [
        | inl none_typed ↦ rw none_typed (omega arith)
        | inr typed ↦ rw typed (omega (arith, length-append {0} s (c ∷ [])))
      ]

  keyboard_handler-resumed :
      (k k1 : Keyboard) (scancode : ℕ)
      → handle_keyboard printf k scancode ≡ done k1
      → keyboard_handler printf k scancode ≡ done (resumed k1 (outb 0x20 0x20 ∷ []))
  unfolding keyboard_handler pic_end_master
  keyboard_handler-resumed k k1 scancode runs = bind-done _ runs refl

  -- With the handlers installed, every interrupt of the keyboard whose key is neither caps lock nor
  -- backspace edits the line, as long as its buffer has room for all of them; the kernel goes on, and
  -- the handler sends one more end of interrupt for each than `HandleKeyboard` has counted.
  pub key_interrupts-Edits :
      (h : Handlers) (t : List InterruptEntry) (scancodes : List ℕ) (k : Keyboard) (s : List ℕ)
      (outs : List Out)
      → Installed t h
      → Apart h
      → Line k s
      → Typable scancodes
      → length s + length scancodes ≤ 100
      → (g : Keyboard) × (s' : List ℕ) × (key_interrupts printf h t scancodes k outs
          ≡ done (resumed g (outs ++ replicate (length scancodes) (outb 0x20 0x20))))
        × Edits scancodes k s g s'
        × Line g s'
        × (g.eoi ≡ k.eoi + length scancodes)
  unfolding key_interrupts after_key
  key_interrupts-Edits h t [] k s outs installed apart line typable room = (
    k,
    s,
    ap (λ (o : List Out). done (resumed k o)) (sym (append-nil outs)),
    end,
    line,
    omega arith,
  )
  key_interrupts-Edits h t (scancode ∷ scancodes) k s outs installed apart line typable room =
      let (k1, runs, line1, count) =
        handle_keyboard-Line printf k scancode s line (omega arith) typable.0
          (λ e. absurd (typable.1 e)) in
      let longer = length-edited k scancode s typable.1 in
      let (g, s', rest, edits, line', counts) =
        key_interrupts-Edits h t scancodes k1 (edited k scancode s) (outs ++ outb 0x20 0x20 ∷ [])
          installed apart line1 typable.2 (omega (arith, longer)) in
      (
        g,
        s',
        bind-done _
            (interrupt-keyboard h t k scancode installed apart
              ∙ keyboard_handler-resumed k k1 scancode runs)
            (rest ∙ ap (λ (o : List Out). done (resumed g o)) (append_assoc outs _ _)),
        key runs edits,
        line',
        omega (arith, count, counts),
      )

-- ===== src/Tests/Interrupting.antt =====
-- Runs of the keyboard's interrupts.
use sesh_os.Base.{ℕ, ◌+◌, ◌≡◌, List, [], ◌∷◌, ◌++◌, arith, refl, replicate}
use sesh_os.Base.Run.{done}
use sesh_os.Idt.{InterruptEntry, outb, create_entries}
use sesh_os.Idt.Table.{Installed, create_entries-Installed}
use sesh_os.Keyboard.{Keyboard}
use sesh_os.Keyboard.Line.{Line}
use sesh_os.Interrupts.{resumed, key_interrupts}
use sesh_os.Interrupts.Keys.{Apart, Edits, key_interrupts-Edits}
use sesh_os.Tests.Devices.{handlers, gates, handlers-AreAddresses, as_is, typed, typed-Line}

installed :
    (t : List InterruptEntry) × (create_entries handlers gates ≡ done t) × Installed t handlers
installed = create_entries-Installed handlers gates refl handlers-AreAddresses

handlers-Apart : Apart handlers
handlers-Apart = record {
  divide_by_zero = λ e. omega arith;
  page_fault = λ e. omega arith;
  double_fault = λ e. omega arith;
  gp_fault = λ e. omega arith;
}

-- The keys A, shift and B on a line with one letter.
key_interrupts-Edits_example :
    (g : Keyboard) × (s' : List ℕ) × (key_interrupts as_is handlers installed.0
        (0x1E ∷ 0x2A ∷ 0x30 ∷ [])
        typed
        []
      ≡ done (resumed g ([] ++ replicate 3 (outb 0x20 0x20))))
    × Edits as_is (0x1E ∷ 0x2A ∷ 0x30 ∷ []) typed (b'a' ∷ []) g s'
    × Line g s'
    × (g.eoi ≡ typed.eoi + 3)
key_interrupts-Edits_example =
    key_interrupts-Edits as_is handlers installed.0 (0x1E ∷ 0x2A ∷ 0x30 ∷ []) typed (b'a' ∷ []) []
      installed.2 handlers-Apart typed-Line
      (
        (λ e. omega arith),
        (λ e. omega arith),
        ((λ e. omega arith), (λ e. omega arith), ((λ e. omega arith), (λ e. omega arith), tt)),
      )
      (omega arith)

-- ===== src/Interrupts.antt =====
-- kernel/idt/interrupts.c: the handlers, and which of them an interrupt reaches through the gates of
-- kernel/idt/idt.c.
pub mod Keys
use sesh_os.Base.{ℕ, Bool, List, [], ◌∷◌, ◌++◌, ◌==◌, get_or, if◌then◌else◌}
use sesh_os.Base.Run.{Run, done, fault, ◌>>=◌}
use sesh_os.Base.Text.{codes}
use sesh_os.Idt.{InterruptEntry, Handlers, Out, outb, get_interrupt_offset}
use sesh_os.Idt.Gates.{blank}
use sesh_os.Keyboard.{Keyboard, handle_keyboard}

-- How a handler ends: in `panic` with a message, or by its return.
pub data Handled : Type 0 where
  panicked : (message : List ℕ) → Handled
  resumed : Keyboard → List Out → Handled

unfoldable pub pic_end_master : List Out
pic_end_master = outb 0x20 0x20 ∷ []

unfoldable pub pic_end_slave : List Out
pic_end_slave = outb 0xA0 0x20 ∷ outb 0x20 0x20 ∷ []

unfoldable pub divide_by_zero_handler : Handled
divide_by_zero_handler = panicked (codes "You can't divide by 0 silly :P")

unfoldable pub page_fault_handler : Handled
page_fault_handler = panicked (codes "Page Fault Detected")

unfoldable pub double_fault_handler : Handled
double_fault_handler = panicked (codes "Double Fault Detected")

unfoldable pub gp_fault_handler : Handled
gp_fault_handler = panicked (codes "General Protection Fault Detected")

module _ (printf : List ℕ → List ℕ) where
  -- The scan code is what port 0x60 gives; `HandleKeyboard` counts what it sends by itself.
  unfoldable pub keyboard_handler : Keyboard → (scancode : ℕ) → Run Handled
  keyboard_handler k scancode = do
    g ← handle_keyboard printf k scancode
    done (resumed g pic_end_master)

  unfoldable pub test_handler : Keyboard → Handled
  test_handler k = resumed (record k { printed = k.printed ++ printf (codes "NICE\n") }) []

  -- The code at the address in the gate of a vector; other addresses hold no handler.
  unfoldable pub interrupt :
      Handlers → List InterruptEntry → (vector : ℕ) → Keyboard → (scancode : ℕ) → Run Handled
  interrupt h table vector k scancode =
      let address = get_interrupt_offset (get_or table vector blank) in
      if address == h.divide_by_zero
      then done divide_by_zero_handler
      else if address == h.page_fault
      then done page_fault_handler
      else if address == h.double_fault
      then done double_fault_handler
      else if address == h.gp_fault
      then done gp_fault_handler
      else if address == h.keyboard
      then keyboard_handler k scancode
      else if address == h.test
      then done (test_handler k)
      else fault

  -- After an interrupt the next ones come, unless the kernel has panicked.
  pub after_key : (next : Keyboard → List Out → Run Handled) → List Out → Handled → Run Handled
  after_key next outs (panicked message) = done (panicked message)
  after_key next outs (resumed k more) = next k (outs ++ more)

  -- Interrupts of the keyboard one after the other, with all that the handler sent to the
  -- controllers.
  pub key_interrupts :
      Handlers → List InterruptEntry → (scancodes : List ℕ) → Keyboard → List Out → Run Handled
  key_interrupts h table [] k outs = done (resumed k outs)
  key_interrupts h table (scancode ∷ scancodes) k outs =
      interrupt h table 0x21 k scancode
      >>= after_key (λ g more. key_interrupts h table scancodes g more) outs

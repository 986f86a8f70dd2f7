-- ===== src/Idt.antt =====
-- kernel/idt/idt.c: the gates of the interrupt table and the programming of the two interrupt
-- controllers. `include/io.h` gives the ports.
pub mod Gates
pub mod Table
use sesh_os.Base.{
  ℕ, ◌+◌, ◌-◌, ◌*◌, ◌/◌, ◌%◌, ◌^◌, List, [], ◌∷◌, ◌++◌, get_or, set, length, bit_and, bit_or, ltb,
  if◌then◌else◌, u16, u32, u64,
}
use sesh_os.Base.Run.{Run, done, fault, ◌>>=◌}

-- `InterruptEntry`
pub record InterruptEntry : Type 0 where
  pub offset_0 : ℕ
  pub selector : ℕ
  pub stack_list_offset : ℕ
  pub type_attribute : ℕ
  pub offset_1 : ℕ
  pub offset_2 : ℕ
  pub ignore : ℕ

-- The masks and shifts of a 64-bit offset.
unfoldable pub set_interrupt_offset : InterruptEntry → ℕ → InterruptEntry
set_interrupt_offset e offset = record e {
  offset_0 = u16 (bit_and offset 0xFFFF);
  offset_1 = u16 (bit_and offset 0xFFFF0000 / 2 ^ 16);
  offset_2 = u32 (bit_and offset 0xFFFFFFFF00000000 / 2 ^ 32);
}

unfoldable pub get_interrupt_offset : InterruptEntry → ℕ
get_interrupt_offset e =
    bit_or (bit_or (bit_or 0 e.offset_0) (u64 (e.offset_1 * 2 ^ 16))) (u64 (e.offset_2 * 2 ^ 32))

abbrev pub int_ta_gate : ℕ
int_ta_gate = 0x8E

-- The table is the page of 256 entries of 16 bytes.
unfoldable pub create_entry :
    (interrupt_num handler : ℕ) → List InterruptEntry → Run (List InterruptEntry)
create_entry interrupt_num handler table =
    let blank : InterruptEntry = record {
      offset_0 = 0;
      selector = 0;
      stack_list_offset = 0;
      type_attribute = 0;
      offset_1 = 0;
      offset_2 = 0;
      ignore = 0;
    } in
    let entry = set_interrupt_offset (get_or table interrupt_num blank) handler in
    if ltb interrupt_num (length table)
    then done
        (set table interrupt_num (record entry { type_attribute = int_ta_gate; selector = 8 }))
    else fault

-- The addresses of the six handlers.
pub record Handlers : Type 0 where
  pub page_fault : ℕ
  pub divide_by_zero : ℕ
  pub double_fault : ℕ
  pub gp_fault : ℕ
  pub keyboard : ℕ
  pub test : ℕ

unfoldable pub create_entries : Handlers → List InterruptEntry → Run (List InterruptEntry)
create_entries h t0 = do
  t1 ← create_entry 0xE h.page_fault t0
  t2 ← create_entry 0x0 h.divide_by_zero t1
  t3 ← create_entry 0x8 h.double_fault t2
  t4 ← create_entry 0xD h.gp_fault t3
  t5 ← create_entry 0x21 h.keyboard t4
  create_entry 0x69 h.test t5

-- A byte sent to a port.
pub record Out : Type 0 where
  pub port : ℕ
  pub value : ℕ

abbrev pub outb : ℕ → ℕ → Out
outb p v = record { port = p; value = v }

-- `remap_interrupts_for_io`, from the masks that are read first; `io_wait` is left out.
unfoldable pub remap_interrupts_for_io : (mastr_mask slave_mask : ℕ) → List Out
remap_interrupts_for_io mastr_mask slave_mask =
    outb 0x20 0x11
    ∷ outb 0xA0 0x11
    ∷ outb 0x21 0x20
    ∷ outb 0xA1 0x28
    ∷ outb 0x21 4
    ∷ outb 0xA1 2
    ∷ outb 0x21 1
    ∷ outb 0xA1 1
    ∷ outb 0x21 mastr_mask
    ∷ outb 0xA1 slave_mask
    ∷ []

-- What `create_idt` sends to the controllers.
unfoldable pub create_idt_outs : (mastr_mask slave_mask : ℕ) → List Out
create_idt_outs mastr_mask slave_mask =
    remap_interrupts_for_io mastr_mask slave_mask ++ outb 0x21 0xF9 ∷ outb 0xA1 0xEF ∷ []

unfoldable pub end_interrupts_for_mastr_io : List Out
end_interrupts_for_mastr_io = outb 0x20 0x20 ∷ []

unfoldable pub end_interrupts_for_slave_io : List Out
end_interrupts_for_slave_io = outb 0xA0 0x20 ∷ end_interrupts_for_mastr_io

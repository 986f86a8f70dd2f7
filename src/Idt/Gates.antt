-- ===== src/Idt/Gates.antt =====
-- One gate of the interrupt table and its offset.
use sesh_os.Base.{
  ℕ, ◌+◌, ◌*◌, ◌/◌, ◌%◌, ◌^◌, ◌<◌, ◌≡◌, ◌≢◌, refl, sym, ap, ◌∙◌, List, get_or, set, length, bit_and,
  bit_or, arith, u16, u32, u64, length-set, get_or-set_self, get_or-set_ne, lt→ltb,
}
use sesh_os.Base.Bits.{bit_and-low, bit_and-shifted, bit_or-above, bit_or-zero_left}
use sesh_os.Base.Run.{done}
use sesh_os.Idt.{
  InterruptEntry, set_interrupt_offset, get_interrupt_offset, create_entry, int_ta_gate,
}

low_mask : (a : ℕ) → u16 (bit_and a 0xFFFF) ≡ a % 2 ^ 16
low_mask a = ap u16 (bit_and-low 16 a) ∙ omega arith

mid_mask : (a : ℕ) → u16 (bit_and a 0xFFFF0000 / 2 ^ 16) ≡ a / 2 ^ 16 % 2 ^ 16
mid_mask a = ap u16 (bit_and-shifted 16 a 0xFFFF0000 ∙ bit_and-low 16 (a / 2 ^ 16)) ∙ omega arith

high_mask : (a : ℕ) → u32 (bit_and a 0xFFFFFFFF00000000 / 2 ^ 32) ≡ a / 2 ^ 32 % 2 ^ 32
high_mask a =
    ap u32 (bit_and-shifted 32 a 0xFFFFFFFF00000000 ∙ bit_and-low 32 (a / 2 ^ 32)) ∙ omega arith

ruleset masks = (low_mask, mid_mask, high_mask)

joined :
    (x y z : ℕ)
    → x < 2 ^ 16
    → y < 2 ^ 16
    → z < 2 ^ 32
    → bit_or (bit_or (bit_or 0 x) (u64 (y * 2 ^ 16))) (u64 (z * 2 ^ 32))
      ≡ z * 2 ^ 32 + y * 2 ^ 16 + x
joined x y z a b c =
    rw
      (
        mid,
        high,
        bit_or-zero_left x,
        bit_or-above 16 y x a,
        bit_or-above 32 z (y * 2 ^ 16 + x) (omega arith),
      )
      (omega arith)
  where
    mid : u64 (y * 2 ^ 16) ≡ y * 2 ^ 16
    mid = omega arith

    high : u64 (z * 2 ^ 32) ≡ z * 2 ^ 32
    high = omega arith

-- What is read back from a gate is the 64-bit offset that was put there.
pub get_interrupt_offset-set_interrupt_offset :
    (e : InterruptEntry) (offset : ℕ)
    → offset < 2 ^ 64
    → get_interrupt_offset (set_interrupt_offset e offset) ≡ offset
unfolding get_interrupt_offset set_interrupt_offset
get_interrupt_offset-set_interrupt_offset e offset h = simp masks (
    joined (offset % 2 ^ 16) (offset / 2 ^ 16 % 2 ^ 16) (offset / 2 ^ 32 % 2 ^ 32) (omega arith)
      (omega arith) (omega arith)
    ∙ omega arith)

abbrev pub blank : InterruptEntry
blank = record {
  offset_0 = 0;
  selector = 0;
  stack_list_offset = 0;
  type_attribute = 0;
  offset_1 = 0;
  offset_2 = 0;
  ignore = 0;
}

-- The gate `i` of the table leads to `handler`, in the kernel's code segment.
pub record Leads (table : List InterruptEntry) (i handler : ℕ) : Type 0 where
  pub offset : get_interrupt_offset (get_or table i blank) ≡ handler
  pub segment : (get_or table i blank).selector ≡ 8
  pub kind : (get_or table i blank).type_attribute ≡ int_ta_gate

get_interrupt_offset_flags :
    (e : InterruptEntry) (kind segment : ℕ)
    → get_interrupt_offset (record e { type_attribute = kind; selector = segment })
      ≡ get_interrupt_offset e
unfolding get_interrupt_offset
get_interrupt_offset_flags e kind segment = refl

-- `CreateEntry` sets one gate of the table and no other.
pub record Created (old : List InterruptEntry) (i handler : ℕ) (new : List InterruptEntry)
    : Type 0 where
  pub size : length new ≡ length old
  pub set_gate : Leads new i handler
  pub others : (k : ℕ) → k ≢ i → get_or new k blank ≡ get_or old k blank

pub create_entry-Created :
    (i handler : ℕ) (table : List InterruptEntry)
    → i < length table
    → handler < 2 ^ 64
    → (t : List InterruptEntry) × (create_entry i handler table ≡ done t)
      × Created table i handler t
unfolding create_entry
create_entry-Created i handler table h room =
    let entry = set_interrupt_offset (get_or table i blank) handler in
    let gate : InterruptEntry = record entry { type_attribute = int_ta_gate; selector = 8 } in
    let here = get_or-set_self table i gate blank h in
    (
      set table i gate,
      rw (lt→ltb i (length table) h) refl,
      record {
        size = length-set table i gate;
        set_gate = record {
          offset =
              ap get_interrupt_offset here
              ∙ get_interrupt_offset_flags entry int_ta_gate 8
              ∙ get_interrupt_offset-set_interrupt_offset (get_or table i blank) handler room;
          segment = ap (λ (e : InterruptEntry). e.selector) here;
          kind = ap (λ (e : InterruptEntry). e.type_attribute) here;
        };
        others = λ k ne. get_or-set_ne table i k gate blank (λ e. ne (sym e));
      },
    )

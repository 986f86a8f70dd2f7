-- ===== src/Sata/Filled.antt =====
-- Where the bytes of a command stand in memory.
use sesh_os.Base.{ℕ, ◌+◌, ◌*◌, ◌/◌, ◌^◌, ◌<◌, ◌≤◌, ◌≡◌, ap, sym, ◌∙◌, ◌⊎◌, inl, inr, arith}
use sesh_os.Base.Memory.{Memory, SameOff}
use sesh_os.Base.Words.{load32, store32, store32-SameOff}
use sesh_os.Base.Int.{pos}
use mathlib.Core.Path.{subst}
use sesh_os.Mem.{memset}
use sesh_os.Mem.Copy.{memset_lem}
use sesh_os.Sata.{Fis, Command, fill_fis, fill_entry, fill_header, table_of, fill_command}

-- The bytes of a FIS with the sector and the count.
pub record FisAt (g : Memory) (at : ℕ) (f : Fis) : Type 0 where
  pub fis_type : g at ≡ f.fis_type
  pub command : g (at + 2) ≡ f.command
  pub lba0 : g (at + 4) ≡ f.lba0
  pub lba1 : g (at + 5) ≡ f.lba1
  pub lba2 : g (at + 6) ≡ f.lba2
  pub device_register : g (at + 7) ≡ f.device_register
  pub lba3 : g (at + 8) ≡ f.lba3
  pub lba4 : g (at + 9) ≡ f.lba4
  pub count_low : g (at + 12) ≡ f.count_low
  pub count_high : g (at + 13) ≡ f.count_high

fill_fis-FisAt : (m : Memory) (at : ℕ) (f : Fis) → FisAt (fill_fis m at f) at f
unfolding fill_fis
fill_fis-FisAt m at f = record {
  fis_type = ground arith;
  command = ground arith;
  lba0 = ground arith;
  lba1 = ground arith;
  lba2 = ground arith;
  device_register = ground arith;
  lba3 = ground arith;
  lba4 = ground arith;
  count_low = ground arith;
  count_high = ground arith;
}

fill_fis-SameOff : (m : Memory) (at : ℕ) (f : Fis) → SameOff at (at + 14) m (fill_fis m at f)
unfolding fill_fis
fill_fis-SameOff m at f a out = ground arith

fill_fis-lba5 : (m : Memory) (at : ℕ) (f : Fis) → fill_fis m at f (at + 10) ≡ m (at + 10)
unfolding fill_fis
fill_fis-lba5 m at f = ground arith

fill_entry-SameOff :
    (m : Memory) (at : ℕ) (c : Command) → SameOff at (at + 16) m (fill_entry m at c)
unfolding fill_entry
fill_entry-SameOff m at c a out =
    let m1 = store32 (store32 m at c.data_base_address) (at + 4) c.data_base_address_upper in
    let m2 = store32 m1 (at + 12) (load32 m1 (at + 12) / 2 ^ 22 * 2 ^ 22 + c.byte_count) in
    store32-SameOff m2 (at + 12) _ a (grind arith)
    ∙ store32-SameOff m1 (at + 12) _ a (grind arith)
    ∙ store32-SameOff (store32 m at c.data_base_address) (at + 4) _ a (grind arith)
    ∙ store32-SameOff m at _ a (grind arith)

fill_header-SameOff :
    (m : Memory) (header : ℕ) (c : Command) → SameOff header (header + 4) m (fill_header m header c)
unfolding fill_header
fill_header-SameOff m header c a out = ground arith

table_of-fill_header :
    (m : Memory) (header : ℕ) (c : Command)
    → table_of (fill_header m header c) header ≡ table_of m header
unfolding table_of load32
table_of-fill_header m header c =
    let same = fill_header-SameOff m header c in
    omega (
      arith,
      same (header + 8) (inr (omega arith)),
      same (header + 8 + 1) (inr (omega arith)),
      same (header + 8 + 2) (inr (omega arith)),
      same (header + 8 + 3) (inr (omega arith)),
    )

-- What is known of the memory behind `fill_command`: the FIS stands at the table whose address is the
-- lower half that the header has, its byte for the highest bits of the sector is zero, and only four
-- bytes of the header and the 144 bytes of the table with its entry were written.
pub record Filled (m : Memory) (header : ℕ) (c : Command) (g : Memory) : Type 0 where
  pub fis : FisAt g (table_of m header) c.fis
  pub lba5 : g (table_of m header + 10) ≡ 0
  pub others :
      (a : ℕ)
      → (a < header) ⊎ (header + 4 ≤ a)
      → (a < table_of m header) ⊎ (table_of m header + 144 ≤ a)
      → g a ≡ m a

zeroed : (m : Memory) (at a : ℕ) → at ≤ a → a < at + 128 → (memset m at (pos 0) (pos 128)).0 a ≡ 0
zeroed m at a h l = (memset_lem m at (pos 0) (pos 128) a).1 ∙ ground arith

zeroed-others :
    (m : Memory) (at a : ℕ) → (a < at) ⊎ (at + 144 ≤ a) → (memset m at (pos 0) (pos 128)).0 a ≡ m a
zeroed-others m at a out = (memset_lem m at (pos 0) (pos 128) a).1 ∙ ground arith

module _ (m : Memory) (header : ℕ) (c : Command) where
  behind_header : Memory
  behind_header = fill_header m header c

  filled_at : (table : ℕ) → Memory
  filled_at table =
      fill_fis (fill_entry (memset behind_header table (pos 0) (pos 128)).0 (table + 128) c) table
        c.fis

  filled-table : fill_command m header c ≡ filled_at (table_of m header)
  unfolding fill_command filled_at behind_header
  filled-table = ap filled_at (table_of-fill_header m header c)

  filled_at-lba5 : (table : ℕ) → filled_at table (table + 10) ≡ 0
  unfolding filled_at
  filled_at-lba5 table =
      let m2 = (memset behind_header table (pos 0) (pos 128)).0 in
      fill_fis-lba5 (fill_entry m2 (table + 128) c) table c.fis
      ∙ fill_entry-SameOff m2 (table + 128) c (table + 10) (inl (omega arith))
      ∙ zeroed behind_header table (table + 10) (omega arith) (omega arith)

  filled_at-others :
      (table a : ℕ)
      → (a < header) ⊎ (header + 4 ≤ a)
      → (a < table) ⊎ (table + 144 ≤ a)
      → filled_at table a ≡ m a
  unfolding filled_at behind_header
  filled_at-others table a off_header off_table =
      let m2 = (memset behind_header table (pos 0) (pos 128)).0 in
      fill_fis-SameOff (fill_entry m2 (table + 128) c) table c.fis a (grind arith)
      ∙ fill_entry-SameOff m2 (table + 128) c a (grind arith)
      ∙ zeroed-others behind_header table a off_table
      ∙ fill_header-SameOff m header c a off_header

  pub fill_command-Filled : Filled m header c (fill_command m header c)
  unfolding filled_at
  fill_command-Filled =
      let table = table_of m header in
      subst (Filled m header c) (sym filled-table) (record {
        fis = fill_fis-FisAt _ table c.fis;
        lba5 = filled_at-lba5 table;
        others = λ a off_header off_table. filled_at-others table a off_header off_table;
      })

-- ===== src/Acpi.antt =====
-- kernel/acpi/acpi.c with the tables of include/acpi/acpi.h, which are bytes of the flat memory.
pub mod Checksum
pub mod Tables
pub mod Logging
use sesh_os.Base.{
  ℕ, zero, suc, ◌+◌, ◌-◌, ◌*◌, ◌/◌, ◌%◌, ◌^◌, Bool, true, false, not, List, [], ◌∷◌, ◌++◌, ◌==◌,
  ltb, if◌then◌else◌, u32, u64,
}
use sesh_os.Base.Int.{pos, pos_part, signed32, is_zero}
use sesh_os.Base.Memory.{Memory}
use sesh_os.Base.Words.{load32}
use sesh_os.Mem.{memcmp}

-- The string literals that are compared with, by their addresses.
pub record Literals : Type 0 where
  pub rsd_ptr : ℕ
  pub rsdt : ℕ
  pub facp : ℕ
  pub mcfg : ℕ

-- The messages for the log, each with what is put into its format; strings are given by the address
-- of their bytes.
pub data Message : Type 0 where
  bad_acpi : Message
  found_tables : (address : ℕ) → Message
  acpi_one : Message
  acpi_two : Message
  oem_id : (at : ℕ) → Message
  signature_not_correct : (at : ℕ) → Message
  found_rsdt : (at : ℕ) → Message
  checksum_wrong : (sum : ℕ) → Message
  checksum_passed : Message
  rsdt_oem_id : (at : ℕ) → Message
  rsdt_oem_revision : (revision : ℕ) → Message
  found_entry : (at : ℕ) → Message
  found_facp : Message

-- The level that a message is logged with: 5 is fatal, 3 a warning, and 2 information.
pub level : Message → ℕ
level bad_acpi = 5
level (signature_not_correct at) = 5
level (checksum_wrong sum) = 3
level _ = 2

-- A `char` is signed: a byte from 128 on takes 256 less, in the sum's word of `w` bits.
abbrev pub char_in : (w c : ℕ) → ℕ
char_in w c = if ltb c 128 then c else 2 ^ w - 256 + c

-- `for (i = 0; i < tableHeader->length; i++)`, with `left` rounds to go
pub checksum_loop : (w left i : ℕ) → Memory → (header sum : ℕ) → ℕ
checksum_loop w zero i m header sum = sum
checksum_loop w (suc left) i m header sum =
    checksum_loop w left (i + 1) m header ((sum + char_in w (m (header + i))) % 2 ^ w)

-- The sum is a `uint_fast32_t`, of `w` bits: 32 or 64.
unfoldable pub do_checksum : (w : ℕ) → Memory → (header : ℕ) → Bool × List Message
unfolding checksum_loop
do_checksum w m header =
    let sum = checksum_loop w (load32 m (header + 4)) 0 m header 0 in
    (sum == 0, if sum == 0 then [] else checksum_wrong sum ∷ [])

-- `memcmp(p, "...", n) == 0`
pub is_literal : Memory → (p literal n : ℕ) → Bool
is_literal m p literal n = is_zero (memcmp m p literal (pos n))

-- The global `mcfg`, and the messages so far.
pub record Acpi : Type 0 where
  pub mcfg : ℕ
  pub messages : List Message

abbrev pub told : List Message → Acpi → Acpi
told messages a = record a { messages = a.messages ++ messages }

-- The table that an entry of the RSDT, behind its header of 36 bytes, points to.
abbrev pub entry : Memory → (rsdt i : ℕ) → ℕ
entry m rsdt i = load32 m (rsdt + 36 + 4 * i)

-- The body of the loop over the entries.
pub look_at : Literals → Memory → (h : ℕ) → Acpi → Acpi
look_at lits m h a =
    let a1 = told (found_entry h ∷ []) a in
    let a2 = if is_literal m h lits.facp 4 then told (found_facp ∷ []) a1 else a1 in
    if is_literal m h lits.mcfg 4 then record a2 { mcfg = h } else a2

-- `for (i = 0; i < entries; i++)`, with `left` rounds to go
pub entries_loop : Literals → Memory → (rsdt left i : ℕ) → Acpi → Acpi
entries_loop lits m rsdt zero i a = a
entries_loop lits m rsdt (suc left) i a =
    entries_loop lits m rsdt left (i + 1) (look_at lits m (entry m rsdt i) a)

-- The `int` of entries, from the RSDT's length.
unfoldable pub entries : Memory → (rsdt : ℕ) → ℕ
entries m rsdt = pos_part (signed32 (u32 (u64 (load32 m (rsdt + 4) + 2 ^ 64 - 36) / 4)))

-- How `ACPI_Init` ends: by its first `return`, in `panic`, or at its end.
pub data Ending : Type 0 where
  returned : Acpi → Ending
  panicked : Acpi → Ending
  finished : Acpi → Ending

-- What is logged of the RSDP: its revision stands at 15, and its OEM id at 9.
pub report_rsdp : Memory → (p : ℕ) → Acpi → Acpi
report_rsdp m p a =
    let revision = if m (p + 15) == 0 then acpi_one else acpi_two in
    told (found_tables p ∷ revision ∷ oem_id (p + 9) ∷ []) a

-- What is logged of the RSDT, whose signature is right.
pub report_rsdt : (w : ℕ) → Memory → (rsdt : ℕ) → Acpi → Acpi
report_rsdt w m rsdt a =
    let checked = do_checksum w m rsdt in
    let passed = if checked.0 then checksum_passed ∷ [] else [] in
    told (rsdt_oem_id (rsdt + 10) ∷ rsdt_oem_revision (load32 m (rsdt + 24)) ∷ [])
      (told passed (told checked.1 (told (found_rsdt rsdt ∷ []) a)))

-- The RSDT's address stands at 16 of the RSDP.
unfoldable pub acpi_init : (w : ℕ) → Literals → Memory → (rsdp : ℕ) → Acpi → Ending
unfolding is_literal entries_loop look_at report_rsdp report_rsdt
acpi_init w lits m p a =
    let a1 = report_rsdp m p a in
    let rsdt = load32 m (p + 16) in
    if not (is_literal m p lits.rsd_ptr 8)
    then returned (told (bad_acpi ∷ []) a)
    else if not (is_literal m rsdt lits.rsdt 4)
    then panicked (told (signature_not_correct rsdt ∷ []) a1)
    else finished (entries_loop lits m rsdt (entries m rsdt) 0 (report_rsdt w m rsdt a1))

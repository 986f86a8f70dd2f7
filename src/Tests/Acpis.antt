-- ===== src/Tests/Acpis.antt =====
-- Runs of the search of the ACPI tables.
use sesh_os.Base.{
  ℕ, zero, suc, ◌+◌, ◌%◌, ◌^◌, ◌<◌, ◌≡◌, ◌≢◌, refl, true, false, inl, [], ◌∷◌, ◌++◌, arith,
  replicate,
}
use sesh_os.Base.Int.{pos}
use sesh_os.Base.Memory.{Memory}
use sesh_os.Base.Text.{codes}
use sesh_os.Base.Words.{load32}
use sesh_os.Mem.{memcmp}
use sesh_os.Mem.Compare.{SameBytes, memcmp-zero_iff}
use sesh_os.Acpi.{Literals, Acpi, finished, entry, entries, acpi_init, do_checksum}
use sesh_os.Acpi.Checksum.{byte_sum, do_checksum-byte_sum}
use sesh_os.Acpi.Tables.{IsMcfg, LastMcfg, acpi_init-LastMcfg}
use sesh_os.Tests.{text}

abbrev pub literals : Literals
literals = record { rsd_ptr = 0; rsdt = 8; facp = 12; mcfg = 16 }

-- The literals, the descriptor at 20, the root table at 56 with one entry, and an MCFG at 96.
abbrev pub tables : Memory
tables = text 0 (
    codes "RSD PTR RSDTFACPMCFG"
    ++ codes "RSD PTR "
    ++ replicate 8 0
    ++ (56 ∷ 0 ∷ 0 ∷ 0 ∷ [])
    ++ replicate 16 0
    ++ codes "RSDT"
    ++ (40 ∷ 0 ∷ 0 ∷ 0 ∷ [])
    ++ replicate 28 0
    ++ (96 ∷ 0 ∷ 0 ∷ 0 ∷ [])
    ++ codes "MCFG")

pub signed : memcmp tables 20 0 (pos 8) ≡ pos 0
unfolding memcmp
signed = refl

pub rooted : memcmp tables 56 8 (pos 4) ≡ pos 0
unfolding memcmp
rooted = refl

pub at_56 : load32 tables 36 ≡ 56
unfolding load32
at_56 = refl

abbrev pub start : Acpi
start = record { mcfg = 0; messages = [] }

acpi_init-LastMcfg_example :
    (a' : Acpi) × (acpi_init 64 literals tables 20 start ≡ finished a')
    × LastMcfg literals tables 56 0 (entries tables 56) start.mcfg a'.mcfg
acpi_init-LastMcfg_example =
    acpi_init-LastMcfg 64 literals tables 20 56 start ((memcmp-zero_iff tables 20 0 8).0 signed)
      at_56 ((memcmp-zero_iff tables 56 8 4).0 rooted)

one_entry : entries tables 56 ≡ 1
unfolding entries load32
one_entry = refl

first_entry : entry tables 56 0 ≡ 96
unfolding load32
first_entry = refl

signature : memcmp tables 96 16 (pos 4) ≡ pos 0
unfolding memcmp
signature = refl

pub IsMcfg-at_96 : (j : ℕ) × (j < entries tables 56) × IsMcfg literals tables 56 j
IsMcfg-at_96 =
    (0, rw one_entry (omega arith), rw first_entry ((memcmp-zero_iff tables 96 16 4).0 signature))

pub entries-nonzero : (j : ℕ) → j < entries tables 56 → entry tables 56 j ≢ 0
entries-nonzero zero h e = omega (arith, e, first_entry)
entries-nonzero (suc j) h e = omega (arith, h, one_entry)

pub the_entry : (j : ℕ) → j < entries tables 56 → entry tables 56 j ≡ 96
the_entry zero h = first_entry
the_entry (suc j) h = absurd (omega (arith, h, one_entry))

pub wrong : ¬ SameBytes tables 56 0 8
wrong h = omega (arith, h 3 (omega arith))

do_checksum-byte_sum_example :
    ((do_checksum 32 tables 56).0 ≡ true → byte_sum tables 56 (load32 tables 60) % 256 ≡ 0)
    × (load32 tables 60 < 2 ^ 24
        → ((k : ℕ) → k < load32 tables 60 → tables (56 + k) < 128)
        → byte_sum tables 56 (load32 tables 60) ≢ 0
        → (do_checksum 32 tables 56).0 ≡ false)
do_checksum-byte_sum_example = do_checksum-byte_sum 32 (inl refl) tables 56

-- ===== src/Acpi/Logging.antt =====
-- The texts that kernel/acpi/acpi.c makes in its array of 64 bytes and hands to `log`.
pub mod Fitting
use sesh_os.Base.{ℕ, zero, suc, ◌+◌, List, [], ◌∷◌, ◌++◌, ◌==◌, ltb, length, if◌then◌else◌}
use sesh_os.Base.Memory.{Memory}
use sesh_os.Base.Run.{Run, done, fault, ◌>>=◌}
use sesh_os.Base.Text.{codes}
use sesh_os.Tty.{Tty}
use sesh_os.Log.{log}
use sesh_os.Acpi.{
  Message, bad_acpi, found_tables, acpi_one, acpi_two, oem_id, signature_not_correct, found_rsdt,
  checksum_wrong, checksum_passed, rsdt_oem_id, rsdt_oem_revision, found_entry, found_facp, level,
}

-- `MODNAME`
abbrev pub modname : List ℕ
modname = codes "X86ACPI"

-- The bytes of a field of `n` bytes up to the first zero, as an array with one more zero holds them.
abbrev pub field : Memory → (at n : ℕ) → List ℕ
field m at zero = []
field m at (suc n) = let rest = field m (at + 1) n in if m at == 0 then [] else m at ∷ rest

-- `pointer` is what the library prints for `%p`, `number` for `%u` and `%lu`, and `padded` for `%-4s`.
module _ (m : Memory) (pointer number : ℕ → List ℕ) (padded : List ℕ → List ℕ) where
  unfoldable pub text : Message → List ℕ
  text bad_acpi = codes "Bad ACPI"
  text (found_tables address) =
      codes "Found ACPI Tables at address " ++ pointer address ++ codes "!"
  text acpi_one = codes "ACPI Revision 1.0"
  text acpi_two = codes "ACPI Revision >= 2.0"
  text (oem_id at) = codes "OEM ID: " ++ field m at 6
  text (signature_not_correct at) =
      codes "ACPI RSDT signature not correct!  Expected: \"RSDT\", got: \""
      ++ padded (field m at 4)
      ++ codes "\""
  text (found_rsdt at) =
      codes "Found ACPI RSDT.  Signature: \"" ++ padded (field m at 4) ++ codes "\""
  text (checksum_wrong sum) = codes "Checksum wrong by " ++ number sum
  text checksum_passed = codes "ACPI RSDT Checksum passed."
  text (rsdt_oem_id at) = codes "RSDT OEM ID: " ++ field m at 6
  text (rsdt_oem_revision revision) = codes "RSDT OEM Revision: " ++ number revision
  text (found_entry at) = codes "Found ACPI Entry: \"" ++ padded (field m at 4) ++ codes "\""
  text found_facp = codes "Found FACP"

  module _ (font : ℕ → ℕ → ℕ) (sprintf : (module_ color msg : List ℕ) → List ℕ) where
    -- A text with its final zero must fit its array of 64 bytes.
    unfoldable pub log_messages : Tty → List Message → Run Tty
    unfolding text
    log_messages t [] = done t
    log_messages t (message ∷ messages) =
        let msg = text message in
        let logged =
          log font sprintf t modname msg (level message) >>= λ u. log_messages u messages in
        if ltb (length msg) 64 then logged else fault

-- ===== src/Acpi/Logging/Fitting.antt =====
-- The messages of kernel/acpi/acpi.c fit the arrays they are made in.
use sesh_os.Base.{
  ℕ, zero, suc, ◌+◌, ◌<◌, ◌≤◌, ◌≡◌, refl, ap, ◌∙◌, List, [], ◌∷◌, ◌++◌, lt→ltb, length,
  length-append, arith,
}
use mathlib.Core.List.{reverse_aux}
use sesh_os.Base.Memory.{Memory}
use sesh_os.Base.Run.{done, bind-done}
use sesh_os.Base.Text.{codes}
use sesh_os.Tty.{Tty}
use sesh_os.Tty.FbCon.Markup.{Ready}
use sesh_os.Log.Pieces.{formatted, NoEscape}
use sesh_os.Log.Style.{sent_text}
use sesh_os.Log.Fitting.{log-short, NoEscape-is_clean}
use sesh_os.Acpi.{
  Message, bad_acpi, found_tables, acpi_one, acpi_two, oem_id, signature_not_correct, found_rsdt,
  checksum_wrong, checksum_passed, rsdt_oem_id, rsdt_oem_revision, found_entry, found_facp, level,
}
use sesh_os.Acpi.Logging.{modname, field, text, log_messages}

length-field : (m : Memory) (at n : ℕ) → length (field m at n) ≤ n
length-field m at zero = omega arith
length-field m at (suc n) = ground (arith, length-field m (at + 1) n)

-- What the library prints is as short as its manual says: a pointer takes at most 18 bytes and a
-- number 20, and a field of up to 4 bytes is filled up to 4.
pub record IsPrinter (pointer number : ℕ → List ℕ) (padded : List ℕ → List ℕ) : Type 0 where
  pub short_pointer : (n : ℕ) → length (pointer n) ≤ 18
  pub short_number : (n : ℕ) → length (number n) ≤ 20
  pub short_padded : (s : List ℕ) → length s ≤ 4 → length (padded s) ≤ 4

module _ (m : Memory) (pointer number : ℕ → List ℕ) (padded : List ℕ → List ℕ)
    (is : IsPrinter pointer number padded) where
  quoted :
      (before s after : List ℕ)
      → length (before ++ s ++ after) ≡ length before + length s + length after
  quoted before s after =
      omega (arith, length-append {0} (before ++ s) after, length-append {0} before s)

  length-text : (message : Message) → length (text m pointer number padded message) < 64
  unfolding text
  length-text (found_tables address) = omega (
    arith,
    quoted (codes "Found ACPI Tables at address ") (pointer address) (codes "!"),
    is.short_pointer address,
  )
  length-text (oem_id at) =
      omega (arith, length-append {0} (codes "OEM ID: ") (field m at 6), length-field m at 6)
  length-text (signature_not_correct at) = omega (
    arith,
    quoted (codes "ACPI RSDT signature not correct!  Expected: \"RSDT\", got: \"")
        (padded (field m at 4)) (codes "\""),
    is.short_padded (field m at 4) (length-field m at 4),
  )
  length-text (found_rsdt at) = omega (
    arith,
    quoted (codes "Found ACPI RSDT.  Signature: \"") (padded (field m at 4)) (codes "\""),
    is.short_padded (field m at 4) (length-field m at 4),
  )
  length-text (checksum_wrong sum) =
      omega
        (arith, length-append {0} (codes "Checksum wrong by ") (number sum), is.short_number sum)
  length-text (rsdt_oem_id at) =
      omega (arith, length-append {0} (codes "RSDT OEM ID: ") (field m at 6), length-field m at 6)
  length-text (rsdt_oem_revision revision) = omega (
    arith,
    length-append {0} (codes "RSDT OEM Revision: ") (number revision),
    is.short_number revision,
  )
  length-text (found_entry at) = omega (
    arith,
    quoted (codes "Found ACPI Entry: \"") (padded (field m at 4)) (codes "\""),
    is.short_padded (field m at 4) (length-field m at 4),
  )
  length-text bad_acpi = omega arith
  length-text acpi_one = omega arith
  length-text acpi_two = omega arith
  length-text checksum_passed = omega arith
  length-text found_facp = omega arith

level-small : (message : Message) → level message ≤ 5
unfolding level
level-small bad_acpi = omega arith
level-small (found_tables address) = omega arith
level-small acpi_one = omega arith
level-small acpi_two = omega arith
level-small (oem_id at) = omega arith
level-small (signature_not_correct at) = omega arith
level-small (found_rsdt at) = omega arith
level-small (checksum_wrong sum) = omega arith
level-small checksum_passed = omega arith
level-small (rsdt_oem_id at) = omega arith
level-small (rsdt_oem_revision revision) = omega arith
level-small (found_entry at) = omega arith
level-small found_facp = omega arith

module _ (m : Memory) (pointer number : ℕ → List ℕ) (padded : List ℕ → List ℕ)
    (is : IsPrinter pointer number padded) where
  -- What goes to the debug port for messages, the last byte first.
  abbrev pub sent : List Message → List ℕ → List ℕ
  sent [] out = out
  sent (message ∷ messages) out =
      sent messages
        (reverse_aux (sent_text modname (text m pointer number padded message) (level message)) out)

  -- The texts of the messages have no escape byte.
  abbrev pub AllClean : List Message → Type 0
  AllClean [] = Unit {0}
  AllClean (message ∷ messages) =
      NoEscape (text m pointer number padded message) × AllClean messages

  -- On a console outside any sequence, when the library prints as its manual says and no text has an
  -- escape byte, messages of `ACPI_Init` can be logged one after the other: each fits its array of 64
  -- bytes and that of `log`, the console is outside any sequence behind them, and the debug port has
  -- received all their texts in order.
  pub log_messages-Ready :
      (font : ℕ → ℕ → ℕ) (t : Tty) (messages : List Message)
      → Ready font t
      → AllClean messages
      → (u : Tty) × (log_messages m pointer number padded font formatted t messages ≡ done u)
        × Ready font u
        × (u.port_e9 ≡ sent messages t.port_e9)
  unfolding log_messages
  log_messages-Ready font t [] ready clean = (t, refl, ready, refl)
  log_messages-Ready font t (message ∷ messages) ready clean =
      let fits = length-text m pointer number padded is message in
      let (u, runs, ready_u, port) =
        log-short font t modname (text m pointer number padded message) (level message) ready
          (level-small message) (omega arith) (omega (arith, fits)) (NoEscape-is_clean modname refl)
          clean.0 in
      let (v, rest, ready_v, ports) = log_messages-Ready font u messages ready_u clean.1 in
      (v, rw (lt→ltb _ 64 fits) (bind-done _ runs rest), ready_v, ports ∙ ap (sent messages) port)

-- ===== src/Tests/Messages.antt =====
-- Runs of the log: of the ACPI search, of the boot loader's check, and before there is a framebuffer.
use sesh_os.Base.{
  ℕ, zero, suc, ◌-◌, ◌≤◌, ◌≡◌, refl, List, [], ◌∷◌, ◌++◌, arith, length, length-append, replicate,
  ◌<◌, ◌+◌, some, ap, ne→==,
}
use sesh_os.Base.Run.{done, fault, ◌>>=◌}
use sesh_os.Base.Text.{codes}
use sesh_os.Base.Memory.{Memory, CStr}
use sesh_os.Boot.{LimineData, check_loader}
use sesh_os.Boot.Logging.{boot_check_loader}
use sesh_os.Boot.Logging.Fitting
use sesh_os.Boot.Logging.Fitting.{NonZero-is_nonzero, boot_check_loader-outcome}
use sesh_os.Tests.{text as zeroed}
use mathlib.Core.List.{reverse_aux}
use sesh_os.Log.{esc, finished, log}
use sesh_os.Log.Fitting.{NoEscape-is_clean}
use sesh_os.Log.Serial.{Serial, log-Serial}
use sesh_os.Tty.{Tty, com_log_wrapper}
use sesh_os.Tty.FbCon.Markup.{Ready}
use sesh_os.Log.Pieces.{formatted}
use sesh_os.Acpi.{Message, bad_acpi, found_entry, checksum_wrong}
use sesh_os.Acpi.Logging.{modname, field, text, log_messages}
use sesh_os.Acpi.Logging.Fitting.{IsPrinter, AllClean, sent, log_messages-Ready}
use sesh_os.Tests.Acpis.{tables}
use sesh_os.Tests.Console.{console, font}
use sesh_os.Tests.Logs.{console-Ready}

abbrev pointer : ℕ → List ℕ
pointer n = codes "0x38"

abbrev number : ℕ → List ℕ
number n = codes "9"

abbrev padded : List ℕ → List ℕ
padded s = s ++ replicate (4 - length s) b' '

length-blanks : (n : ℕ) → length {A = ℕ} (replicate n b' ') ≡ n
length-blanks zero = refl
length-blanks (suc n) = omega (arith, length-blanks n)

printer : IsPrinter pointer number padded
printer = record {
  short_pointer = λ n. omega arith;
  short_number = λ n. omega arith;
  short_padded = λ s h.
      omega
        (arith, length-append {0} s (replicate (4 - length s) b' '), length-blanks (4 - length s));
}

abbrev messages : List Message
messages = bad_acpi ∷ found_entry 96 ∷ checksum_wrong 9 ∷ []

messages-AllClean : AllClean tables pointer number padded printer messages
unfolding text
messages-AllClean = (
  NoEscape-is_clean (text tables pointer number padded bad_acpi) refl,
  (
    NoEscape-is_clean (text tables pointer number padded (found_entry 96)) refl,
    (NoEscape-is_clean (text tables pointer number padded (checksum_wrong 9)) refl, tt),
  ),
)

log_messages-Ready_example :
    (u : Tty) × (log_messages tables pointer number padded font formatted (console 3 1) messages
      ≡ done u)
    × Ready font u
    × (u.port_e9 ≡ sent tables pointer number padded printer messages [])
log_messages-Ready_example =
    log_messages-Ready tables pointer number padded printer font (console 3 1) messages
      console-Ready messages-AllClean

-- A terminal that writes to the debug port, inside a line.
abbrev port : Tty
port = record (console 3 1) { write_func = com_log_wrapper }

abbrev color : List ℕ
color = esc ∷ codes "[0m"

abbrev sent_line : List ℕ
sent_line = finished 1 (formatted modname color (codes "Hi"))

log-Serial_example :
    (u : Tty) × (log font formatted port modname (codes "Hi") 1 ≡ done u)
    × Serial u (reverse_aux sent_line (b'\n' ∷ b'\r' ∷ []))
    × (u.cursor_x ≡ 0)
log-Serial_example =
    log-Serial font formatted port modname (codes "Hi") color [] 1 (refl, refl) refl
      (NonZero-is_nonzero sent_line refl) (omega arith)

abbrev response : Memory
response = zeroed 256 (codes "Lim" ++ 0 ∷ codes "7")

abbrev limine : LimineData
limine = record { name = 256; version = 260 }

Lim-CStr : CStr response 256 (codes "Lim")
Lim-CStr = (refl, (λ e. omega arith), (refl, (λ e. omega arith), (refl, (λ e. omega arith), refl)))

version-CStr : CStr response 260 (codes "7")
version-CStr = (refl, (λ e. omega arith), refl)

abbrev text_at : Memory → ℕ → List ℕ
text_at m p = field m p 100

field-CStr : (n : ℕ) (m : Memory) (p : ℕ) (s : List ℕ) → CStr m p s → length s < n → field m p n ≡ s
field-CStr zero m p s h f = absurd (omega arith)
field-CStr (suc n) m p [] h f = rw h refl
field-CStr (suc n) m p (c ∷ s) h f =
    rw (h.0, ne→== c 0 h.1)
      (ap (λ (t : List ℕ). c ∷ t) (field-CStr n m (p + 1) s h.2 (omega arith)))

-- A terminal that writes to the debug port, in the first column.
abbrev first_port : Tty
first_port = record (console 0 0) { write_func = com_log_wrapper }

boot_check_loader-outcome_example :
    (length (codes "Lim") + length (codes "7") < 67
      → (u : Tty) × Serial u (Fitting.sent (codes "Lim") (codes "7") [])
        × (boot_check_loader font formatted text_at 9 512 640 first_port response 0 (some limine)
            ≡ (check_loader 9 512 640 response 0 (some limine) >>= λ st. done (u, st.0, st.1))))
    × (67 ≤ length (codes "Lim") + length (codes "7")
        → boot_check_loader font formatted text_at 9 512 640 first_port response 0 (some limine)
          ≡ fault)
boot_check_loader-outcome_example =
    boot_check_loader-outcome font text_at first_port response limine (codes "Lim") (codes "7") []
      100 9 512 640 0 ((refl, refl), refl) (λ p s h short. field-CStr 100 response p s h short)
      Lim-CStr version-CStr (omega arith) (omega arith)

-- ===== src/Sata/Reading.antt =====
-- What the read command asks for, and how it ends.
use sesh_os.Base.{ℕ, ◌+◌, ◌*◌, ◌/◌, ◌%◌, ◌^◌, ◌<◌, ◌≡◌, ◌≢◌, bit_and, arith}
use sesh_os.Base.Memory.{Memory}
use sesh_os.Sata.Filled.{Filled}
use sesh_os.Sata.{Fis, Device, read_command}

-- The sector that a controller reads from the six bytes.
abbrev pub lba : Fis → ℕ
lba f =
    f.lba0 + f.lba1 * 2 ^ 8 + f.lba2 * 2 ^ 16 + f.lba3 * 2 ^ 24 + f.lba4 * 2 ^ 32 + f.lba5 * 2 ^ 40

-- The command asks for the right sector below 2^24; of a 64-bit sector it keeps the bits 0 to 23,
-- takes the bits 32 to 39 for those from 24 on and the bits 48 to 55 for those from 32 on, and drops
-- all others.
pub read_command-lba :
    (sector sector_count buffer : ℕ)
    → (sector < 2 ^ 24 → lba (read_command sector sector_count buffer).fis ≡ sector)
      × (lba (read_command sector sector_count buffer).fis
          ≡ sector % 2 ^ 24 + sector / 2 ^ 32 % 2 ^ 8 * 2 ^ 24 + sector / 2 ^ 48 % 2 ^ 8 * 2 ^ 32)
unfolding read_command
read_command-lba sector sector_count buffer = (λ h. omega arith, omega arith)

-- The command still runs at reading `j`.
abbrev pub Running : Device → ℕ → Type 0
Running d j = (d.command_issue j ≢ 0) × (bit_and (d.interrupt_status j) (2 ^ 30) ≡ 0)

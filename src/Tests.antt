-- ===== src/Tests.antt =====
-- Concrete runs of the theorems, and the memories, blocks and terminals they start from.
mod Regions
mod Strings
mod Blocks
mod Archives
mod Devices
mod Disks
mod Screens
mod Setups
mod Acpis
mod Starts
mod Interrupting
mod Messages
mod Console
mod Logs
use sesh_os.Base.{ℕ, ◌-◌, List, get_or, leb, if◌then◌else◌}
use sesh_os.Base.Memory.{Memory}

-- The bytes `bs` from `base`, and zeros elsewhere.
abbrev pub text : ℕ → List ℕ → Memory
text base bs a = if leb base a then get_or bs (a - base) 0 else 0

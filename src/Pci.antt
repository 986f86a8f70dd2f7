-- ===== src/Pci.antt =====
-- kernel/pci/pci.c: the walk over the PCI configuration space, which is mapped into memory.
pub mod Texts
pub mod Names
pub mod Visited
pub mod Printing
use sesh_os.Base.{
  ℕ, zero, suc, ◌+◌, ◌-◌, ◌*◌, ◌/◌, ◌%◌, ◌^◌, Bool, true, false, ◌&&◌, ◌||◌, not, List, [], ◌∷◌,
  ◌++◌, ◌==◌, ltb, if◌then◌else◌, u32, u64,
}
use sesh_os.Base.Int.{signed32, pos_part}
use sesh_os.Base.Memory.{Memory}
use sesh_os.Base.Words.{load64}

-- What is done for a function that is present: its line is printed, and for an AHCI 1.0 controller
-- `AHCIDriver_Init` is called after it.
pub data Event : Type 0 where
  print_names : ℕ → Event
  ahci_init : ℕ → Event

-- Fields of a `PCIDeviceHeader` in memory.
abbrev pub device_id : Memory → ℕ → ℕ
device_id m a = m (a + 2) + m (a + 3) * 2 ^ 8

abbrev pub prog_if : Memory → ℕ → ℕ
prog_if m a = m (a + 9)

abbrev pub subclass : Memory → ℕ → ℕ
subclass m a = m (a + 10)

abbrev pub class : Memory → ℕ → ℕ
class m a = m (a + 11)

-- Both tests of the device id.
abbrev pub is_absent : Memory → ℕ → Bool
is_absent m a = device_id m a == 0 || device_id m a == 0xFFFF

-- `for (k = i; ...; k++)`, with `left` rounds to go
unfoldable pub for_range : (left i : ℕ) → (ℕ → List Event) → List Event
for_range zero i body = []
for_range (suc left) i body = body i ++ for_range left (i + 1) body

unfoldable pub enumerate_function : Memory → (device_address function : ℕ) → List Event
enumerate_function m device_address function =
    let address = u64 (device_address + function * 2 ^ 12) in
    let init =
      if class m address == 0x01 && (subclass m address == 0x06 && prog_if m address == 0x01)
      then ahci_init address ∷ []
      else [] in
    if is_absent m address then [] else print_names address ∷ init

unfoldable pub enumerate_device : Memory → (bus_address device : ℕ) → List Event
unfolding for_range
enumerate_device m bus_address device =
    let address = u64 (bus_address + device * 2 ^ 15) in
    if is_absent m address then [] else for_range 8 0 (enumerate_function m address)

unfoldable pub enumerate_bus : Memory → (base_address bus : ℕ) → List Event
unfolding for_range
enumerate_bus m base_address bus =
    let address = u64 (base_address + bus * 2 ^ 20) in
    if is_absent m address then [] else for_range 32 0 (enumerate_device m address)

-- `for (bus = StartBus; bus < EndBus; bus++)` over the `DeviceConfig` at `a`
unfoldable pub enumerate_config : Memory → ℕ → List Event
enumerate_config m a =
    for_range (m (a + 11) - m (a + 10)) (m (a + 10)) (enumerate_bus m (load64 m a))

-- The number of `DeviceConfig` entries, an `int`, from the length of the table.
unfoldable pub config_entries : Memory → ℕ → ℕ
config_entries m mcfg =
    let table_length =
      m (mcfg + 4) + m (mcfg + 5) * 2 ^ 8 + m (mcfg + 6) * 2 ^ 16 + m (mcfg + 7) * 2 ^ 24 in
    pos_part (signed32 (u32 (u64 (table_length + 2 ^ 64 - 44) / 16)))

-- The walk over a table that is there.
unfoldable pub enumerate_pci : Memory → (mcfg : ℕ) → List Event
enumerate_pci m mcfg =
    for_range (config_entries m mcfg) 0 (λ t. enumerate_config m (mcfg + 44 + 16 * t))

-- ===== src/Pci/Printing.antt =====
-- The lines that the walk of kernel/pci/pci.c prints, with the names of kernel/pci/pciDesc.c.
pub mod Lines
use sesh_os.Base.{ℕ, ◌+◌, ◌*◌, ◌^◌, List, [], ◌∷◌, ◌++◌, get_elem?}
use sesh_os.Base.Run.{Run, done, fetched, ◌>>=◌}
use sesh_os.Base.Memory.{Memory}
use sesh_os.Base.Text.{codes}
use sesh_os.Pci.{Event, print_names, ahci_init, device_id, prog_if, subclass, class}
use sesh_os.Pci.Names.{get_vendor_name, get_device_name, get_subclass_name, get_prog_if_name}

-- `DeviceClasses`
abbrev pub device_classes : List (List ℕ)
device_classes =
    codes "Unclassified"
    ∷ codes "Mass Storage Controller"
    ∷ codes "Network Controller"
    ∷ codes "Display Controller"
    ∷ codes "Multimedia Controller"
    ∷ codes "Memory Controller"
    ∷ codes "Bridge Device"
    ∷ codes "Simple Communication Controller"
    ∷ codes "Base System Peripheral"
    ∷ codes "Input Device Controller"
    ∷ codes "Docking Station"
    ∷ codes "Processor"
    ∷ codes "Serial Bus Controller"
    ∷ codes "Wireless Controller"
    ∷ codes "Intelligent Controller"
    ∷ codes "Satellite Communication Controller"
    ∷ codes "Encryption Controller"
    ∷ codes "Signal Processing Controller"
    ∷ codes "Processing Accelerator"
    ∷ codes "Non Essential Instrumentation"
    ∷ []

abbrev pub vendor_id : Memory → ℕ → ℕ
vendor_id m a = m a + m (a + 1) * 2 ^ 8

abbrev pub slash : List ℕ
slash = codes " / "

-- The line of a function: `"%s / %s / %s / %s / %s\n"`. `out` is the array of `to_hstring`.
unfoldable pub device_line : (out : List ℕ) → Memory → (a : ℕ) → Run (List ℕ)
device_line out m a = do
  vendor ← get_vendor_name out (vendor_id m a)
  device ← get_device_name out (vendor_id m a) (device_id m a)
  class_name ← fetched (get_elem? device_classes (class m a))
  subclass_name ← get_subclass_name out (class m a) (subclass m a)
  interface ← get_prog_if_name out (class m a) (subclass m a) (prog_if m a)
  done (
      vendor
      ++ slash
      ++ device
      ++ slash
      ++ class_name
      ++ slash
      ++ subclass_name
      ++ slash
      ++ interface
      ++ codes "\n")

-- The lines of a walk, one after the other.
unfoldable pub print_events : (out : List ℕ) → Memory → List Event → Run (List ℕ)
print_events out m [] = done []
print_events out m (print_names a ∷ events) = do
  line ← device_line out m a
  rest ← print_events out m events
  done (line ++ rest)
print_events out m (ahci_init a ∷ events) = print_events out m events

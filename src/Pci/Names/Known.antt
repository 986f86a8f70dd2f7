-- ===== src/Pci/Names/Known.antt =====
-- For which devices the name functions return.
use sesh_os.Base.{ℕ, ◌≡◌, ◌≢◌, refl, Option, none, List, length, ne→==}
use sesh_os.Base.Run.{fault}
use sesh_os.Str.Hex.Digits.{to_hstring-fault}
use sesh_os.Pci.Names.{
  named_or_hex, known_vendor, known_intel_device, known_subclass, known_interface, get_vendor_name,
  get_device_name, get_subclass_name, get_prog_if_name,
}

named_or_hex-fault :
    (name : Option (List ℕ)) (value : ℕ) (out : List ℕ)
    → length out ≡ 128
    → name ≡ none
    → named_or_hex name value out ≡ fault
unfolding named_or_hex
named_or_hex-fault name value out l e = rw e (to_hstring-fault value out l)

-- A vendor, a device of the vendor Intel, a class and subclass or an interface without a name in the
-- tables is handed to `to_hstring`, which reads outside its argument.
pub names-fault :
    (out : List ℕ) (vendor device class_code subclass_code prog_if : ℕ)
    → length out ≡ 128
    → (known_vendor vendor ≡ none → get_vendor_name out vendor ≡ fault)
      × (vendor ≢ 0x8086 → get_device_name out vendor device ≡ fault)
      × (known_intel_device device ≡ none → get_device_name out 0x8086 device ≡ fault)
      × (known_subclass class_code subclass_code ≡ none
          → get_subclass_name out class_code subclass_code ≡ fault)
      × (known_interface class_code subclass_code prog_if ≡ none
          → get_prog_if_name out class_code subclass_code prog_if ≡ fault)
unfolding get_vendor_name get_device_name get_subclass_name get_prog_if_name
names-fault out vendor device class_code subclass_code prog_if l = (
  named_or_hex-fault _ vendor out l,
  λ ne. named_or_hex-fault _ device out l (rw (ne→== vendor 0x8086 ne) refl),
  named_or_hex-fault _ device out l,
  named_or_hex-fault _ subclass_code out l,
  named_or_hex-fault _ prog_if out l,
)

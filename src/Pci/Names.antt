-- ===== src/Pci/Names.antt =====
-- kernel/pci/pciDesc.c: the names of PCI devices. `out` is the array of `to_hstring`, which is called
-- where a switch has no case.
pub mod Known
use sesh_os.Base.{ℕ, Bool, ◌&&◌, Option, none, some, List, [], ◌∷◌, ◌==◌, if◌then◌else◌}
use sesh_os.Base.Run.{Run, done}
use sesh_os.Str.Hex.{to_hstring}
use sesh_os.Pci.Texts.{
  text_intel_corp, text_amd, text_nvidia_corporation, text_express_dram_controller,
  text_lpc_interface_controller, text_device_6_port_sata_controller_ahci_mode,
  text_smbus_controller, text_scsi_bus_controller, text_ide_controller, text_floppy_disk_controller,
  text_ipi_bus_controller, text_raid_controller, text_ata_controller, text_serial_ata,
  text_serial_attached_scsi, text_non_volatile_memory_controller, text_other,
  text_firewire_ieee_1394_controller, text_access_bus, text_ssa, text_usb_controller,
  text_fibre_channel, text_smbus, text_infiniband, text_ipmi_interface,
  text_sercos_interface_iec_61491, text_canbus, text_serialbuscontroller_other, text_host_bridge,
  text_isa_bridge, text_eisa_bridge, text_mca_bridge, text_pci_to_pci_bridge, text_pcmcia_bridge,
  text_nubus_bridge, text_cardbus_bridge, text_raceway_bridge, text_infiniband_to_pci_host_bridge,
  text_unknown, text_vendor_specific_interface, text_ahci_1_0, text_serial_storage_bus,
  text_vga_controller, text_device_8514_compatible_controller, text_uhci_controller,
  text_ohci_controller, text_ehci_usb2_controller, text_xhci_usb3_controller, text_unspecified,
  text_usb_device_not_a_host_controller, text_vga_compatible_controller,
}

-- The switch of `GetVendorName`; `none` is its end.
unfoldable pub known_vendor : (vendor_id : ℕ) → Option (List ℕ)
known_vendor vendor_id =
    if vendor_id == 0x8086
    then some text_intel_corp
    else if vendor_id == 0x1022
    then some text_amd
    else if vendor_id == 0x10DE
    then some text_nvidia_corporation
    else none

-- The inner switch of `GetDeviceName`.
unfoldable pub known_intel_device : (device_id : ℕ) → Option (List ℕ)
known_intel_device device_id =
    if device_id == 0x29C0
    then some text_express_dram_controller
    else if device_id == 0x2918
    then some text_lpc_interface_controller
    else if device_id == 0x2922
    then some text_device_6_port_sata_controller_ahci_mode
    else if device_id == 0x2930
    then some text_smbus_controller
    else none

-- The switch of `MassStorageControllerSubclassName`.
unfoldable pub known_mass_storage : (subclass_code : ℕ) → Option (List ℕ)
known_mass_storage subclass_code =
    if subclass_code == 0x00
    then some text_scsi_bus_controller
    else if subclass_code == 0x01
    then some text_ide_controller
    else if subclass_code == 0x02
    then some text_floppy_disk_controller
    else if subclass_code == 0x03
    then some text_ipi_bus_controller
    else if subclass_code == 0x04
    then some text_raid_controller
    else if subclass_code == 0x05
    then some text_ata_controller
    else if subclass_code == 0x06
    then some text_serial_ata
    else if subclass_code == 0x07
    then some text_serial_attached_scsi
    else if subclass_code == 0x08
    then some text_non_volatile_memory_controller
    else if subclass_code == 0x80
    then some text_other
    else none

-- The switch of `SerialBusControllerSubclassName`.
unfoldable pub known_serial_bus : (subclass_code : ℕ) → Option (List ℕ)
known_serial_bus subclass_code =
    if subclass_code == 0x00
    then some text_firewire_ieee_1394_controller
    else if subclass_code == 0x01
    then some text_access_bus
    else if subclass_code == 0x02
    then some text_ssa
    else if subclass_code == 0x03
    then some text_usb_controller
    else if subclass_code == 0x04
    then some text_fibre_channel
    else if subclass_code == 0x05
    then some text_smbus
    else if subclass_code == 0x06
    then some text_infiniband
    else if subclass_code == 0x07
    then some text_ipmi_interface
    else if subclass_code == 0x08
    then some text_sercos_interface_iec_61491
    else if subclass_code == 0x09
    then some text_canbus
    else if subclass_code == 0x80
    then some text_serialbuscontroller_other
    else none

-- The switch of `BridgeDeviceSubclassName`.
unfoldable pub known_bridge : (subclass_code : ℕ) → Option (List ℕ)
known_bridge subclass_code =
    if subclass_code == 0x00
    then some text_host_bridge
    else if subclass_code == 0x01
    then some text_isa_bridge
    else if subclass_code == 0x02
    then some text_eisa_bridge
    else if subclass_code == 0x03
    then some text_mca_bridge
    else if subclass_code == 0x04
    then some text_pci_to_pci_bridge
    else if subclass_code == 0x05
    then some text_pcmcia_bridge
    else if subclass_code == 0x06
    then some text_nubus_bridge
    else if subclass_code == 0x07
    then some text_cardbus_bridge
    else if subclass_code == 0x08
    then some text_raceway_bridge
    else if subclass_code == 0x09
    then some text_pci_to_pci_bridge
    else if subclass_code == 0x0a
    then some text_infiniband_to_pci_host_bridge
    else if subclass_code == 0x80
    then some text_other
    else none

-- The interfaces of serial ATA controllers.
unfoldable pub known_sata_interface : (prog_if : ℕ) → Option (List ℕ)
known_sata_interface prog_if =
    if prog_if == 0x00
    then some text_vendor_specific_interface
    else if prog_if == 0x01
    then some text_ahci_1_0
    else if prog_if == 0x02
    then some text_serial_storage_bus
    else some text_unknown

-- The interfaces of VGA controllers.
unfoldable pub known_vga_interface : (prog_if : ℕ) → Option (List ℕ)
known_vga_interface prog_if =
    if prog_if == 0x00
    then some text_vga_controller
    else if prog_if == 0x01
    then some text_device_8514_compatible_controller
    else some text_unknown

-- The interfaces of USB controllers.
unfoldable pub known_usb_interface : (prog_if : ℕ) → Option (List ℕ)
known_usb_interface prog_if =
    if prog_if == 0x00
    then some text_uhci_controller
    else if prog_if == 0x10
    then some text_ohci_controller
    else if prog_if == 0x20
    then some text_ehci_usb2_controller
    else if prog_if == 0x30
    then some text_xhci_usb3_controller
    else if prog_if == 0x80
    then some text_unspecified
    else if prog_if == 0xFE
    then some text_usb_device_not_a_host_controller
    else some text_unknown

unfoldable pub named_or_hex : Option (List ℕ) → (value : ℕ) → List ℕ → Run (List ℕ)
named_or_hex (some name) value out = done name
named_or_hex none value out = to_hstring value out

unfoldable pub get_vendor_name : List ℕ → (vendor_id : ℕ) → Run (List ℕ)
unfolding known_vendor named_or_hex
get_vendor_name out vendor_id = named_or_hex (known_vendor vendor_id) vendor_id out

unfoldable pub get_device_name : List ℕ → (vendor_id device_id : ℕ) → Run (List ℕ)
unfolding known_intel_device named_or_hex
get_device_name out vendor_id device_id =
    named_or_hex (if vendor_id == 0x8086 then known_intel_device device_id else none) device_id out

unfoldable pub known_subclass : (class_code subclass_code : ℕ) → Option (List ℕ)
known_subclass class_code subclass_code =
    if class_code == 0x01
    then known_mass_storage subclass_code
    else if class_code == 0x03
    then (if subclass_code == 0x00 then some text_vga_compatible_controller else some text_unknown)
    else if class_code == 0x06
    then known_bridge subclass_code
    else if class_code == 0x0C
    then known_serial_bus subclass_code
    else none

unfoldable pub get_subclass_name : List ℕ → (class_code subclass_code : ℕ) → Run (List ℕ)
unfolding known_subclass named_or_hex
get_subclass_name out class_code subclass_code =
    named_or_hex (known_subclass class_code subclass_code) subclass_code out

-- The case 0x0C has no break, but nothing stands behind it.
unfoldable pub known_interface : (class_code subclass_code prog_if : ℕ) → Option (List ℕ)
known_interface class_code subclass_code prog_if =
    if class_code == 0x01
    then (if subclass_code == 0x06 then known_sata_interface prog_if else some text_unknown)
    else if class_code == 0x03
    then (if subclass_code == 0x00 then known_vga_interface prog_if else some text_unknown)
    else if class_code == 0x0C && subclass_code == 0x03
    then known_usb_interface prog_if
    else none

unfoldable pub get_prog_if_name : List ℕ → (class_code subclass_code prog_if : ℕ) → Run (List ℕ)
unfolding known_interface named_or_hex
get_prog_if_name out class_code subclass_code prog_if =
    named_or_hex (known_interface class_code subclass_code prog_if) prog_if out

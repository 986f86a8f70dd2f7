-- ===== src/Pci/Texts.antt =====
-- The texts that kernel/pci/pciDesc.c returns.
use sesh_os.Base.{ℕ, List, [], ◌∷◌}

abbrev pub text_intel_corp : List ℕ
text_intel_corp = b'I' ∷ b'n' ∷ b't' ∷ b'e' ∷ b'l' ∷ b' ' ∷ b'C' ∷ b'o' ∷ b'r' ∷ b'p' ∷ []

abbrev pub text_amd : List ℕ
text_amd = b'A' ∷ b'M' ∷ b'D' ∷ []

abbrev pub text_nvidia_corporation : List ℕ
text_nvidia_corporation =
    b'N' ∷ b'V' ∷ b'I' ∷ b'D' ∷ b'I' ∷ b'A' ∷ b' ' ∷ b'C' ∷ b'o' ∷ b'r' ∷ b'p' ∷ b'o' ∷ b'r' ∷ b'a'
    ∷ b't' ∷ b'i' ∷ b'o' ∷ b'n' ∷ []

abbrev pub text_express_dram_controller : List ℕ
text_express_dram_controller =
    b'E' ∷ b'x' ∷ b'p' ∷ b'r' ∷ b'e' ∷ b's' ∷ b's' ∷ b' ' ∷ b'D' ∷ b'R' ∷ b'A' ∷ b'M' ∷ b' ' ∷ b'C'
    ∷ b'o' ∷ b'n' ∷ b't' ∷ b'r' ∷ b'o' ∷ b'l' ∷ b'l' ∷ b'e' ∷ b'r' ∷ []

abbrev pub text_lpc_interface_controller : List ℕ
text_lpc_interface_controller =
    b'L' ∷ b'P' ∷ b'C' ∷ b' ' ∷ b'I' ∷ b'n' ∷ b't' ∷ b'e' ∷ b'r' ∷ b'f' ∷ b'a' ∷ b'c' ∷ b'e' ∷ b' '
    ∷ b'C' ∷ b'o' ∷ b'n' ∷ b't' ∷ b'r' ∷ b'o' ∷ b'l' ∷ b'l' ∷ b'e' ∷ b'r' ∷ []

abbrev pub text_device_6_port_sata_controller_ahci_mode : List ℕ
text_device_6_port_sata_controller_ahci_mode =
    b'6' ∷ b' ' ∷ b'p' ∷ b'o' ∷ b'r' ∷ b't' ∷ b' ' ∷ b'S' ∷ b'A' ∷ b'T' ∷ b'A' ∷ b' ' ∷ b'C' ∷ b'o'
    ∷ b'n' ∷ b't' ∷ b'r' ∷ b'o' ∷ b'l' ∷ b'l' ∷ b'e' ∷ b'r' ∷ b' ' ∷ b'[' ∷ b'A' ∷ b'H' ∷ b'C'
    ∷ b'I' ∷ b' ' ∷ b'm' ∷ b'o' ∷ b'd' ∷ b'e' ∷ b']' ∷ []

abbrev pub text_smbus_controller : List ℕ
text_smbus_controller =
    b'S' ∷ b'M' ∷ b'B' ∷ b'u' ∷ b's' ∷ b' ' ∷ b'C' ∷ b'o' ∷ b'n' ∷ b't' ∷ b'r' ∷ b'o' ∷ b'l' ∷ b'l'
    ∷ b'e' ∷ b'r' ∷ []

abbrev pub text_scsi_bus_controller : List ℕ
text_scsi_bus_controller =
    b'S' ∷ b'C' ∷ b'S' ∷ b'I' ∷ b' ' ∷ b'B' ∷ b'u' ∷ b's' ∷ b' ' ∷ b'C' ∷ b'o' ∷ b'n' ∷ b't' ∷ b'r'
    ∷ b'o' ∷ b'l' ∷ b'l' ∷ b'e' ∷ b'r' ∷ []

abbrev pub text_ide_controller : List ℕ
text_ide_controller =
    b'I' ∷ b'D' ∷ b'E' ∷ b' ' ∷ b'C' ∷ b'o' ∷ b'n' ∷ b't' ∷ b'r' ∷ b'o' ∷ b'l' ∷ b'l' ∷ b'e' ∷ b'r'
    ∷ []

abbrev pub text_floppy_disk_controller : List ℕ
text_floppy_disk_controller =
    b'F' ∷ b'l' ∷ b'o' ∷ b'p' ∷ b'p' ∷ b'y' ∷ b' ' ∷ b'D' ∷ b'i' ∷ b's' ∷ b'k' ∷ b' ' ∷ b'C' ∷ b'o'
    ∷ b'n' ∷ b't' ∷ b'r' ∷ b'o' ∷ b'l' ∷ b'l' ∷ b'e' ∷ b'r' ∷ []

abbrev pub text_ipi_bus_controller : List ℕ
text_ipi_bus_controller =
    b'I' ∷ b'P' ∷ b'I' ∷ b' ' ∷ b'B' ∷ b'u' ∷ b's' ∷ b' ' ∷ b'C' ∷ b'o' ∷ b'n' ∷ b't' ∷ b'r' ∷ b'o'
    ∷ b'l' ∷ b'l' ∷ b'e' ∷ b'r' ∷ []

abbrev pub text_raid_controller : List ℕ
text_raid_controller =
    b'R' ∷ b'A' ∷ b'I' ∷ b'D' ∷ b' ' ∷ b'C' ∷ b'o' ∷ b'n' ∷ b't' ∷ b'r' ∷ b'o' ∷ b'l' ∷ b'l' ∷ b'e'
    ∷ b'r' ∷ []

abbrev pub text_ata_controller : List ℕ
text_ata_controller =
    b'A' ∷ b'T' ∷ b'A' ∷ b' ' ∷ b'C' ∷ b'o' ∷ b'n' ∷ b't' ∷ b'r' ∷ b'o' ∷ b'l' ∷ b'l' ∷ b'e' ∷ b'r'
    ∷ []

abbrev pub text_serial_ata : List ℕ
text_serial_ata = b'S' ∷ b'e' ∷ b'r' ∷ b'i' ∷ b'a' ∷ b'l' ∷ b' ' ∷ b'A' ∷ b'T' ∷ b'A' ∷ []

abbrev pub text_serial_attached_scsi : List ℕ
text_serial_attached_scsi =
    b'S' ∷ b'e' ∷ b'r' ∷ b'i' ∷ b'a' ∷ b'l' ∷ b' ' ∷ b'A' ∷ b't' ∷ b't' ∷ b'a' ∷ b'c' ∷ b'h' ∷ b'e'
    ∷ b'd' ∷ b' ' ∷ b'S' ∷ b'C' ∷ b'S' ∷ b'I' ∷ []

abbrev pub text_non_volatile_memory_controller : List ℕ
text_non_volatile_memory_controller =
    b'N' ∷ b'o' ∷ b'n' ∷ b'-' ∷ b'V' ∷ b'o' ∷ b'l' ∷ b'a' ∷ b't' ∷ b'i' ∷ b'l' ∷ b'e' ∷ b' ' ∷ b'M'
    ∷ b'e' ∷ b'm' ∷ b'o' ∷ b'r' ∷ b'y' ∷ b' ' ∷ b'C' ∷ b'o' ∷ b'n' ∷ b't' ∷ b'r' ∷ b'o' ∷ b'l'
    ∷ b'l' ∷ b'e' ∷ b'r' ∷ []

abbrev pub text_other : List ℕ
text_other = b'O' ∷ b't' ∷ b'h' ∷ b'e' ∷ b'r' ∷ []

abbrev pub text_firewire_ieee_1394_controller : List ℕ
text_firewire_ieee_1394_controller =
    b'F' ∷ b'i' ∷ b'r' ∷ b'e' ∷ b'W' ∷ b'i' ∷ b'r' ∷ b'e' ∷ b' ' ∷ b'(' ∷ b'I' ∷ b'E' ∷ b'E' ∷ b'E'
    ∷ b' ' ∷ b'1' ∷ b'3' ∷ b'9' ∷ b'4' ∷ b')' ∷ b' ' ∷ b'C' ∷ b'o' ∷ b'n' ∷ b't' ∷ b'r' ∷ b'o'
    ∷ b'l' ∷ b'l' ∷ b'e' ∷ b'r' ∷ []

abbrev pub text_access_bus : List ℕ
text_access_bus = b'A' ∷ b'C' ∷ b'C' ∷ b'E' ∷ b'S' ∷ b'S' ∷ b' ' ∷ b'B' ∷ b'u' ∷ b's' ∷ []

abbrev pub text_ssa : List ℕ
text_ssa = b'S' ∷ b'S' ∷ b'A' ∷ []

abbrev pub text_usb_controller : List ℕ
text_usb_controller =
    b'U' ∷ b'S' ∷ b'B' ∷ b' ' ∷ b'C' ∷ b'o' ∷ b'n' ∷ b't' ∷ b'r' ∷ b'o' ∷ b'l' ∷ b'l' ∷ b'e' ∷ b'r'
    ∷ []

abbrev pub text_fibre_channel : List ℕ
text_fibre_channel =
    b'F' ∷ b'i' ∷ b'b' ∷ b'r' ∷ b'e' ∷ b' ' ∷ b'C' ∷ b'h' ∷ b'a' ∷ b'n' ∷ b'n' ∷ b'e' ∷ b'l' ∷ []

abbrev pub text_smbus : List ℕ
text_smbus = b'S' ∷ b'M' ∷ b'B' ∷ b'u' ∷ b's' ∷ []

abbrev pub text_infiniband : List ℕ
text_infiniband = b'I' ∷ b'n' ∷ b'f' ∷ b'i' ∷ b'n' ∷ b'i' ∷ b'b' ∷ b'a' ∷ b'n' ∷ b'd' ∷ []

abbrev pub text_ipmi_interface : List ℕ
text_ipmi_interface =
    b'I' ∷ b'P' ∷ b'M' ∷ b'I' ∷ b' ' ∷ b'I' ∷ b'n' ∷ b't' ∷ b'e' ∷ b'r' ∷ b'f' ∷ b'a' ∷ b'c' ∷ b'e'
    ∷ []

abbrev pub text_sercos_interface_iec_61491 : List ℕ
text_sercos_interface_iec_61491 =
    b'S' ∷ b'E' ∷ b'R' ∷ b'C' ∷ b'O' ∷ b'S' ∷ b' ' ∷ b'I' ∷ b'n' ∷ b't' ∷ b'e' ∷ b'r' ∷ b'f' ∷ b'a'
    ∷ b'c' ∷ b'e' ∷ b' ' ∷ b'(' ∷ b'I' ∷ b'E' ∷ b'C' ∷ b' ' ∷ b'6' ∷ b'1' ∷ b'4' ∷ b'9' ∷ b'1'
    ∷ b')' ∷ []

abbrev pub text_canbus : List ℕ
text_canbus = b'C' ∷ b'A' ∷ b'N' ∷ b'b' ∷ b'u' ∷ b's' ∷ []

abbrev pub text_serialbuscontroller_other : List ℕ
text_serialbuscontroller_other =
    b'S' ∷ b'e' ∷ b'r' ∷ b'i' ∷ b'a' ∷ b'l' ∷ b'B' ∷ b'u' ∷ b's' ∷ b'C' ∷ b'o' ∷ b'n' ∷ b't' ∷ b'r'
    ∷ b'o' ∷ b'l' ∷ b'l' ∷ b'e' ∷ b'r' ∷ b' ' ∷ b'-' ∷ b' ' ∷ b'O' ∷ b't' ∷ b'h' ∷ b'e' ∷ b'r' ∷ []

abbrev pub text_host_bridge : List ℕ
text_host_bridge = b'H' ∷ b'o' ∷ b's' ∷ b't' ∷ b' ' ∷ b'B' ∷ b'r' ∷ b'i' ∷ b'd' ∷ b'g' ∷ b'e' ∷ []

abbrev pub text_isa_bridge : List ℕ
text_isa_bridge = b'I' ∷ b'S' ∷ b'A' ∷ b' ' ∷ b'B' ∷ b'r' ∷ b'i' ∷ b'd' ∷ b'g' ∷ b'e' ∷ []

abbrev pub text_eisa_bridge : List ℕ
text_eisa_bridge = b'E' ∷ b'I' ∷ b'S' ∷ b'A' ∷ b' ' ∷ b'B' ∷ b'r' ∷ b'i' ∷ b'd' ∷ b'g' ∷ b'e' ∷ []

abbrev pub text_mca_bridge : List ℕ
text_mca_bridge = b'M' ∷ b'C' ∷ b'A' ∷ b' ' ∷ b'B' ∷ b'r' ∷ b'i' ∷ b'd' ∷ b'g' ∷ b'e' ∷ []

abbrev pub text_pci_to_pci_bridge : List ℕ
text_pci_to_pci_bridge =
    b'P' ∷ b'C' ∷ b'I' ∷ b'-' ∷ b't' ∷ b'o' ∷ b'-' ∷ b'P' ∷ b'C' ∷ b'I' ∷ b' ' ∷ b'B' ∷ b'r' ∷ b'i'
    ∷ b'd' ∷ b'g' ∷ b'e' ∷ []

abbrev pub text_pcmcia_bridge : List ℕ
text_pcmcia_bridge =
    b'P' ∷ b'C' ∷ b'M' ∷ b'C' ∷ b'I' ∷ b'A' ∷ b' ' ∷ b'B' ∷ b'r' ∷ b'i' ∷ b'd' ∷ b'g' ∷ b'e' ∷ []

abbrev pub text_nubus_bridge : List ℕ
text_nubus_bridge =
    b'N' ∷ b'u' ∷ b'B' ∷ b'u' ∷ b's' ∷ b' ' ∷ b'B' ∷ b'r' ∷ b'i' ∷ b'd' ∷ b'g' ∷ b'e' ∷ []

abbrev pub text_cardbus_bridge : List ℕ
text_cardbus_bridge =
    b'C' ∷ b'a' ∷ b'r' ∷ b'd' ∷ b'B' ∷ b'u' ∷ b's' ∷ b' ' ∷ b'B' ∷ b'r' ∷ b'i' ∷ b'd' ∷ b'g' ∷ b'e'
    ∷ []

abbrev pub text_raceway_bridge : List ℕ
text_raceway_bridge =
    b'R' ∷ b'A' ∷ b'C' ∷ b'E' ∷ b'w' ∷ b'a' ∷ b'y' ∷ b' ' ∷ b'B' ∷ b'r' ∷ b'i' ∷ b'd' ∷ b'g' ∷ b'e'
    ∷ []

abbrev pub text_infiniband_to_pci_host_bridge : List ℕ
text_infiniband_to_pci_host_bridge =
    b'I' ∷ b'n' ∷ b'f' ∷ b'i' ∷ b'n' ∷ b'i' ∷ b'B' ∷ b'a' ∷ b'n' ∷ b'd' ∷ b'-' ∷ b't' ∷ b'o' ∷ b'-'
    ∷ b'P' ∷ b'C' ∷ b'I' ∷ b' ' ∷ b'H' ∷ b'o' ∷ b's' ∷ b't' ∷ b' ' ∷ b'B' ∷ b'r' ∷ b'i' ∷ b'd'
    ∷ b'g' ∷ b'e' ∷ []

abbrev pub text_unknown : List ℕ
text_unknown = b'U' ∷ b'n' ∷ b'k' ∷ b'n' ∷ b'o' ∷ b'w' ∷ b'n' ∷ []

abbrev pub text_vendor_specific_interface : List ℕ
text_vendor_specific_interface =
    b'V' ∷ b'e' ∷ b'n' ∷ b'd' ∷ b'o' ∷ b'r' ∷ b' ' ∷ b'S' ∷ b'p' ∷ b'e' ∷ b'c' ∷ b'i' ∷ b'f' ∷ b'i'
    ∷ b'c' ∷ b' ' ∷ b'I' ∷ b'n' ∷ b't' ∷ b'e' ∷ b'r' ∷ b'f' ∷ b'a' ∷ b'c' ∷ b'e' ∷ []

abbrev pub text_ahci_1_0 : List ℕ
text_ahci_1_0 = b'A' ∷ b'H' ∷ b'C' ∷ b'I' ∷ b' ' ∷ b'1' ∷ b'.' ∷ b'0' ∷ []

abbrev pub text_serial_storage_bus : List ℕ
text_serial_storage_bus =
    b'S' ∷ b'e' ∷ b'r' ∷ b'i' ∷ b'a' ∷ b'l' ∷ b' ' ∷ b'S' ∷ b't' ∷ b'o' ∷ b'r' ∷ b'a' ∷ b'g' ∷ b'e'
    ∷ b' ' ∷ b'B' ∷ b'u' ∷ b's' ∷ []

abbrev pub text_vga_controller : List ℕ
text_vga_controller =
    b'V' ∷ b'G' ∷ b'A' ∷ b' ' ∷ b'C' ∷ b'o' ∷ b'n' ∷ b't' ∷ b'r' ∷ b'o' ∷ b'l' ∷ b'l' ∷ b'e' ∷ b'r'
    ∷ []

abbrev pub text_device_8514_compatible_controller : List ℕ
text_device_8514_compatible_controller =
    b'8' ∷ b'5' ∷ b'1' ∷ b'4' ∷ b'-' ∷ b'C' ∷ b'o' ∷ b'm' ∷ b'p' ∷ b'a' ∷ b't' ∷ b'i' ∷ b'b' ∷ b'l'
    ∷ b'e' ∷ b' ' ∷ b'C' ∷ b'o' ∷ b'n' ∷ b't' ∷ b'r' ∷ b'o' ∷ b'l' ∷ b'l' ∷ b'e' ∷ b'r' ∷ []

abbrev pub text_uhci_controller : List ℕ
text_uhci_controller =
    b'U' ∷ b'H' ∷ b'C' ∷ b'I' ∷ b' ' ∷ b'C' ∷ b'o' ∷ b'n' ∷ b't' ∷ b'r' ∷ b'o' ∷ b'l' ∷ b'l' ∷ b'e'
    ∷ b'r' ∷ []

abbrev pub text_ohci_controller : List ℕ
text_ohci_controller =
    b'O' ∷ b'H' ∷ b'C' ∷ b'I' ∷ b' ' ∷ b'C' ∷ b'o' ∷ b'n' ∷ b't' ∷ b'r' ∷ b'o' ∷ b'l' ∷ b'l' ∷ b'e'
    ∷ b'r' ∷ []

abbrev pub text_ehci_usb2_controller : List ℕ
text_ehci_usb2_controller =
    b'E' ∷ b'H' ∷ b'C' ∷ b'I' ∷ b' ' ∷ b'(' ∷ b'U' ∷ b'S' ∷ b'B' ∷ b'2' ∷ b')' ∷ b' ' ∷ b'C' ∷ b'o'
    ∷ b'n' ∷ b't' ∷ b'r' ∷ b'o' ∷ b'l' ∷ b'l' ∷ b'e' ∷ b'r' ∷ []

abbrev pub text_xhci_usb3_controller : List ℕ
text_xhci_usb3_controller =
    b'X' ∷ b'H' ∷ b'C' ∷ b'I' ∷ b' ' ∷ b'(' ∷ b'U' ∷ b'S' ∷ b'B' ∷ b'3' ∷ b')' ∷ b' ' ∷ b'C' ∷ b'o'
    ∷ b'n' ∷ b't' ∷ b'r' ∷ b'o' ∷ b'l' ∷ b'l' ∷ b'e' ∷ b'r' ∷ []

abbrev pub text_unspecified : List ℕ
text_unspecified = b'U' ∷ b'n' ∷ b's' ∷ b'p' ∷ b'e' ∷ b'c' ∷ b'i' ∷ b'f' ∷ b'i' ∷ b'e' ∷ b'd' ∷ []

abbrev pub text_usb_device_not_a_host_controller : List ℕ
text_usb_device_not_a_host_controller =
    b'U' ∷ b'S' ∷ b'B' ∷ b' ' ∷ b'D' ∷ b'e' ∷ b'v' ∷ b'i' ∷ b'c' ∷ b'e' ∷ b' ' ∷ b'(' ∷ b'N' ∷ b'o'
    ∷ b't' ∷ b' ' ∷ b'a' ∷ b' ' ∷ b'H' ∷ b'o' ∷ b's' ∷ b't' ∷ b' ' ∷ b'C' ∷ b'o' ∷ b'n' ∷ b't'
    ∷ b'r' ∷ b'o' ∷ b'l' ∷ b'l' ∷ b'e' ∷ b'r' ∷ b')' ∷ []

abbrev pub text_vga_compatible_controller : List ℕ
text_vga_compatible_controller =
    b'V' ∷ b'G' ∷ b'A' ∷ b' ' ∷ b'C' ∷ b'o' ∷ b'm' ∷ b'p' ∷ b'a' ∷ b't' ∷ b'i' ∷ b'b' ∷ b'l' ∷ b'e'
    ∷ b' ' ∷ b'C' ∷ b'o' ∷ b'n' ∷ b't' ∷ b'r' ∷ b'o' ∷ b'l' ∷ b'l' ∷ b'e' ∷ b'r' ∷ []

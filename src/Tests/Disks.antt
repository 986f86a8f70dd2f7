-- ===== src/Tests/Disks.antt =====
-- Runs of the PCI walk and of the AHCI driver.
use sesh_os.Base.{
  ℕ, arith, ◌+◌, ◌*◌, ◌/◌, ◌%◌, ◌^◌, ◌<◌, ◌≤◌, ◌≡◌, refl, ◌≢◌, List, none, replicate, ◌↔◌, true,
  length, ◌==◌, if◌then◌else◌,
}
use sesh_os.Base.Run.{done, fault}
use sesh_os.Base.Memory.{Memory}
use sesh_os.Base.Words.{load64}
use sesh_os.Pci.{enumerate_config, enumerate_pci}
use sesh_os.Pci.Printing.{print_events}
use sesh_os.Pci.Printing.Lines.{known_line, Lines, print_events-Known}
use sesh_os.Pci.Visited.{Printed, Found, enumerate_config-Found}
use sesh_os.Sata.{HbaPort, Port, Device, probe_ports, read_command}
use sesh_os.Sata.Filled.{Filled}
use sesh_os.Sata.Probe.{Drives, Has, is_found, probe_ports-Drives}
use sesh_os.Sata.Reading.{lba, read_command-lba}

-- A `DeviceConfig` at 16 for the bus 0, whose configuration space begins at 4096, and one function
-- there.
abbrev space : Memory
space a =
    if a == 17
    then 0x10
    else if a == 27
    then 1
    else if a == 4098
    then 0x22
    else if a == 4099
    then 0x29
    else 0

enumerate_config-Found_example : Printed 4096 (enumerate_config space 16) ↔ (
    (bus : ℕ) × (device : ℕ) × (function : ℕ) × (space (16 + 10) ≤ bus)
    × (bus < space (16 + 11))
    × (device < 32)
    × (function < 8)
    × Found space (load64 space 16) bus device function 4096)
enumerate_config-Found_example = enumerate_config-Found space 16 4096

-- An active SATA drive on every port.
abbrev pub drives : ℕ → HbaPort
drives i = record { sata_status = 0x113; signature = 0x101 }

probe_ports-Drives_example :
    (ports : List Port) × Drives 5 drives 32 3 ports
    × (length ports ≤ 32)
    × ((k : ℕ) → k < 32 → is_found 5 drives k ≡ true → Has k ports)
    × (3 + length ports ≤ 32 → probe_ports 3 5 drives ≡ done ports)
    × (32 < 3 + length ports → probe_ports 3 5 drives ≡ fault)
probe_ports-Drives_example = probe_ports-Drives 3 5 drives (omega arith)

read_command-lba_example :
    (0x123456 < 2 ^ 24 → lba (read_command 0x123456 1 0x8000).fis ≡ 0x123456)
    × (lba (read_command 0x123456 1 0x8000).fis
        ≡ 0x123456 % 2 ^ 24
          + 0x123456 / 2 ^ 32 % 2 ^ 8 * 2 ^ 24
          + 0x123456 / 2 ^ 48 % 2 ^ 8 * 2 ^ 32)
read_command-lba_example = read_command-lba 0x123456 1 0x8000

-- A port that is ready after three readings and has done its command at the next one.
abbrev pub device : Device
device = record {
  task_file_data = λ n. if n == 3 then 0x50 else 0x80;
  command_issue = λ n. if n == 1 then 0 else 1;
  interrupt_status = λ n. 0;
}

-- A command list at 0x1000 whose first table is at 0x2000.
abbrev list : Memory
list a = if a == 0x1009 then 0x20 else 0

-- An MCFG at 0 with the bus 0, whose configuration space begins at 4096, and an AHCI controller there.
abbrev one_controller : Memory
one_controller a =
    if a == 4
    then 60
    else if a == 45
    then 0x10
    else if a == 55
    then 1
    else if a == 4096
    then 0x86
    else if a == 4097
    then 0x80
    else if a == 4098
    then 0x22
    else if a == 4099
    then 0x29
    else if a == 4105
    then 1
    else if a == 4106
    then 6
    else if a == 4107
    then 1
    else 0

print_events-Known_example :
    (((a : ℕ) → Printed a (enumerate_pci one_controller 0) → known_line one_controller a ≢ none)
      → (text : List ℕ) × (print_events
            (replicate 128 0)
            one_controller
            (enumerate_pci one_controller 0)
          ≡ done text)
        × Lines one_controller (enumerate_pci one_controller 0) text)
    × ((a : ℕ)
        → Printed a (enumerate_pci one_controller 0)
        → known_line one_controller a ≡ none
        → print_events (replicate 128 0) one_controller (enumerate_pci one_controller 0) ≡ fault)
print_events-Known_example = print_events-Known (replicate 128 0) one_controller 0 refl

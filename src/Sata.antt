-- ===== src/Sata.antt =====
-- kernel/disks/sata.c: the AHCI driver's probing of ports and its read command. Registers that the
-- controller changes by itself are functions of the number of the reading.
pub mod Probe
pub mod Reading
pub mod Setup
pub mod Filled
use sesh_os.Base.{
  ℕ, zero, suc, ◌+◌, ◌-◌, ◌*◌, ◌/◌, ◌%◌, ◌^◌, Bool, true, false, ◌&&◌, ◌||◌, not, List, [], ◌∷◌,
  ◌++◌, ◌==◌, ltb, length, bit_and, bit_or, if◌then◌else◌, u8, u32,
}
use sesh_os.Base.Int.{pos}
use sesh_os.Base.Memory.{Memory, poke}
use sesh_os.Base.Words.{load32, store32}
use sesh_os.Mem.{memset}
use sesh_os.Base.Run.{Run, done, fault, out_of_fuel, ◌>>=◌}

-- `None` is `nothing`.
pub data PortType : Type 0 where
  nothing : PortType
  sata : PortType
  semb : PortType
  pm : PortType
  satapi : PortType

-- The registers of an `HBAPort` that the probe reads.
pub record HbaPort : Type 0 where
  pub sata_status : ℕ
  pub signature : ℕ

unfoldable pub check_port_type : HbaPort → PortType
check_port_type p =
    let interface_power_management = bit_and (p.sata_status / 2 ^ 8) 7 in
    let device_detection = bit_and p.sata_status 7 in
    if not (device_detection == 3)
    then nothing
    else if not (interface_power_management == 1)
    then nothing
    else if p.signature == 0xEB140101
    then satapi
    else if p.signature == 0x00000101
    then sata
    else if p.signature == 0x96690101
    then pm
    else if p.signature == 0xC33C0101
    then semb
    else nothing

-- `Port`; `hba_port` is the index into the controller's ports.
pub record Port : Type 0 where
  pub hba_port : ℕ
  pub port_type : PortType
  pub port_number : ℕ

abbrev pub is_drive : PortType → Bool
is_drive sata = true
is_drive satapi = true
is_drive _ = false

-- `for (i = 0; i < 32; i++)`, with `left` rounds to go. Nothing sets `portCount` before the loop:
-- `count` is what the memory of the driver happens to hold there, and the ports found are stored from
-- that place on. A place behind the array of 32 is a fault. The allocation of the ports is left out.
pub probe_loop :
    (left i count : ℕ) → (ports_implemented : ℕ) → (ℕ → HbaPort) → List Port → Run (List Port)
probe_loop zero i count implemented hba ports = done ports
probe_loop (suc left) i count implemented hba ports =
    let port_type = check_port_type (hba i) in
    let found : Port = record {
      hba_port = i;
      port_type = port_type;
      port_number = count + length ports;
    } in
    let more = probe_loop left (i + 1) count implemented hba (ports ++ found ∷ []) in
    let same = probe_loop left (i + 1) count implemented hba ports in
    if not (bit_and implemented (2 ^ i) == 0) && is_drive port_type
    then if ltb (count + length ports) 32 then more else fault
    else same

unfoldable pub probe_ports : (count ports_implemented : ℕ) → (ℕ → HbaPort) → Run (List Port)
unfolding probe_loop
probe_ports count implemented hba = probe_loop 32 0 count implemented hba []

-- The fields of a `FIS_REG_H2D` that are set; the others are zero.
pub record Fis : Type 0 where
  pub fis_type : ℕ
  pub command_control : ℕ
  pub command : ℕ
  pub lba0 : ℕ
  pub lba1 : ℕ
  pub lba2 : ℕ
  pub device_register : ℕ
  pub lba3 : ℕ
  pub lba4 : ℕ
  pub lba5 : ℕ
  pub count_low : ℕ
  pub count_high : ℕ

-- The command header, the one entry of the region table, and the FIS, as `Read` fills them in.
pub record Command : Type 0 where
  pub command_fis_length : ℕ
  pub write : ℕ
  pub prdt_length : ℕ
  pub data_base_address : ℕ
  pub data_base_address_upper : ℕ
  pub byte_count : ℕ
  pub interrupt_on_completion : ℕ
  pub fis : Fis

-- `lba4` is assigned twice and `lba5` never; `byteCount` has 22 bits.
unfoldable pub read_command : (sector sector_count buffer : ℕ) → Command
read_command sector sector_count buffer =
    let sector_l = u32 sector in
    let sector_h = u32 (sector / 2 ^ 32) in
    let first : Fis = record {
      fis_type = 0x27;
      command_control = 1;
      command = 0x25;
      lba0 = u8 sector_l;
      lba1 = u8 (sector_l / 2 ^ 8);
      lba2 = u8 (sector_l / 2 ^ 16);
      device_register = 2 ^ 6;
      lba3 = u8 sector_h;
      lba4 = u8 (sector_h / 2 ^ 8);
      lba5 = 0;
      count_low = bit_and sector_count 0xFF;
      count_high = bit_and (sector_count / 2 ^ 8) 0xFF;
    } in
    record {
      command_fis_length = 5;
      write = 0;
      prdt_length = 1;
      data_base_address = u32 buffer;
      data_base_address_upper = u32 (buffer / 2 ^ 32);
      byte_count = u32 (u32 (sector_count * 2 ^ 9) + 2 ^ 32 - 1) % 2 ^ 22;
      interrupt_on_completion = 1;
      fis = record first { lba4 = u8 (sector_h / 2 ^ 16) };
    }

-- The readings of a port's registers while a command runs.
pub record Device : Type 0 where
  pub task_file_data : ℕ → ℕ
  pub command_issue : ℕ → ℕ
  pub interrupt_status : ℕ → ℕ

-- `while ((taskFileData & (BUSY | DRQ)) && spin < 1000000) spin++;`, with `left` rounds to go
pub spin_loop : (left spin : ℕ) → (ℕ → ℕ) → ℕ
spin_loop zero spin task_file_data = spin
spin_loop (suc left) spin task_file_data =
    let rest = spin_loop left (spin + 1) task_file_data in
    if bit_and (task_file_data spin) 0x88 == 0 then spin else rest

-- The loop that has no limit: until the command is no longer issued, or there is an error.
pub issue_loop : (fuel n : ℕ) → Device → Run ℕ
issue_loop zero n d = out_of_fuel
issue_loop (suc fuel) n d =
    let rest = issue_loop fuel (n + 1) d in
    if d.command_issue n == 0
    then done 1
    else if bit_and (d.interrupt_status n) (2 ^ 30) == 0
    then rest
    else done 0

-- `cmdHeader->...`: of the first byte the five lower bits are the length and bit 6 is `write`.
unfoldable pub fill_header : Memory → (header : ℕ) → Command → Memory
fill_header m header c =
    let first = bit_or (bit_and (m header) 0xA0) (c.command_fis_length + c.write * 2 ^ 6) in
    poke (poke (poke m header first) (header + 2) (u8 c.prdt_length)) (header + 3)
      (c.prdt_length / 2 ^ 8)

-- `commandTable->prdtEntry[0]`, behind the 128 bytes of the table; the count and the bit for the
-- interrupt share a word with nine bits that stay.
unfoldable pub fill_entry : Memory → (entry : ℕ) → Command → Memory
unfolding load32 store32
fill_entry m at c =
    let m1 = store32 (store32 m at c.data_base_address) (at + 4) c.data_base_address_upper in
    let m2 = store32 m1 (at + 12) (load32 m1 (at + 12) / 2 ^ 22 * 2 ^ 22 + c.byte_count) in
    store32 m2 (at + 12) (load32 m2 (at + 12) % 2 ^ 31 + c.interrupt_on_completion * 2 ^ 31)

-- `cmdFIS->...`, at the start of the table
unfoldable pub fill_fis : Memory → (table : ℕ) → Fis → Memory
fill_fis m at f =
    let m1 = poke m at f.fis_type in
    let m2 = poke m1 (at + 1) (m1 (at + 1) % 2 ^ 7 + f.command_control * 2 ^ 7) in
    let m3 = poke m2 (at + 2) f.command in
    let m4 = poke (poke (poke m3 (at + 4) f.lba0) (at + 5) f.lba1) (at + 6) f.lba2 in
    let m5 = poke (poke m4 (at + 8) f.lba3) (at + 9) f.lba4 in
    let m6 = poke m5 (at + 7) f.device_register in
    poke (poke m6 (at + 12) f.count_low) (at + 13) f.count_high

-- The address of the table: only the lower half that the header has is used.
unfoldable pub table_of : Memory → (header : ℕ) → ℕ
unfolding load32
table_of m header = load32 m (header + 8)

-- What `Read` stores before it waits; `header` is the lower half of the command list's address.
unfoldable pub fill_command : Memory → (header : ℕ) → Command → Memory
unfolding fill_header fill_entry fill_fis table_of
fill_command m header c =
    let m1 = fill_header m header c in
    let table = table_of m1 header in
    let m2 = (memset m1 table (pos 0) (pos 128)).0 in
    fill_fis (fill_entry m2 (table + 128) c) table c.fis

-- The memory behind it, whether the command was issued, and the result; `header` is the register
-- `commandListBase`.
unfoldable pub read :
    (fuel : ℕ) → Device → Memory → (header sector sector_count buffer : ℕ) → Run (Memory × Bool × ℕ)
unfolding spin_loop issue_loop read_command fill_command
read fuel d m header sector sector_count buffer =
    let filled = fill_command m header (read_command sector sector_count buffer) in
    let issued = (do r ← issue_loop fuel 0 d; done (filled, true, r)) in
    if spin_loop 1000000 0 d.task_file_data == 1000000 then done (filled, false, 0) else issued

-- ===== src/Sata/Setup.antt =====
-- kernel/disks/sata.c: the set-up of a port, its commands stopped and started, and the driver's end.
pub mod Stopping
pub mod Tables
pub mod Configured
use sesh_os.Base.{
  ℕ, zero, suc, ◌+◌, ◌*◌, ◌/◌, ◌^◌, List, [], ◌∷◌, ◌==◌, length, bit_and, bit_or, if◌then◌else◌,
  u32, u64,
}
use sesh_os.Base.Int.{pos}
use sesh_os.Base.Memory.{Memory, poke}
use sesh_os.Base.Words.{store32}
use sesh_os.Base.Run.{Run, done, out_of_fuel, ◌>>=◌}
use sesh_os.Mem.{memset}
use sesh_os.Heap.{Heap, malloc, free}

-- The registers of an `HBAPort` that the set-up writes. The controller changes bits of `cmd_sts` by
-- itself: what a reading gives is its answer to the number of the reading and the value last written.
pub record PortRegisters : Type 0 where
  pub command_list_base : ℕ
  pub command_list_base_upper : ℕ
  pub fis_base_address : ℕ
  pub fis_base_address_upper : ℕ
  pub cmd_sts : ℕ
  pub readings : ℕ

abbrev pub CmdSts : Type 0
CmdSts = (reading written : ℕ) → ℕ

abbrev pub answer : CmdSts → PortRegisters → ℕ
answer c p = c p.readings p.cmd_sts

-- The register is read, and then written.
abbrev pub update : (ℕ → ℕ) → CmdSts → PortRegisters → PortRegisters
update f c p = record p { cmd_sts = f (answer c p); readings = p.readings + 1 }

abbrev pub looked : PortRegisters → PortRegisters
looked p = record p { readings = p.readings + 1 }

-- `while (1)` until FR and then CR are read as 0
pub stop_loop : (fuel : ℕ) → CmdSts → PortRegisters → Run PortRegisters
stop_loop zero c p = out_of_fuel
stop_loop (suc fuel) c p =
    let after_fr = stop_loop fuel c (looked p) in
    let after_cr = stop_loop fuel c (looked (looked p)) in
    if bit_and (answer c p) 0x4000 == 0
    then if bit_and (answer c (looked p)) 0x8000 == 0 then done (looked (looked p)) else after_cr
    else after_fr

unfoldable pub stop_cmd : (fuel : ℕ) → CmdSts → PortRegisters → Run PortRegisters
unfolding stop_loop
stop_cmd fuel c p =
    stop_loop fuel c (update (λ v. bit_and v 0xFFFFFFEF) c (update (λ v. bit_and v 0xFFFFFFFE) c p))

-- `while (cmdSts & CR);`
pub start_loop : (fuel : ℕ) → CmdSts → PortRegisters → Run PortRegisters
start_loop zero c p = out_of_fuel
start_loop (suc fuel) c p =
    let rest = start_loop fuel c (looked p) in
    if bit_and (answer c p) 0x8000 == 0 then done (looked p) else rest

unfoldable pub start_cmd : (fuel : ℕ) → CmdSts → PortRegisters → Run PortRegisters
unfolding start_loop
start_cmd fuel c p = do
  p1 ← start_loop fuel c p
  done (update (λ v. bit_or v 0x0001) c (update (λ v. bit_or v 0x0010) c p1))

-- A header takes 32 bytes: `prdtLength` are the two at 2, and the halves of the table's address
-- stand at 8 and 12.
abbrev pub header_at : ℕ → ℕ → ℕ
header_at base i = base + 32 * i

-- `for (i = 0; i < 32; i++)` over the command headers, with `left` rounds to go
pub header_loop : (fuel left i : ℕ) → Heap → (base : ℕ) → Run Heap
header_loop fuel zero i h base = done h
header_loop fuel (suc left) i h base = do
  let at = header_at base i
  let m1 = poke (poke h.mem (at + 2) 8) (at + 3) 0
  (h1, table) ← malloc fuel (record h { mem = m1 }) 4096
  let address = u64 (table + i * 2 ^ 8)
  let m2 = store32 (store32 h1.mem (at + 8) (u32 address)) (at + 8 + 4) (address / 2 ^ 32)
  header_loop fuel left (i + 1) (record h1 { mem = (memset m2 table (pos 0) (pos 256)).0 }) base

-- The first `memset` takes the lower half of the address for all of it.
unfoldable pub configure : (fuel : ℕ) → CmdSts → Heap → PortRegisters → Run (Heap × PortRegisters)
unfolding header_loop
configure fuel c h p = do
  p1 ← stop_cmd fuel c p
  (h1, new_base) ← malloc fuel h 4096
  let p2 = record p1 {
    command_list_base = u32 new_base;
    command_list_base_upper = new_base / 2 ^ 32;
  }
  let m1 = (memset h1.mem p2.command_list_base (pos 0) (pos 1024)).0
  (h2, fis_base) ← malloc fuel (record h1 { mem = m1 }) 4096
  let p3 = record p2 { fis_base_address = u32 fis_base; fis_base_address_upper = fis_base / 2 ^ 32 }
  let m2 = (memset h2.mem fis_base (pos 0) (pos 256)).0
  let base = u64 (p3.command_list_base + p3.command_list_base_upper * 2 ^ 32)
  h3 ← header_loop fuel 32 0 (record h2 { mem = m2 }) base
  p4 ← start_cmd fuel c p3
  done (h3, p4)

unfoldable pub ahci_driver_destroy : Heap → (driver : ℕ) → Heap
ahci_driver_destroy h driver = free h driver

-- ===== src/Tests/Setups.antt =====
-- Runs of the set-up of a port.
use sesh_os.Base.{ℕ, ◌+◌, ◌*◌, ◌^◌, ◌<◌, ◌≡◌, refl, false, [], arith, if◌then◌else◌, ltb, ge→ltb}
use sesh_os.Base.Run.{done, ◌>>=◌}
use sesh_os.Heap.{Heap}
use sesh_os.Heap.Blocks.{top}
use sesh_os.Sata.Setup.{PortRegisters, CmdSts, header_at, stop_cmd, start_cmd, configure}
use sesh_os.Sata.Setup.Stopping.{Quiet, OnlyCommand, Started, stopped, stop_cmd-start_cmd}
use sesh_os.Sata.Setup.Tables.{IsHeader, table_address}
use sesh_os.Sata.Setup.Configured.{configure-Filled}

-- FR and CR are 1 in the first five readings.
abbrev slow : CmdSts
slow k written = if ltb k 5 then 0xC011 else 0

slow-Quiet : (written : ℕ) → Quiet slow written 5
slow-Quiet written k h = rw (ge→ltb k 5 h) (refl, refl)

abbrev registers : PortRegisters
registers = record {
  command_list_base = 0;
  command_list_base_upper = 0;
  fis_base_address = 0;
  fis_base_address_upper = 0;
  cmd_sts = 0x11;
  readings = 0;
}

-- A heap above 4 GiB that was never used.
abbrev high_heap : Heap
high_heap = record {
  mem = λ a. 0;
  is_set_up = false;
  have_allocated = false;
  last_valid_address = 0;
  space = 2 ^ 33;
  printed = [];
}

stop_cmd-start_cmd_example :
    (p' : PortRegisters) × ((stop_cmd 6 slow registers >>= start_cmd 6 slow) ≡ done p')
    × OnlyCommand registers p'
    × Started slow (stopped slow registers) p'
stop_cmd-start_cmd_example =
    stop_cmd-start_cmd 6 slow registers 5 (slow-Quiet (stopped slow registers).cmd_sts)
      (omega arith) (omega arith)

configure-Filled_example :
    (h' : Heap) × (p' : PortRegisters) × (configure 6 slow high_heap registers ≡ done (h', p'))
    × (p'.command_list_base + p'.command_list_base_upper * 2 ^ 32 ≡ top high_heap + 16)
    × (p'.fis_base_address + p'.fis_base_address_upper * 2 ^ 32 ≡ top high_heap + 4112 + 16)
    × ((j : ℕ)
        → j < 32
        → IsHeader h'.mem
            (header_at (top high_heap + 16) j)
            (table_address (top high_heap + 8224) 0 j))
    × (top h' ≡ top high_heap + 34 * 4112)
    × (h'.have_allocated ≡ false)
configure-Filled_example =
    configure-Filled 6 slow high_heap registers 5 (slow-Quiet (stopped slow registers).cmd_sts)
      (omega arith) (omega arith) refl (omega arith)

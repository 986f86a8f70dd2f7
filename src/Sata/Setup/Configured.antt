-- ===== src/Sata/Setup/Configured.antt =====
-- Where the set-up of a port puts the command headers and their tables.
use sesh_os.Base.{ℕ, ◌+◌, ◌*◌, ◌/◌, ◌^◌, ◌<◌, ◌≡◌, refl, sym, ap, ◌∙◌, false, arith, u32, u64}
use mathlib.Core.Path.{subst}
use sesh_os.Base.Int.{pos}
use sesh_os.Base.Run.{done, bind-done}
use sesh_os.Mem.{memset}
use sesh_os.Heap.{Heap}
use sesh_os.Heap.Blocks.{top}
use sesh_os.Heap.Taken.{malloc-Taken}
use sesh_os.Sata.Setup.{PortRegisters, CmdSts, header_at, configure}
use sesh_os.Sata.Setup.Stopping.{Quiet, stopped, stop_cmd-ends, start_cmd-ends}
use sesh_os.Sata.Setup.Tables.{IsHeader, IsHeader-at, table_address, header_loop-Filled}

-- On a port whose controller makes the bits FR and CR 0 from some reading on, and a heap that was
-- not searched and has room, the set-up returns: the command list's 32 headers stand in the first
-- block that is taken and the received FIS in the second, in both halves of the registers; each
-- header has a table that is 256 bytes further into its block than that of the header before, so
-- that from header 16 on the table lies behind its own block.
pub configure-Filled :
    (fuel : ℕ) (c : CmdSts) (h : Heap) (p : PortRegisters) (n : ℕ)
    → Quiet c (stopped c p).cmd_sts n
    → n < p.readings + fuel
    → 0 < fuel
    → h.have_allocated ≡ false
    → top h + 150000 < 2 ^ 64
    → (h' : Heap) × (p' : PortRegisters) × (configure fuel c h p ≡ done (h', p'))
      × (p'.command_list_base + p'.command_list_base_upper * 2 ^ 32 ≡ top h + 16)
      × (p'.fis_base_address + p'.fis_base_address_upper * 2 ^ 32 ≡ top h + 4112 + 16)
      × ((j : ℕ)
          → j < 32
          → IsHeader h'.mem (header_at (top h + 16) j) (table_address (top h + 8224) 0 j))
      × (top h' ≡ top h + 34 * 4112)
      × (h'.have_allocated ≡ false)
unfolding configure
configure-Filled fuel c h p n quiet room some_fuel never space =
    let (p1, stops, (later, same)) = stop_cmd-ends fuel c p n quiet room some_fuel in
    let (h1, list, lists, one) = malloc-Taken fuel h 4096 never (omega arith) (omega arith) in
    let g1 : Heap = record h1 { mem = (memset h1.mem (u32 list) (pos 0) (pos 1024)).0 } in
    let (h2, fis, fises, two) =
      malloc-Taken fuel g1 4096 one.never_set (omega (arith, one.end)) (omega arith) in
    let g2 : Heap = record h2 { mem = (memset h2.mem fis (pos 0) (pos 256)).0 } in
    let base = u64 (u32 list + list / 2 ^ 32 * 2 ^ 32) in
    let (h3, fills, filled) =
      header_loop-Filled fuel 32 0 g2 base two.never_set
        (omega (arith, one.location, one.end, two.end)) (omega (arith, one.end, two.end)) in
    let p3 : PortRegisters = record p1 {
      command_list_base = u32 list;
      command_list_base_upper = list / 2 ^ 32;
      fis_base_address = u32 fis;
      fis_base_address_upper = fis / 2 ^ 32;
    } in
    let (p4, starts, rest, _) =
      start_cmd-ends fuel c p3 n
        (subst (λ (q : PortRegisters). Quiet c q.cmd_sts n) (sym same) quiet) (omega arith)
        some_fuel in
    (
      h3,
      p4,
      bind-done _ stops
          (bind-done _ lists (bind-done _ fises (bind-done _ fills (bind-done _ starts refl)))),
      ap (λ (q : PortRegisters). q.command_list_base + q.command_list_base_upper * 2 ^ 32) rest
          ∙ omega (arith, one.location),
      ap (λ (q : PortRegisters). q.fis_base_address + q.fis_base_address_upper * 2 ^ 32) rest
          ∙ omega (arith, one.end, two.location),
      λ j l.
          IsHeader-at h3.mem (omega (arith, one.location)) (omega (arith, one.end, two.end))
            (filled.headers j l),
      filled.end ∙ omega (arith, one.end, two.end),
      filled.never_set,
    )

-- ===== src/Tests/Starts.antt =====
-- Runs of the kernel's start.
use sesh_os.Base.{
  ℕ, ◌≡◌, refl, sym, ap, ◌∙◌, List, none, [], ◌∷◌, ◌++◌, arith, replicate, inl, inr, false,
}
use sesh_os.Base.Run.{done}
use mathlib.Core.Path.{subst}
use sesh_os.Base.Memory.{Memory}
use sesh_os.Log.Pieces.{formatted}
use sesh_os.Tty.{Tty, com_log_wrapper, set_write_func}
use sesh_os.Boot.Logging.{boot_check_loader}
use sesh_os.Boot.Logging.Fitting.{boot_check_loader-none}
use sesh_os.Acpi.Logging.{field}
use sesh_os.Pci.Visited.{Printed}
use sesh_os.Pci.Printing.Lines.{Lines}
use sesh_os.Idt.Table.{Installed}
use sesh_os.Ramfs.Headers.{From, addresses}
use sesh_os.Acpi.{entries}
use sesh_os.Acpi.Tables.{LastMcfg}
use sesh_os.Mem.Compare.{memcmp-zero_iff}
use sesh_os.Pci.{Event, for_range, config_entries, enumerate_pci}
use sesh_os.Start.{Machine, Kernel, Boot, booted, has_driver, init, lm_check}
use sesh_os.Start.Booting.{Bootable, Printable, PrintableAfter, last_usable, init-booted}
use sesh_os.Start.Failing.{Panicked, init-panics}
use sesh_os.Tests.Acpis.{
  literals, tables, start, signed, rooted, at_56, wrong, IsMcfg-at_96, entries-nonzero, the_entry,
}
use sesh_os.Tests.Devices.{handlers, gates, handlers-AreAddresses}
use sesh_os.Tests.Console.{console, font}

-- Two usable regions with a reserved one between them, and an archive without files at 400.
abbrev machine : (initramfs rsdp : ℕ) → Machine
machine initramfs rsdp = record {
  memory_map =
      record { base = 0x1000; length = 0x9000; typ = 0 }
      ∷ record { base = 0xA000; length = 0x6000; typ = 1 }
      ∷ record { base = 0x100000; length = 0x700000; typ = 0 }
      ∷ [];
  bootloader_info = none;
  loader_name = 600;
  loader_version = 700;
  framebuffer = record { has_address = false; width = 0; height = 0; pixels = λ a. 0 };
  initramfs = initramfs;
  archive = initramfs;
  word = 64;
  literals = literals;
  rsdp = rsdp;
  handlers = handlers;
  master_mask = 0;
  slave_mask = 0;
}

abbrev fresh : Kernel
fresh = record {
  heap = record {
    mem = tables;
    is_set_up = false;
    have_allocated = false;
    last_valid_address = 0;
    space = 0;
    printed = [];
  };
  tty = console 0 0;
  loader_id = 0;
  idt = gates;
  outs = [];
  headers = replicate 32 0;
  acpi = start;
  events = [];
  hex_output = replicate 128 0;
  printed = [];
}

-- The library prints strings of up to 100 bytes.
abbrev text_at : Memory → ℕ → List ℕ
text_at m p = field m p 100

nothing_copied :
    (u : Tty) × (boot_check_loader font formatted text_at 2 600 700
        (set_write_func (console 0 0) com_log_wrapper)
        tables
        0
        (lm_check none)
      ≡ done (u, tables, 0))
unfolding lm_check set_write_func
nothing_copied =
    boot_check_loader-none font text_at 2 600 700
      (record (console 0 0) { write_func = com_log_wrapper }) tables 0 [] ((refl, refl), refl)

LastMcfg-at_96 : (mcfg : ℕ) → LastMcfg literals tables 56 0 (entries tables 56) 0 mcfg → mcfg ≡ 96
LastMcfg-at_96 mcfg (inl (k, l, r, is, e, last)) = e ∙ the_entry k r
LastMcfg-at_96 mcfg (inr (same, never)) =
    absurd (never IsMcfg-at_96.0 (omega arith) IsMcfg-at_96.1 IsMcfg-at_96.2)

no_configs : enumerate_pci tables 96 ≡ []
unfolding enumerate_pci for_range config_entries
no_configs = refl

no_functions : (events : List Event) → events ≡ [] → (a : ℕ) → Printed a events → ⊥
no_functions events e a p = nothing (subst (Printed a) e p)
  where
    nothing : Printed a [] → ⊥
    nothing q = q

quiet : has_driver (enumerate_pci tables 96) ≡ false
unfolding has_driver
quiet = ap has_driver no_configs

prints : (initramfs rsdp : ℕ) → PrintableAfter (machine initramfs rsdp) tables 56 start
prints initramfs rsdp mcfg last =
    subst (Printable tables) (sym (LastMcfg-at_96 mcfg last))
      (quiet, λ a p. absurd (no_functions (enumerate_pci tables 96) no_configs a p))

machine-Bootable : Bootable (machine 400 20) tables [] 56
machine-Bootable = record {
  present = λ e. omega arith;
  archive = refl;
  low = omega arith;
  few = omega arith;
  signed = (memcmp-zero_iff tables 20 0 8).0 signed;
  pointed = at_56;
  root = (memcmp-zero_iff tables 56 8 4).0 rooted;
  mcfg = IsMcfg-at_96;
  nonzero = entries-nonzero;
}

init-booted_example :
    (k2 : Kernel) × (text : List ℕ) × (init font formatted text_at 2 (machine 400 20) fresh
      ≡ done (booted k2))
    × (k2.heap
        ≡ record (fresh.heap) { mem = tables; space = last_usable (machine 400 20).memory_map 0 })
    × Installed k2.idt handlers
    × From k2.headers 0 (addresses 400 [])
    × LastMcfg literals tables 56 0 (entries tables 56) 0 k2.acpi.mcfg
    × (k2.events ≡ [] ++ enumerate_pci tables k2.acpi.mcfg)
    × Lines tables (enumerate_pci tables k2.acpi.mcfg) text
    × (k2.printed ≡ [] ++ text)
init-booted_example =
    init-booted font formatted text_at 2 (machine 400 20) fresh nothing_copied.0 tables 0 [] 56
      nothing_copied.1 refl handlers-AreAddresses machine-Bootable refl refl (prints 400 20)
      (omega arith)

init-panics_example :
    (stop : Boot) × (k2 : Kernel) × (init font formatted text_at 2 (machine 400 56) fresh
      ≡ done stop)
    × Panicked stop fresh k2
init-panics_example =
    init-panics font formatted text_at 2 (machine 400 56) fresh nothing_copied.0 tables 0 []
      nothing_copied.1 refl handlers-AreAddresses refl (omega arith) refl
      (inr (record {
        present = λ e. omega arith;
        archive = refl;
        low = omega arith;
        few = omega arith;
        unsigned = inl wrong;
      }))

-- ===== src/Start.antt =====
-- kernel/init.c: what `init` does with the boot loader's answers, with kernel/boot/limine/check.c,
-- kernel/boot/limine/framebuffer.c and kernel/gdt/gdt.c. The texts of the boot loader's check and of
-- the PCI walk are made; the other texts are left out, and so are the loading of the tables and the
-- addresses that nothing reads.
pub mod Booting
pub mod Failing
use sesh_os.Base.{ℕ, ◌+◌, Bool, true, false, List, [], ◌∷◌, ◌++◌, Option, ◌==◌, if◌then◌else◌, u32}
use mathlib.Core.List.{reverse_aux}
use sesh_os.Base.Run.{Run, done, ◌>>=◌}
use sesh_os.Base.Text.{codes}
use sesh_os.Mem.{MemmapEntry}
use sesh_os.Heap.{Heap, mem_init}
use sesh_os.Tty.{Tty, Framebuffer, com_log_wrapper, set_write_func}
use sesh_os.Tty.FbCon.{fbcon_init}
use sesh_os.Boot.{LimineData, loader_id_limine_compatible}
use sesh_os.Boot.Logging.{boot_check_loader}
use sesh_os.Base.Memory.{Memory}
use sesh_os.Idt.{InterruptEntry, Handlers, Out, create_entries, create_idt_outs}
use sesh_os.Ramfs.{parse}
use sesh_os.Acpi.{Literals, Acpi, Ending, returned, panicked, finished, acpi_init}
use sesh_os.Pci.{Event, print_names, ahci_init, enumerate_pci}
use sesh_os.Pci.Printing.{print_events}

abbrev pub limine_memmap_usable : ℕ
limine_memmap_usable = 0

-- `for (i = 0; i < entry_count; i++)`: every usable region is given to the heap.
pub heap_loop : List MemmapEntry → Heap → Heap
heap_loop [] h = h
heap_loop (e ∷ entries) h =
    heap_loop entries (if e.typ == limine_memmap_usable then mem_init h e.base else h)

-- The response, or null.
unfoldable pub lm_check : Option LimineData → Option LimineData
lm_check response = response

-- The fields of a `limine_framebuffer` that are read; the pixels are those at its address.
pub record LimineFramebuffer : Type 0 where
  pub has_address : Bool
  pub width : ℕ
  pub height : ℕ
  pub pixels : ℕ → ℕ

unfoldable pub lm_get_framebuffer : LimineFramebuffer → Framebuffer
lm_get_framebuffer res = record {
  width = u32 res.width;
  height = u32 res.height;
  pixels = res.pixels;
}

-- `GDTEntry`
pub record GdtEntry : Type 0 where
  pub limit0 : ℕ
  pub base0 : ℕ
  pub base1 : ℕ
  pub access_byte : ℕ
  pub limit1_flags : ℕ
  pub base2 : ℕ

abbrev pub segment : (access_byte limit1_flags : ℕ) → GdtEntry
segment access flags = record {
  limit0 = 0;
  base0 = 0;
  base1 = 0;
  access_byte = access;
  limit1_flags = flags;
  base2 = 0;
}

abbrev pub default_gdt : List GdtEntry
default_gdt =
    segment 0x00 0x00
    ∷ segment 0x9a 0xa0
    ∷ segment 0x92 0xa0
    ∷ segment 0x00 0x00
    ∷ segment 0x9a 0xa0
    ∷ segment 0x92 0xa0
    ∷ []

-- What the boot loader and the linker give: `initramfs` is the pointer to the ram disk's file, which
-- is 0 if there is none, and `archive` the address that the file has.
pub record Machine : Type 0 where
  pub memory_map : List MemmapEntry
  pub bootloader_info : Option LimineData
  pub loader_name : ℕ
  pub loader_version : ℕ
  pub framebuffer : LimineFramebuffer
  pub initramfs : ℕ
  pub archive : ℕ
  pub word : ℕ
  pub literals : Literals
  pub rsdp : ℕ
  pub handlers : Handlers
  pub master_mask : ℕ
  pub slave_mask : ℕ

-- The globals of the kernel, and what it sent to the interrupt controllers, met on the PCI buses and
-- printed of that.
pub record Kernel : Type 0 where
  pub heap : Heap
  pub tty : Tty
  pub loader_id : ℕ
  pub idt : List InterruptEntry
  pub outs : List Out
  pub headers : List ℕ
  pub acpi : Acpi
  pub events : List Event
  pub hex_output : List ℕ
  pub printed : List ℕ

-- How `init` ends: in a panic without a ram disk, with a bad ACPI table or without an MCFG, at the
-- driver of the first AHCI controller, or at its end.
pub data Boot : Type 0 where
  no_ramdisk : Kernel → Boot
  bad_table : Kernel → Boot
  no_mcfg : Kernel → Boot
  at_driver : Kernel → Boot
  booted : Kernel → Boot

-- The events before the first AHCI controller, whose driver's start is not modelled.
pub until_driver : List Event → List Event
until_driver [] = []
until_driver (print_names a ∷ events) = print_names a ∷ until_driver events
until_driver (ahci_init a ∷ events) = []

unfoldable pub has_driver : List Event → Bool
has_driver [] = false
has_driver (print_names a ∷ events) = has_driver events
has_driver (ahci_init a ∷ events) = true

-- `EnumeratePCI(mcfg)`: the walk prints the names of what it finds, which can fail, and stops here at
-- the first AHCI controller.
pub enumerated : Kernel → Run Boot
unfolding until_driver has_driver
enumerated k =
    let events = enumerate_pci k.heap.mem k.acpi.mcfg in
    let walked = (do
      text ← print_events k.hex_output k.heap.mem (until_driver events)
      let k' = record k { events = k.events ++ until_driver events; printed = k.printed ++ text }
      done (if has_driver events then at_driver k' else booted k')) in
    if k.acpi.mcfg == 0 then done (no_mcfg k) else walked

pub after_acpi : Kernel → Ending → Run Boot
after_acpi k (returned a) = enumerated (record k { acpi = a })
after_acpi k (finished a) = enumerated (record k { acpi = a })
after_acpi k (panicked a) = done (bad_table (record k { acpi = a }))

-- `sprintf` is what the library makes of the format of `log`, and `text_at` what it prints for `%s`.
module _ (font : ℕ → ℕ → ℕ) (sprintf : (module_ color msg : List ℕ) → List ℕ)
    (text_at : Memory → ℕ → List ℕ) where
  -- The loader, the console, the heap and the interrupts.
  pub early : (fuel : ℕ) → Machine → Kernel → Run Kernel
  early fuel mach k = do
    let tty0 = set_write_func k.tty com_log_wrapper
    (tty1, m, loader_id) ←
        boot_check_loader font sprintf text_at fuel mach.loader_name mach.loader_version tty0
          k.heap.mem k.loader_id (lm_check mach.bootloader_info)
    let limine = loader_id == loader_id_limine_compatible
    let ret =
        if limine
        then lm_get_framebuffer mach.framebuffer
        else record { width = 0; height = 0; pixels = mach.framebuffer.pixels }
    let tty2 = fbcon_init tty1 ret (if limine then mach.framebuffer.has_address else false)
    let tty3 = record tty2 { port_e9 = reverse_aux (codes "TETS\n") tty2.port_e9 }
    idt ← create_entries mach.handlers k.idt
    done (record k {
      heap = heap_loop mach.memory_map (record (k.heap) { mem = m });
      tty = tty3;
      loader_id = loader_id;
      idt = idt;
      outs = k.outs ++ create_idt_outs mach.master_mask mach.slave_mask;
    })

  unfoldable pub init : (fuel : ℕ) → Machine → Kernel → Run Boot
  unfolding early after_acpi enumerated heap_loop
  init fuel mach k = do
    k1 ← early fuel mach k
    (if mach.initramfs == 0 then done (no_ramdisk k1) else do
      (headers, i) ← parse fuel k1.heap.mem mach.archive k1.headers
      let k2 = record k1 { headers = headers }
      after_acpi k2 (acpi_init mach.word mach.literals k2.heap.mem mach.rsdp k2.acpi))

-- ===== src/Start/Booting.antt =====
-- What `init` of kernel/init.c reaches on a machine that has all it needs.
use sesh_os.Base.{
  ℕ, ◌+◌, ◌^◌, ◌<◌, ◌≡◌, ◌≢◌, refl, sym, ap, ◌∙◌, inl, inr, arith, true, false, List, [], ◌∷◌, ◌++◌,
  ◌==◌, if◌then◌else◌, length, Bool-cases, ne→==,
}
use sesh_os.Base.Memory.{Memory}
use sesh_os.Base.Words.{load32}
use sesh_os.Base.Run.{done, bind-done}
use sesh_os.Mem.{MemmapEntry}
use sesh_os.Mem.Compare.{SameBytes}
use sesh_os.Heap.{Heap, mem_init}
use sesh_os.Tty.{Tty, com_log_wrapper, set_write_func}
use sesh_os.Boot.Logging.{boot_check_loader}
use sesh_os.Idt.{InterruptEntry}
use sesh_os.Idt.Table.{AreAddresses, Installed, create_entries-Installed}
use sesh_os.Ramfs.Headers.{Archive, From, addresses, parse-addresses}
use sesh_os.Acpi.{Acpi, entry, entries}
use sesh_os.Acpi.Tables.{IsMcfg, LastMcfg, acpi_init-LastMcfg}
use mathlib.Core.Path.{subst}
use sesh_os.Pci.{Event, print_names, ahci_init, enumerate_pci}
use sesh_os.Pci.Visited.{Printed}
use sesh_os.Pci.Printing.Lines.{known_line, Lines, print_events-Known}
use mathlib.Core.Option.{none}
use sesh_os.Start.{
  limine_memmap_usable, heap_loop, lm_check, Machine, Kernel, booted, until_driver, has_driver,
  enumerated, after_acpi, early, init,
}

-- The base of the last usable region, or the place that the heap had.
abbrev pub last_usable : List MemmapEntry → ℕ → ℕ
last_usable [] space = space
last_usable (e ∷ es) space =
    last_usable es (if e.typ == limine_memmap_usable then e.base else space)

heap_loop-last_usable :
    (es : List MemmapEntry) (h : Heap)
    → heap_loop es h ≡ record h { space = last_usable es h.space }
unfolding heap_loop mem_init
heap_loop-last_usable [] h = refl
heap_loop-last_usable (e ∷ es) h = elim (Bool-cases (e.typ == limine_memmap_usable)) [
  | inl usable ↦ rw usable (heap_loop-last_usable es (record h { space = e.base }))
  | inr other ↦ rw other (heap_loop-last_usable es h)
]

-- What the first half of `init` leaves.
pub record Early (mach : Machine) (k : Kernel) (m : Memory) (k1 : Kernel) : Type 0 where
  pub heap : k1.heap ≡ record (k.heap) { mem = m; space = last_usable mach.memory_map k.heap.space }
  pub idt : Installed k1.idt mach.handlers
  pub headers : k1.headers ≡ k.headers
  pub acpi : k1.acpi ≡ k.acpi
  pub events : k1.events ≡ k.events
  pub hex_output : k1.hex_output ≡ k.hex_output
  pub printed : k1.printed ≡ k.printed

pub early-Early :
    (font : ℕ → ℕ → ℕ) (sprintf : (module_ color msg : List ℕ) → List ℕ)
    (text_at : Memory → ℕ → List ℕ) (fuel : ℕ) (mach : Machine) (k : Kernel) (u : Tty) (m : Memory)
    (id : ℕ)
    → boot_check_loader font sprintf text_at fuel mach.loader_name mach.loader_version
        (set_write_func k.tty com_log_wrapper)
        k.heap.mem
        k.loader_id
        (lm_check mach.bootloader_info)
      ≡ done (u, m, id)
    → length k.idt ≡ 256
    → AreAddresses mach.handlers
    → (k1 : Kernel) × (early font sprintf text_at fuel mach k ≡ done k1) × Early mach k m k1
unfolding early
early-Early font sprintf text_at fuel mach k u m id checked size fit =
    let (idt, creates, installed) = create_entries-Installed mach.handlers k.idt size fit in
    (
      _,
      bind-done _ checked (bind-done _ creates refl),
      record {
        heap = heap_loop-last_usable mach.memory_map (record (k.heap) { mem = m });
        idt = installed;
        headers = refl;
        acpi = refl;
        events = refl;
        hex_output = refl;
        printed = refl;
      },
    )

-- A memory with all that the second half looks for: an archive with files of the sizes given, and a
-- root table behind a descriptor with an MCFG among its tables, none of which is at 0.
pub record Bootable (mach : Machine) (m : Memory) (sizes : List ℕ) (rsdt : ℕ) : Type 0 where
  pub present : mach.initramfs ≢ 0
  pub archive : Archive m mach.archive sizes
  pub low : mach.archive < 2 ^ 32
  pub few : length sizes < 32
  pub signed : SameBytes m mach.rsdp mach.literals.rsd_ptr 8
  pub pointed : load32 m (mach.rsdp + 16) ≡ rsdt
  pub root : SameBytes m rsdt mach.literals.rsdt 4
  pub mcfg : (j : ℕ) × (j < entries m rsdt) × IsMcfg mach.literals m rsdt j
  pub nonzero : (j : ℕ) → j < entries m rsdt → entry m rsdt j ≢ 0

-- The last MCFG is there.
LastMcfg-nonzero :
    (mach : Machine) (m : Memory) (sizes : List ℕ) (rsdt old mcfg : ℕ)
    → Bootable mach m sizes rsdt
    → LastMcfg mach.literals m rsdt 0 (entries m rsdt) old mcfg
    → mcfg ≢ 0
LastMcfg-nonzero mach m sizes rsdt old mcfg b (inl (k, l, r, is, e, last)) z =
    b.nonzero k r (sym e ∙ z)
LastMcfg-nonzero mach m sizes rsdt old mcfg b (inr (same, never)) z =
    let (j, l, is) = b.mcfg in never j (omega arith) l is

-- What the second half of `init` leaves of the kernel `k1` of the first.
pub record Late (mach : Machine) (m : Memory) (sizes : List ℕ) (rsdt : ℕ) (k1 k2 : Kernel)
    : Type 0 where
  pub heap : k2.heap ≡ k1.heap
  pub idt : k2.idt ≡ k1.idt
  pub headers : From k2.headers 0 (addresses mach.archive sizes)
  pub mcfg : LastMcfg mach.literals m rsdt 0 (entries m rsdt) k1.acpi.mcfg k2.acpi.mcfg
  pub events : k2.events ≡ k1.events ++ enumerate_pci m k2.acpi.mcfg
  pub text : List ℕ
  pub printed : k2.printed ≡ k1.printed ++ text
  pub lines : Lines m (enumerate_pci m k2.acpi.mcfg) text

until_driver-all : (events : List Event) → has_driver events ≡ false → until_driver events ≡ events
unfolding until_driver has_driver
until_driver-all [] h = refl
until_driver-all (print_names a ∷ events) h =
    ap (λ (es : List Event). print_names a ∷ es) (until_driver-all events h)
until_driver-all (ahci_init a ∷ events) h = absurd (true_not_false h)
  where
    true_not_false : true ≡ false → ⊥
    true_not_false e = ground arith

-- A walk that meets no AHCI controller, and only functions whose names are all known.
abbrev pub Printable : Memory → (mcfg : ℕ) → Type 0
Printable m mcfg =
    (has_driver (enumerate_pci m mcfg) ≡ false)
    × ((a : ℕ) → Printed a (enumerate_pci m mcfg) → known_line m a ≢ none)

-- The last MCFG of the root table, whichever it is, leads to such a walk.
abbrev pub PrintableAfter : Machine → Memory → (rsdt : ℕ) → Acpi → Type 0
PrintableAfter mach m rsdt a =
    (mcfg : ℕ) → LastMcfg mach.literals m rsdt 0 (entries m rsdt) a.mcfg mcfg → Printable m mcfg

enumerated-booted :
    (k : Kernel)
    → k.acpi.mcfg ≢ 0
    → length k.hex_output ≡ 128
    → Printable k.heap.mem k.acpi.mcfg
    → (text : List ℕ) × (enumerated k
        ≡ done (
            booted (record k {
              events = k.events ++ enumerate_pci k.heap.mem k.acpi.mcfg;
              printed = k.printed ++ text;
            })))
      × Lines k.heap.mem (enumerate_pci k.heap.mem k.acpi.mcfg) text
unfolding enumerated
enumerated-booted k ne size (quiet, known) =
    let (text, prints, lines) =
      (print_events-Known k.hex_output k.heap.mem k.acpi.mcfg size).0 known in
    (
      text,
      rw
          (
            ne→== k.acpi.mcfg 0 ne,
            until_driver-all (enumerate_pci k.heap.mem k.acpi.mcfg) quiet,
            quiet,
          )
          (bind-done _ prints refl),
      lines,
    )

init-Late :
    (font : ℕ → ℕ → ℕ) (sprintf : (module_ color msg : List ℕ) → List ℕ)
    (text_at : Memory → ℕ → List ℕ) (fuel : ℕ) (mach : Machine) (k k1 : Kernel) (sizes : List ℕ)
    (rsdt : ℕ)
    → early font sprintf text_at fuel mach k ≡ done k1
    → Bootable mach k1.heap.mem sizes rsdt
    → length k1.headers ≡ 32
    → length k1.hex_output ≡ 128
    → PrintableAfter mach k1.heap.mem rsdt k1.acpi
    → length sizes < fuel
    → (k2 : Kernel) × (init font sprintf text_at fuel mach k ≡ done (booted k2))
      × Late mach k1.heap.mem sizes rsdt k1 k2
unfolding init after_acpi
init-Late font sprintf text_at fuel mach k k1 sizes rsdt begins b places size printable enough =
    let m = k1.heap.mem in
    let (hs, parses, from) =
      parse-addresses fuel m mach.archive sizes k1.headers b.archive b.low places b.few enough in
    let (a, searches, last) =
      acpi_init-LastMcfg mach.word mach.literals m mach.rsdp rsdt k1.acpi b.signed b.pointed
        b.root in
    let k2 : Kernel = record k1 { headers = hs; acpi = a } in
    let (text, walks, lines) =
      enumerated-booted k2 (LastMcfg-nonzero mach m sizes rsdt _ _ b last) size
        (printable a.mcfg last) in
    (
      record k2 { events = k1.events ++ enumerate_pci m a.mcfg; printed = k1.printed ++ text },
      bind-done _ begins (
          rw (ne→== mach.initramfs 0 b.present)
            (bind-done _ parses (ap (after_acpi (record k1 { headers = hs })) searches ∙ walks))),
      record {
        heap = refl;
        idt = refl;
        headers = from;
        mcfg = last;
        events = refl;
        text = text;
        printed = refl;
        lines = lines;
      },
    )

-- When the boot loader's check returns, and the memory then has an archive, its tables' signatures and
-- an MCFG, behind which there is no AHCI controller and no function without known names, `init`
-- reaches its end: the heap is in the last usable region, the six interrupt handlers are installed,
-- the files of the archive are known, `mcfg` is the last MCFG of the root table, and it is the one
-- whose buses are walked, with a line printed for each function.
pub init-booted :
    (font : ℕ → ℕ → ℕ) (sprintf : (module_ color msg : List ℕ) → List ℕ)
    (text_at : Memory → ℕ → List ℕ) (fuel : ℕ) (mach : Machine) (k : Kernel) (u : Tty) (m : Memory)
    (id : ℕ) (sizes : List ℕ) (rsdt : ℕ)
    → boot_check_loader font sprintf text_at fuel mach.loader_name mach.loader_version
        (set_write_func k.tty com_log_wrapper)
        k.heap.mem
        k.loader_id
        (lm_check mach.bootloader_info)
      ≡ done (u, m, id)
    → length k.idt ≡ 256
    → AreAddresses mach.handlers
    → Bootable mach m sizes rsdt
    → length k.headers ≡ 32
    → length k.hex_output ≡ 128
    → PrintableAfter mach m rsdt k.acpi
    → length sizes < fuel
    → (k2 : Kernel) × (text : List ℕ) × (init font sprintf text_at fuel mach k ≡ done (booted k2))
      × (k2.heap ≡ record (k.heap) { mem = m; space = last_usable mach.memory_map k.heap.space })
      × Installed k2.idt mach.handlers
      × From k2.headers 0 (addresses mach.archive sizes)
      × LastMcfg mach.literals m rsdt 0 (entries m rsdt) k.acpi.mcfg k2.acpi.mcfg
      × (k2.events ≡ k.events ++ enumerate_pci m k2.acpi.mcfg)
      × Lines m (enumerate_pci m k2.acpi.mcfg) text
      × (k2.printed ≡ k.printed ++ text)
init-booted font sprintf text_at fuel mach k u m id sizes rsdt checked handlers fit b places size
      printable enough =
    let (k1, begins, e) =
      early-Early font sprintf text_at fuel mach k u m id checked handlers fit in
    let same : k1.heap.mem ≡ m = ap (λ (h : Heap). h.mem) e.heap in
    let prints : PrintableAfter mach k1.heap.mem rsdt k1.acpi =
      subst (λ (a : Acpi). PrintableAfter mach k1.heap.mem rsdt a) (sym e.acpi)
        (subst (λ (q : Memory). PrintableAfter mach q rsdt k.acpi) (sym same) printable) in
    let (k2, runs, l) =
      init-Late font sprintf text_at fuel mach k k1 sizes rsdt begins
        (subst (λ (q : Memory). Bootable mach q sizes rsdt) (sym same) b)
        (ap (λ (hs : List ℕ). length hs) e.headers ∙ places)
        (ap (λ (hs : List ℕ). length hs) e.hex_output ∙ size) prints enough in
    (
      k2,
      l.text,
      runs,
      l.heap ∙ e.heap,
      subst (λ (t : List InterruptEntry). Installed t mach.handlers) (sym l.idt) e.idt,
      l.headers,
      subst
          (λ (q : Memory).
            LastMcfg mach.literals q rsdt 0 (entries q rsdt) k.acpi.mcfg k2.acpi.mcfg)
          same
          (subst
            (λ (a : Acpi).
              LastMcfg mach.literals k1.heap.mem rsdt 0 (entries k1.heap.mem rsdt) a.mcfg
                k2.acpi.mcfg)
            e.acpi l.mcfg),
      l.events
          ∙ ap (λ (events : List Event). events ++ enumerate_pci k1.heap.mem k2.acpi.mcfg) e.events
          ∙ ap (λ (q : Memory). k.events ++ enumerate_pci q k2.acpi.mcfg) same,
      subst (λ (q : Memory). Lines q (enumerate_pci q k2.acpi.mcfg) l.text) same l.lines,
      l.printed ∙ ap (λ (before : List ℕ). before ++ l.text) e.printed,
    )

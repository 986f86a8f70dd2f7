-- ===== src/Start/Failing.antt =====
-- How `init` of kernel/init.c fails.
use sesh_os.Base.{
  ℕ, ◌+◌, ◌^◌, ◌<◌, ◌≡◌, ◌≢◌, refl, sym, ap, ◌∙◌, ◌⊎◌, inl, inr, List, length, ne→==,
}
use mathlib.Core.Path.{subst}
use sesh_os.Base.Memory.{Memory}
use sesh_os.Base.Words.{load32}
use sesh_os.Base.Run.{done, bind-done}
use sesh_os.Mem.Compare.{SameBytes}
use sesh_os.Heap.{Heap}
use sesh_os.Tty.{Tty, com_log_wrapper, set_write_func}
use sesh_os.Boot.Logging.{boot_check_loader}
use sesh_os.Idt.Table.{AreAddresses}
use sesh_os.Ramfs.Headers.{Archive, parse-addresses}
use sesh_os.Acpi.{Acpi, Ending, returned, panicked, acpi_init}
use sesh_os.Acpi.Tables.{acpi_init-error}
use sesh_os.Start.{
  lm_check, Machine, Kernel, Boot, no_ramdisk, bad_table, no_mcfg, enumerated, after_acpi, early,
  init,
}
use sesh_os.Start.Booting.{early-Early}

-- There is an archive, but a signature is wrong.
pub record Unsigned (mach : Machine) (m : Memory) (sizes : List ℕ) : Type 0 where
  pub present : mach.initramfs ≢ 0
  pub archive : Archive m mach.archive sizes
  pub low : mach.archive < 2 ^ 32
  pub few : length sizes < 32
  pub unsigned :
      (¬ SameBytes m mach.rsdp mach.literals.rsd_ptr 8)
      ⊎ (¬ SameBytes m (load32 m (mach.rsdp + 16)) mach.literals.rsdt 4)

-- The kernel panicked, with nothing seen on the PCI buses since `k`.
abbrev pub Panicked : Boot → (k k2 : Kernel) → Type 0
Panicked stop k k2 =
    ((stop ≡ no_ramdisk k2) ⊎ (stop ≡ bad_table k2) ⊎ (stop ≡ no_mcfg k2)) × (k2.events ≡ k.events)

enumerated-no_mcfg : (k : Kernel) → k.acpi.mcfg ≡ 0 → enumerated k ≡ done (no_mcfg k)
unfolding enumerated
enumerated-no_mcfg k e = rw e refl

after_acpi-Panicked :
    (k : Kernel) (ending : Ending) (a : Acpi)
    → (ending ≡ returned a) ⊎ (ending ≡ panicked a)
    → a.mcfg ≡ 0
    → (stop : Boot) × (k2 : Kernel) × (after_acpi k ending ≡ done stop) × Panicked stop k k2
unfolding after_acpi
after_acpi-Panicked k ending a (inl e) none_ =
    let k2 = record k { acpi = a } in
    (no_mcfg k2, k2, ap (after_acpi k) e ∙ enumerated-no_mcfg k2 none_, (inr (inr refl), refl))
after_acpi-Panicked k ending a (inr e) none_ =
    let k2 = record k { acpi = a } in
    (bad_table k2, k2, ap (after_acpi k) e, (inr (inl refl), refl))

init-Unsigned :
    (font : ℕ → ℕ → ℕ) (sprintf : (module_ color msg : List ℕ) → List ℕ)
    (text_at : Memory → ℕ → List ℕ) (fuel : ℕ) (mach : Machine) (k k1 : Kernel) (sizes : List ℕ)
    → early font sprintf text_at fuel mach k ≡ done k1
    → Unsigned mach k1.heap.mem sizes
    → length k1.headers ≡ 32
    → length sizes < fuel
    → k1.acpi.mcfg ≡ 0
    → (stop : Boot) × (k2 : Kernel) × (init font sprintf text_at fuel mach k ≡ done stop)
      × Panicked stop k1 k2
unfolding init
init-Unsigned font sprintf text_at fuel mach k k1 sizes begins u places enough none_ =
    let m = k1.heap.mem in
    let (hs, parses, from) =
      parse-addresses fuel m mach.archive sizes k1.headers u.archive u.low places u.few enough in
    let (a, _, _, ends, kept, _, _) =
      acpi_init-error mach.word mach.literals m mach.rsdp k1.acpi u.unsigned in
    let k2 : Kernel = record k1 { headers = hs } in
    let ending = acpi_init mach.word mach.literals m mach.rsdp k1.acpi in
    let (stop, k3, stops, how) = after_acpi-Panicked k2 ending a ends (kept ∙ none_) in
    (
      stop,
      k3,
      bind-done _ begins (rw (ne→== mach.initramfs 0 u.present) (bind-done _ parses stops)),
      how,
    )

-- When the first half of `init` succeeds but there is no ram disk, or there is one and the
-- signature of the descriptor or of the root table is wrong, `init` panics and no PCI bus is walked.
pub init-panics :
    (font : ℕ → ℕ → ℕ) (sprintf : (module_ color msg : List ℕ) → List ℕ)
    (text_at : Memory → ℕ → List ℕ) (fuel : ℕ) (mach : Machine) (k : Kernel) (u : Tty) (m : Memory)
    (id : ℕ) (sizes : List ℕ)
    → boot_check_loader font sprintf text_at fuel mach.loader_name mach.loader_version
        (set_write_func k.tty com_log_wrapper)
        k.heap.mem
        k.loader_id
        (lm_check mach.bootloader_info)
      ≡ done (u, m, id)
    → length k.idt ≡ 256
    → AreAddresses mach.handlers
    → length k.headers ≡ 32
    → length sizes < fuel
    → k.acpi.mcfg ≡ 0
    → (mach.initramfs ≡ 0) ⊎ Unsigned mach m sizes
    → (stop : Boot) × (k2 : Kernel) × (init font sprintf text_at fuel mach k ≡ done stop)
      × Panicked stop k k2
unfolding init
init-panics font sprintf text_at fuel mach k u m id sizes checked size fit places enough none_
      (inl missing) =
    let (k1, begins, e) = early-Early font sprintf text_at fuel mach k u m id checked size fit in
    (no_ramdisk k1, k1, bind-done _ begins (rw missing refl), (inl refl, e.events))
init-panics font sprintf text_at fuel mach k u m id sizes checked size fit places enough none_
      (inr bad) =
    let (k1, begins, e) = early-Early font sprintf text_at fuel mach k u m id checked size fit in
    let same : k1.heap.mem ≡ m = ap (λ (h : Heap). h.mem) e.heap in
    let (stop, k2, runs, (how, events)) =
      init-Unsigned font sprintf text_at fuel mach k k1 sizes begins
        (subst (λ (q : Memory). Unsigned mach q sizes) (sym same) bad)
        (ap (λ (hs : List ℕ). length hs) e.headers ∙ places) enough
        (ap (λ (a : Acpi). a.mcfg) e.acpi ∙ none_) in
    (stop, k2, runs, (how, events ∙ e.events))

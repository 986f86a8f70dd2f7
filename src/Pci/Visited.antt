-- ===== src/Pci/Visited.antt =====
-- Which functions the walk over the configuration space finds.
use sesh_os.Base.{
  ℕ, zero, suc, ◌+◌, ◌-◌, ◌*◌, ◌^◌, ◌<◌, ◌≤◌, ◌≡◌, refl, sym, ◌⊎◌, ◌↔◌, inl, inr, Bool, true, false,
  List, [], ◌∷◌, ◌++◌, ◌==◌, if◌then◌else◌, Bool-cases, arith, u64, ==→eq,
}
use mathlib.Core.Path.{subst}
use sesh_os.Base.Memory.{Memory}
use sesh_os.Base.Words.{load64}
use sesh_os.Pci.{
  Event, print_names, ahci_init, is_absent, for_range, enumerate_function, enumerate_device,
  enumerate_bus, enumerate_config,
}

-- The line of the function at `a` is printed.
abbrev pub Printed : ℕ → List Event → Type 0
Printed a [] = ⊥
Printed a (print_names b ∷ es) = (a ≡ b) ⊎ Printed a es
Printed a (ahci_init b ∷ es) = Printed a es

Printed-append : (a : ℕ) (xs ys : List Event) → Printed a (xs ++ ys) ↔ (Printed a xs ⊎ Printed a ys)
Printed-append a [] ys = (inr, λ h. elim h [ inl x ↦ absurd x | inr y ↦ y ])
Printed-append a (print_names b ∷ xs) ys = (
  λ h. elim h [
    | inl e ↦ inl (inl e)
    | inr t ↦ elim ((Printed-append a xs ys).0 t) [ inl x ↦ inl (inr x) | inr y ↦ inr y ]
  ],
  λ h. elim h [
    | inl (inl e) ↦ inl e
    | inl (inr x) ↦ inr ((Printed-append a xs ys).1 (inl x))
    | inr y ↦ inr ((Printed-append a xs ys).1 (inr y))
  ],
)
Printed-append a (ahci_init b ∷ xs) ys = Printed-append a xs ys

-- A round of the loop prints it.
abbrev pub InRange : (lo hi a : ℕ) → (ℕ → List Event) → Type 0
InRange lo hi a body = (k : ℕ) × (lo ≤ k) × (k < hi) × Printed a (body k)

for_range-InRange :
    (left i : ℕ) (a : ℕ) (body : ℕ → List Event)
    → Printed a (for_range left i body) ↔ InRange i (i + left) a body
unfolding for_range
for_range-InRange zero i a body = ((λ h. absurd h), λ h. absurd (omega (arith, h.1, h.2)))
for_range-InRange (suc left) i a body = (
  λ h. elim ((Printed-append a (body i) (for_range left (i + 1) body)).0 h) [
    | inl now ↦ (i, omega arith, omega arith, now)
    | inr later ↦
        let (k, lo, hi, p) = (for_range-InRange left (i + 1) a body).0 later in
        (k, omega arith, omega arith, p)
  ],
  λ h.
      (Printed-append a (body i) (for_range left (i + 1) body)).1
        (split (for_range-InRange left (i + 1) a body).1 h),
)
  where
    split :
        (InRange (i + 1) (i + 1 + left) a body → Printed a (for_range left (i + 1) body))
        → InRange i (i + suc left) a body
        → Printed a (body i) ⊎ Printed a (for_range left (i + 1) body)
    split rest (k, lo, hi, p) = elim (Bool-cases (i == k)) [
      | inl now ↦ inl (subst (λ (n : ℕ). Printed a (body n)) (sym (==→eq i k now)) p)
      | inr later ↦ inr (rest (k, ground arith, omega arith, p))
    ]

guarded :
    (a : ℕ) (b : Bool) (es : List Event)
    → Printed a (if b then [] else es) ↔ ((b ≡ false) × Printed a es)
guarded a true es = ((λ h. absurd h), λ h. absurd (ground (arith, h.0)))
guarded a false es = ((λ h. (refl, h)), λ h. h.1)

-- The addresses that the walk computes for a bus, a device and a function.
abbrev pub bus_at : (base bus : ℕ) → ℕ
bus_at base bus = u64 (base + bus * 2 ^ 20)

abbrev pub device_at : (base bus device : ℕ) → ℕ
device_at base bus device = u64 (bus_at base bus + device * 2 ^ 15)

abbrev pub function_at : (base bus device function : ℕ) → ℕ
function_at base bus device function = u64 (device_at base bus device + function * 2 ^ 12)

enumerate_function-Printed :
    (m : Memory) (device function a : ℕ)
    → Printed a (enumerate_function m device function) ↔ (
        (is_absent m (u64 (device + function * 2 ^ 12)) ≡ false)
        × (a ≡ u64 (device + function * 2 ^ 12)))
unfolding enumerate_function
enumerate_function-Printed m device function a =
    let at = u64 (device + function * 2 ^ 12) in
    let gate = guarded a (is_absent m at) in
    (λ h. let (there, p) = (gate _).0 h in (there, printed _ p), λ h. (gate _).1 (h.0, inl h.1))
  where
    printed :
        {b : ℕ} (c : Bool)
        → Printed a (print_names b ∷ (if c then ahci_init b ∷ [] else []))
        → a ≡ b
    printed true (inl e) = e
    printed false (inl e) = e
    printed true (inr e) = absurd e
    printed false (inr e) = absurd e

-- The function is found: its bus, its device and itself answer at their own addresses.
pub record Found (m : Memory) (base bus device function a : ℕ) : Type 0 where
  pub bus_there : is_absent m (bus_at base bus) ≡ false
  pub device_there : is_absent m (device_at base bus device) ≡ false
  pub function_there : is_absent m (function_at base bus device function) ≡ false
  pub here : a ≡ function_at base bus device function

enumerate_device-Printed :
    (m : Memory) (bus device a : ℕ)
    → Printed a (enumerate_device m bus device) ↔ (
        (is_absent m (u64 (bus + device * 2 ^ 15)) ≡ false)
        × InRange 0 8 a (enumerate_function m (u64 (bus + device * 2 ^ 15))))
unfolding enumerate_device
enumerate_device-Printed m bus device a =
    let at = u64 (bus + device * 2 ^ 15) in
    let gate = guarded a (is_absent m at) (for_range 8 0 (enumerate_function m at)) in
    let range = for_range-InRange 8 0 a (enumerate_function m at) in
    (λ h. ((gate.0 h).0, range.0 (gate.0 h).1), λ h. gate.1 (h.0, range.1 h.1))

enumerate_bus-Printed :
    (m : Memory) (base bus a : ℕ)
    → Printed a (enumerate_bus m base bus) ↔ (
        (is_absent m (bus_at base bus) ≡ false)
        × InRange 0 32 a (enumerate_device m (bus_at base bus)))
unfolding enumerate_bus
enumerate_bus-Printed m base bus a =
    let at = bus_at base bus in
    let gate = guarded a (is_absent m at) (for_range 32 0 (enumerate_device m at)) in
    let range = for_range-InRange 32 0 a (enumerate_device m at) in
    (λ h. ((gate.0 h).0, range.0 (gate.0 h).1), λ h. gate.1 (h.0, range.1 h.1))

-- The walk over one `DeviceConfig` prints the line of a function exactly if its bus lies from
-- `StartBus` on and below `EndBus`, and function 0 of device 0 of the bus, function 0 of the device,
-- and the function itself have a device id that is neither 0 nor 0xFFFF.
pub enumerate_config-Found :
    (m : Memory) (config a : ℕ)
    → Printed a (enumerate_config m config) ↔ (
        (bus : ℕ) × (device : ℕ) × (function : ℕ) × (m (config + 10) ≤ bus)
        × (bus < m (config + 11))
        × (device < 32)
        × (function < 8)
        × Found m (load64 m config) bus device function a)
unfolding enumerate_config
enumerate_config-Found m config a =
    let base = load64 m config in
    let start = m (config + 10) in
    let range = for_range-InRange (m (config + 11) - start) start a (enumerate_bus m base) in
    (
      λ h.
          let (bus, lo, hi, p) = range.0 h in
          let (bus_there, devices) = (enumerate_bus-Printed m base bus a).0 p in
          let (device, _, dev_hi, q) = devices in
          let (device_there, functions) =
            (enumerate_device-Printed m (bus_at base bus) device a).0 q in
          let (function, _, fn_hi, r) = functions in
          let (function_there, here) =
            (enumerate_function-Printed m (device_at base bus device) function a).0 r in
          (
            bus,
            device,
            function,
            lo,
            omega arith,
            dev_hi,
            fn_hi,
            record {
              bus_there = bus_there;
              device_there = device_there;
              function_there = function_there;
              here = here;
            },
          ),
      λ h.
          let (bus, device, function, lo, hi, dev_hi, fn_hi, found) = h in
          range.1 (
            bus,
            lo,
            omega arith,
            (enumerate_bus-Printed m base bus a).1 (
              found.bus_there,
              (
                device,
                omega arith,
                dev_hi,
                (enumerate_device-Printed m (bus_at base bus) device a).1 (
                  found.device_there,
                  (
                    function,
                    omega arith,
                    fn_hi,
                    (enumerate_function-Printed m (device_at base bus device) function a).1
                        (found.function_there, found.here),
                  ),
                ),
              ),
            ),
          ),
    )

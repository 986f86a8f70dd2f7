-- ===== src/Pci/Printing/Lines.antt =====
-- When the walk of kernel/pci/pci.c prints all its lines.
use sesh_os.Base.{
  ℕ, ◌≡◌, ◌≢◌, refl, sym, ap, ◌∙◌, Option, none, some, List, [], ◌∷◌, ◌++◌, ◌==◌, if◌then◌else◌,
  length, get_elem?, inl, inr,
}
use sesh_os.Base.Run.{Run, done, fault, fetched, bind-done, ◌>>=◌}
use sesh_os.Base.Memory.{Memory}
use sesh_os.Base.Text.{codes}
use sesh_os.Str.Hex.Digits.{to_hstring-fault}
use sesh_os.Pci.{Event, print_names, ahci_init, device_id, prog_if, subclass, class, enumerate_pci}
use sesh_os.Pci.Names.{
  named_or_hex, known_vendor, known_intel_device, known_subclass, known_interface, get_vendor_name,
  get_device_name, get_subclass_name, get_prog_if_name,
}
use sesh_os.Pci.Visited.{Printed}
use sesh_os.Pci.Printing.{device_classes, vendor_id, slash, device_line, print_events}

-- A name is returned when the switch has it; otherwise `to_hstring` reads outside its argument.
named_or_hex-fetched :
    (name : Option (List ℕ)) (value : ℕ) (out : List ℕ)
    → length out ≡ 128
    → named_or_hex name value out ≡ fetched name
unfolding named_or_hex
named_or_hex-fetched none value out l = to_hstring-fault value out l
named_or_hex-fetched (some name) value out l = refl

-- The five names of a line put together, if they are all known.
abbrev pub joined :
    (vendor device class_name subclass_name interface : Option (List ℕ)) → Option (List ℕ)
joined (some v) (some d) (some c) (some s) (some i) =
    some (v ++ slash ++ d ++ slash ++ c ++ slash ++ s ++ slash ++ i ++ codes "\n")
joined _ _ _ _ _ = none

-- The line of a function by the switches alone.
abbrev pub known_line : Memory → ℕ → Option (List ℕ)
known_line m a =
    joined (known_vendor (vendor_id m a))
      (if vendor_id m a == 0x8086 then known_intel_device (device_id m a) else none)
      (get_elem? device_classes (class m a)) (known_subclass (class m a) (subclass m a))
      (known_interface (class m a) (subclass m a) (prog_if m a))

fetched-joined :
    (v d c s i : Option (List ℕ))
    → (fetched v >>= λ v1. fetched d >>= λ d1. fetched c >>= λ c1. fetched s >>= λ s1.
        fetched i >>= λ i1.
        done (v1 ++ slash ++ d1 ++ slash ++ c1 ++ slash ++ s1 ++ slash ++ i1 ++ codes "\n"))
      ≡ fetched (joined v d c s i)
fetched-joined none d c s i = refl
fetched-joined (some v) none c s i = refl
fetched-joined (some v) (some d) none s i = refl
fetched-joined (some v) (some d) (some c) none i = refl
fetched-joined (some v) (some d) (some c) (some s) none = refl
fetched-joined (some v) (some d) (some c) (some s) (some i) = refl

pub device_line-known_line :
    (out : List ℕ) (m : Memory) (a : ℕ)
    → length out ≡ 128
    → device_line out m a ≡ fetched (known_line m a)
unfolding device_line get_vendor_name get_device_name get_subclass_name get_prog_if_name
device_line-known_line out m a l =
    rw
      (
        named_or_hex-fetched (known_vendor (vendor_id m a)) (vendor_id m a) out l,
        named_or_hex-fetched
            (if vendor_id m a == 0x8086 then known_intel_device (device_id m a) else none)
            (device_id m a) out l,
        named_or_hex-fetched (known_subclass (class m a) (subclass m a)) (subclass m a) out l,
        named_or_hex-fetched (known_interface (class m a) (subclass m a) (prog_if m a))
            (prog_if m a) out l,
      )
      (fetched-joined _ _ _ _ _)

fetched-fault :
    (line : Option (List ℕ)) (r : Run (List ℕ))
    → r ≡ fault
    → (fetched line >>= λ x. r >>= λ rest. done (x ++ rest)) ≡ fault
fetched-fault none r e = refl
fetched-fault (some text) r e = ap (λ (q : Run (List ℕ)). q >>= λ rest. done (text ++ rest)) e

-- A line that is not known, printed by a walk, is a read outside an array.
print_events-fault :
    (out : List ℕ) (m : Memory) (events : List Event) (a : ℕ)
    → length out ≡ 128
    → Printed a events
    → known_line m a ≡ none
    → print_events out m events ≡ fault
unfolding print_events
print_events-fault out m [] a l p unknown = absurd p
print_events-fault out m (print_names b ∷ events) a l (inl here) unknown =
    rw
      (
        device_line-known_line out m b l ∙ ap (λ (c : ℕ). fetched (known_line m c)) (sym here),
        unknown,
      )
      refl
print_events-fault out m (print_names b ∷ events) a l (inr later) unknown =
    rw (device_line-known_line out m b l)
      (fetched-fault (known_line m b) _ (print_events-fault out m events a l later unknown))
print_events-fault out m (ahci_init b ∷ events) a l p unknown =
    print_events-fault out m events a l p unknown

-- The lines of a walk, all of which are known.
pub data Lines (m : Memory) : List Event → List ℕ → Type 0 where
  no_line : Lines m [] []
  line :
      {a : ℕ} {events : List Event} {text rest : List ℕ}
      → known_line m a ≡ some text
      → Lines m events rest
      → Lines m (print_names a ∷ events) (text ++ rest)
  init :
      {a : ℕ} {events : List Event} {rest : List ℕ}
      → Lines m events rest
      → Lines m (ahci_init a ∷ events) rest

print_events-Lines :
    (out : List ℕ) (m : Memory) (events : List Event)
    → length out ≡ 128
    → ((a : ℕ) → Printed a events → known_line m a ≢ none)
    → (text : List ℕ) × (print_events out m events ≡ done text) × Lines m events text
unfolding print_events
print_events-Lines out m [] l known = ([], refl, no_line)
print_events-Lines out m (print_names b ∷ events) l known =
    let (text, k) = some_line (known_line m b) (known b (inl refl)) in
    let (rest, prints, lines) = print_events-Lines out m events l (λ a p. known a (inr p)) in
    (
      text ++ rest,
      bind-done _ (device_line-known_line out m b l ∙ ap fetched k) (bind-done _ prints refl),
      line k lines,
    )
  where
    some_line : (name : Option (List ℕ)) → name ≢ none → (text : List ℕ) × (name ≡ some text)
    some_line none h = absurd (h refl)
    some_line (some text) h = (text, refl)
print_events-Lines out m (ahci_init b ∷ events) l known =
    let (rest, prints, lines) = print_events-Lines out m events l known in
    (rest, prints, init lines)

-- A walk over the PCI buses prints the lines of its functions in order when all five names of every
-- one of them are in the tables; with a function of which one is not, it reads outside an array.
pub print_events-Known :
    (out : List ℕ) (m : Memory) (mcfg : ℕ)
    → length out ≡ 128
    → (((a : ℕ) → Printed a (enumerate_pci m mcfg) → known_line m a ≢ none)
        → (text : List ℕ) × (print_events out m (enumerate_pci m mcfg) ≡ done text)
          × Lines m (enumerate_pci m mcfg) text)
      × ((a : ℕ)
          → Printed a (enumerate_pci m mcfg)
          → known_line m a ≡ none
          → print_events out m (enumerate_pci m mcfg) ≡ fault)
print_events-Known out m mcfg l = (
  print_events-Lines out m (enumerate_pci m mcfg) l,
  λ a p. print_events-fault out m (enumerate_pci m mcfg) a l p,
)

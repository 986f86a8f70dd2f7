-- ===== src/Sata/Probe.antt =====
-- The ports that the probe finds.
use sesh_os.Base.{
  ℕ, zero, suc, ◌+◌, ◌^◌, ◌<◌, ◌≤◌, ◌≡◌, ◌≢◌, refl, ap, ◌∙◌, Bool, true, false, ◌&&◌, not, List, [],
  ◌∷◌, ◌++◌, ◌==◌, length, length-append, bit_and, Bool-cases, inl, inr, arith, ◌⊎◌, sym, ==→eq,
  ==→ne, ltb, lt→ltb, if◌then◌else◌,
}
use mathlib.Core.Path.{subst}
use sesh_os.Base.Run.{done, fault}
use sesh_os.Sata.{HbaPort, Port, check_port_type, is_drive, probe_loop, probe_ports}

-- Every port in the list is a drive on an implemented port below `n`, with its number counted from
-- `k`.
abbrev pub Drives : (implemented : ℕ) → (ℕ → HbaPort) → (n k : ℕ) → List Port → Type 0
Drives implemented hba n k [] = Unit {0}
Drives implemented hba n k (p ∷ ps) =
    (p.hba_port < n)
    × (bit_and implemented (2 ^ p.hba_port) ≢ 0)
    × (p.port_type ≡ check_port_type (hba p.hba_port))
    × (is_drive p.port_type ≡ true)
    × (p.port_number ≡ k)
    × Drives implemented hba n (k + 1) ps

Drives-append :
    (implemented : ℕ) (hba : ℕ → HbaPort) (n k : ℕ) (ps : List Port) (p : Port)
    → Drives implemented hba n k ps
    → Drives implemented hba (n + 1) (k + length ps) (p ∷ [])
    → Drives implemented hba (n + 1) k (ps ++ p ∷ [])
Drives-append implemented hba n k [] p old new =
    (new.0, new.1, new.2, new.3, omega (arith, new.4), tt)
Drives-append implemented hba n k (q ∷ ps) p old new = (
  omega (arith, old.0),
  old.1,
  old.2,
  old.3,
  old.4,
  Drives-append implemented hba n (k + 1) ps p old.5
      (new.0, new.1, new.2, new.3, omega (arith, new.4), tt),
)

Drives-mono :
    (implemented : ℕ) (hba : ℕ → HbaPort) (n k : ℕ) (ps : List Port)
    → Drives implemented hba n k ps
    → Drives implemented hba (n + 1) k ps
Drives-mono implemented hba n k [] old = tt
Drives-mono implemented hba n k (q ∷ ps) old = (
  omega (arith, old.0),
  old.1,
  old.2,
  old.3,
  old.4,
  Drives-mono implemented hba n (k + 1) ps old.5,
)

-- Port `i` of the controller is in the list.
abbrev pub Has : ℕ → List Port → Type 0
Has i [] = ⊥
Has i (p ∷ ps) = (p.hba_port ≡ i) ⊎ Has i ps

Has-append_left : (i : ℕ) (ps qs : List Port) → Has i ps → Has i (ps ++ qs)
Has-append_left i [] qs h = absurd h
Has-append_left i (p ∷ ps) qs (inl e) = inl e
Has-append_left i (p ∷ ps) qs (inr h) = inr (Has-append_left i ps qs h)

Has-append_end : (i : ℕ) (ps : List Port) (p : Port) → p.hba_port ≡ i → Has i (ps ++ p ∷ [])
Has-append_end i [] p e = inl e
Has-append_end i (q ∷ ps) p e = inr (Has-append_end i ps p e)

-- The test of the loop.
abbrev pub is_found : (implemented : ℕ) → (ℕ → HbaPort) → ℕ → Bool
is_found implemented hba i =
    not (bit_and implemented (2 ^ i) == 0) && is_drive (check_port_type (hba i))

-- The ports that the rounds before the end find, with their places.
abbrev found_loop : (left i count implemented : ℕ) → (ℕ → HbaPort) → List Port → List Port
found_loop zero i count implemented hba ports = ports
found_loop (suc left) i count implemented hba ports =
    found_loop left (i + 1) count implemented hba (
      if is_found implemented hba i
      then ports
        ++ record {
          hba_port = i;
          port_type = check_port_type (hba i);
          port_number = count + length ports;
        }
          ∷ []
      else ports)

-- What the rounds below `i` have found.
record Probed (count implemented : ℕ) (hba : ℕ → HbaPort) (i : ℕ) (ports : List Port) : Type 0 where
  drives : Drives implemented hba i count ports
  few : length ports ≤ i
  complete : (k : ℕ) → k < i → is_found implemented hba k ≡ true → Has k ports

found_bit : (b c : Bool) → (not b && c) ≡ true → (b ≡ false) × (c ≡ true)
found_bit true c h = absurd (ground arith)
found_bit false c h = (refl, h)

step-hit :
    (count implemented : ℕ) (hba : ℕ → HbaPort) (i : ℕ) (ports : List Port)
    → is_found implemented hba i ≡ true
    → Probed count implemented hba i ports
    → Probed count implemented hba (i + 1) (
        ports
        ++ record {
          hba_port = i;
          port_type = check_port_type (hba i);
          port_number = count + length ports;
        }
          ∷ [])
step-hit count implemented hba i ports hit old =
    let (bit, drive) =
      found_bit (bit_and implemented (2 ^ i) == 0) (is_drive (check_port_type (hba i))) hit in
    let p : Port = record {
      hba_port = i;
      port_type = check_port_type (hba i);
      port_number = count + length ports;
    } in
    record {
      drives =
          Drives-append implemented hba i count ports p old.drives
            (omega arith, ==→ne _ 0 bit, refl, drive, omega arith, tt);
      few = omega (arith, length-append {0} ports (p ∷ []), old.few);
      complete = λ k below found. elim (Bool-cases (k == i)) [
        | inl here ↦ Has-append_end k ports p (sym (==→eq k i here))
        | inr before ↦ Has-append_left k ports (p ∷ []) (old.complete k (ground arith) found)
      ];
    }

not_both : true ≡ false → ⊥
not_both e = ground arith

step-miss :
    (count implemented : ℕ) (hba : ℕ → HbaPort) (i : ℕ) (ports : List Port)
    → is_found implemented hba i ≡ false
    → Probed count implemented hba i ports
    → Probed count implemented hba (i + 1) ports
step-miss count implemented hba i ports miss old = record {
  drives = Drives-mono implemented hba i count ports old.drives;
  few = omega (arith, old.few);
  complete = λ k below found. elim (Bool-cases (k == i)) [
    | inl here ↦ absurd (differ k (==→eq k i here) found)
    | inr before ↦ old.complete k (ground arith) found
  ];
}
  where
    differ : (k : ℕ) → k ≡ i → is_found implemented hba k ≡ true → ⊥
    differ k e found = not_both (sym found ∙ ap (λ (n : ℕ). is_found implemented hba n) e ∙ miss)

plus_zero : (i : ℕ) → i ≡ i + 0
plus_zero i = omega arith

plus_suc : (i n : ℕ) → i + 1 + n ≡ i + suc n
plus_suc i n = omega arith

found_loop-Probed :
    (left i count implemented : ℕ) (hba : ℕ → HbaPort) (ports : List Port)
    → Probed count implemented hba i ports
    → Probed count implemented hba (i + left) (found_loop left i count implemented hba ports)
found_loop-Probed zero i count implemented hba ports old =
    subst (λ (n : ℕ). Probed count implemented hba n ports) (plus_zero i) old
found_loop-Probed (suc left) i count implemented hba ports old =
    subst
      (λ (n : ℕ).
        Probed count implemented hba n (found_loop (suc left) i count implemented hba ports))
      (plus_suc i left)
      (elim (Bool-cases (is_found implemented hba i)) [
        | inl hit ↦ rw hit (
            found_loop-Probed left (i + 1) count implemented hba _
              (step-hit count implemented hba i ports hit old))
        | inr miss ↦ rw miss (
            found_loop-Probed left (i + 1) count implemented hba ports
              (step-miss count implemented hba i ports miss old))
      ])

length-found_loop :
    (left i count implemented : ℕ) (hba : ℕ → HbaPort) (ports : List Port)
    → length ports ≤ length (found_loop left i count implemented hba ports)
length-found_loop zero i count implemented hba ports = omega arith
length-found_loop (suc left) i count implemented hba ports =
    elim (Bool-cases (is_found implemented hba i)) [
      | inl hit ↦
          let p : Port = record {
            hba_port = i;
            port_type = check_port_type (hba i);
            port_number = count + length ports;
          } in
          rw hit (
            omega (
              arith,
              length-found_loop left (i + 1) count implemented hba (ports ++ p ∷ []),
              length-append {0} ports (p ∷ []),
            ))
      | inr miss ↦ rw miss (length-found_loop left (i + 1) count implemented hba ports)
    ]

-- The loop stores what there is to find, if it has room.
probe_loop-outcome :
    (left i count implemented : ℕ) (hba : ℕ → HbaPort) (ports : List Port)
    → (count + length (found_loop left i count implemented hba ports) ≤ 32
        → probe_loop left i count implemented hba ports
          ≡ done (found_loop left i count implemented hba ports))
      × (32 < count + length (found_loop left i count implemented hba ports)
          → count + length ports ≤ 32
          → probe_loop left i count implemented hba ports ≡ fault)
unfolding probe_loop
probe_loop-outcome zero i count implemented hba ports = ((λ h. refl), λ h l. absurd (omega arith))
probe_loop-outcome (suc left) i count implemented hba ports =
    elim (Bool-cases (is_found implemented hba i)) [
      | inl hit ↦
          let p : Port = record {
            hba_port = i;
            port_type = check_port_type (hba i);
            port_number = count + length ports;
          } in
          let more = length-found_loop left (i + 1) count implemented hba (ports ++ p ∷ []) in
          let one = length-append {0} ports (p ∷ []) in
          let (stored, full) =
            probe_loop-outcome left (i + 1) count implemented hba (ports ++ p ∷ []) in
          rw hit (
            (λ h. rw (lt→ltb (count + length ports) 32 (omega (arith, more, one))) (stored h)),
            λ h l. elim (Bool-cases (ltb (count + length ports) 32)) [
              | inl room ↦ rw room (full h (ground (arith, one)))
              | inr none_ ↦ rw none_ refl
            ],
          )
      | inr miss ↦ rw miss (probe_loop-outcome left (i + 1) count implemented hba ports)
    ]

-- With `count` in the driver's memory where `portCount` stands, up to 32: the drives to find are all
-- implemented ports with an active SATA or SATAPI drive and no others, at most 32 and with their
-- places from `count` on as numbers. If `count` and they are at most 32, as with a count of 0, the
-- probe stores them, and if not, it stores one behind the array.
pub probe_ports-Drives :
    (count implemented : ℕ) (hba : ℕ → HbaPort)
    → count ≤ 32
    → (ports : List Port) × Drives implemented hba 32 count ports
      × (length ports ≤ 32)
      × ((k : ℕ) → k < 32 → is_found implemented hba k ≡ true → Has k ports)
      × (count + length ports ≤ 32 → probe_ports count implemented hba ≡ done ports)
      × (32 < count + length ports → probe_ports count implemented hba ≡ fault)
unfolding probe_ports
probe_ports-Drives count implemented hba low =
    let all =
      found_loop-Probed 32 0 count implemented hba []
        (record { drives = tt; few = omega arith; complete = λ k h f. absurd (omega arith) }) in
    let (stored, full) = probe_loop-outcome 32 0 count implemented hba [] in
    (
      found_loop 32 0 count implemented hba [],
      all.drives,
      all.few,
      all.complete,
      stored,
      λ h. full h (omega arith),
    )

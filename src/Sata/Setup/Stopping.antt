-- ===== src/Sata/Setup/Stopping.antt =====
-- When the waiting loops of a port's set-up end.
use sesh_os.Base.{
  ℕ, zero, suc, ◌+◌, ◌-◌, ◌<◌, ◌≤◌, ◌≡◌, refl, sym, ap, ◌∙◌, ◌⊎◌, false, ◌≢◌, ltb, ltb→lt, ne→==,
  ◌==◌, bit_and, bit_or, Bool-cases, inl, inr, arith, ==→ne, ==→eq,
}
use mathlib.Core.Path.{subst}
use sesh_os.Base.Run.{done, out_of_fuel, bind-done, ◌>>=◌}
use sesh_os.Sata.Setup.{
  PortRegisters, CmdSts, answer, update, looked, stop_loop, stop_cmd, start_loop, start_cmd,
}

-- From reading `n` on, the bits FR and CR are 0 while `written` is the value last written.
abbrev pub Quiet : CmdSts → (written n : ℕ) → Type 0
Quiet c written n =
    (k : ℕ) → n ≤ k → (bit_and (c k written) 0x4000 ≡ 0) × (bit_and (c k written) 0x8000 ≡ 0)

-- Only readings were made.
abbrev pub OnlyLooked : PortRegisters → PortRegisters → Type 0
OnlyLooked p p' = (p.readings ≤ p'.readings) × (p' ≡ record p { readings = p'.readings })

-- A bit that was read as not 0 was read before `n`.
early :
    (c : CmdSts) (w n k : ℕ)
    → Quiet c w n
    → (bit_and (c k w) 0x4000 == 0) ≡ false ⊎ (bit_and (c k w) 0x8000 == 0) ≡ false
    → k < n
early c w n k quiet set = elim (Bool-cases (ltb k n)) [
  | inl before ↦ ltb→lt k n before
  | inr after ↦ absurd (elim set [
    | inl fr ↦ ==→ne _ 0 fr (quiet k (ground arith)).0
    | inr cr ↦ ==→ne _ 0 cr (quiet k (ground arith)).1
  ])
]

stop_loop-ends :
    (fuel : ℕ) (c : CmdSts) (p : PortRegisters) (n : ℕ)
    → Quiet c p.cmd_sts n
    → n < p.readings + fuel
    → 0 < fuel
    → (p' : PortRegisters) × (stop_loop fuel c p ≡ done p') × OnlyLooked p p'
unfolding stop_loop
stop_loop-ends zero c p n quiet room some_fuel = absurd (omega arith)
stop_loop-ends (suc fuel) c p n quiet room some_fuel =
    elim (Bool-cases (bit_and (answer c p) 0x4000 == 0)) [
      | inl fr ↦ elim (Bool-cases (bit_and (answer c (looked p)) 0x8000 == 0)) [
        | inl cr ↦ rw (fr, cr) (looked (looked p), refl, (omega arith, refl))
        | inr busy ↦
            let before = early c p.cmd_sts n (p.readings + 1) quiet (inr busy) in
            let (p', runs, (later, same)) =
              stop_loop-ends fuel c (looked (looked p)) n quiet (omega arith) (omega arith) in
            rw (fr, busy) (p', runs, (omega arith, same))
      ]
      | inr busy ↦
          let before = early c p.cmd_sts n p.readings quiet (inl busy) in
          let (p', runs, (later, same)) =
            stop_loop-ends fuel c (looked p) n quiet (omega arith) (omega arith) in
          rw busy (p', runs, (omega arith, same))
    ]

start_loop-ends :
    (fuel : ℕ) (c : CmdSts) (p : PortRegisters) (n : ℕ)
    → Quiet c p.cmd_sts n
    → n < p.readings + fuel
    → 0 < fuel
    → (p' : PortRegisters) × (start_loop fuel c p ≡ done p')
      × OnlyLooked p p'
      × (p.readings < p'.readings)
      × (bit_and (c (p'.readings - 1) p.cmd_sts) 0x8000 ≡ 0)
unfolding start_loop
start_loop-ends zero c p n quiet room some_fuel = absurd (omega arith)
start_loop-ends (suc fuel) c p n quiet room some_fuel =
    elim (Bool-cases (bit_and (answer c p) 0x8000 == 0)) [
      | inl cr ↦ rw cr (looked p, refl, (omega arith, refl), omega arith, rw here (==→eq _ 0 cr))
      | inr busy ↦
          let before = early c p.cmd_sts n p.readings quiet (inr busy) in
          let (p', runs, (later, same), more, over) =
            start_loop-ends fuel c (looked p) n quiet (omega arith) (omega arith) in
          rw busy (p', runs, (omega arith, same), omega arith, over)
    ]
  where
    here : p.readings + 1 - 1 ≡ p.readings
    here = omega arith

-- The value that `StopCMD` writes last.
abbrev pub stopped : CmdSts → PortRegisters → PortRegisters
stopped c p = update (λ v. bit_and v 0xFFFFFFEF) c (update (λ v. bit_and v 0xFFFFFFFE) c p)

-- Only the command register may differ.
abbrev pub OnlyCommand : PortRegisters → PortRegisters → Type 0
OnlyCommand p p' = p' ≡ record p { cmd_sts = p'.cmd_sts; readings = p'.readings }

-- The last two writes set FRE and then ST in what was read before each of them, the first time from
-- the controller's answer to what `p` has.
abbrev pub Started : CmdSts → PortRegisters → PortRegisters → Type 0
Started c p p' =
    (r : ℕ) × (p.readings < r)
    × (p'.readings ≡ r + 2)
    × (p'.cmd_sts ≡ bit_or (c (r + 1) (bit_or (c r p.cmd_sts) 0x0010)) 0x0001)
    × (bit_and (c (r - 1) p.cmd_sts) 0x8000 ≡ 0)

pub stop_cmd-ends :
    (fuel : ℕ) (c : CmdSts) (p : PortRegisters) (n : ℕ)
    → Quiet c (stopped c p).cmd_sts n
    → n < p.readings + fuel
    → 0 < fuel
    → (p' : PortRegisters) × (stop_cmd fuel c p ≡ done p') × OnlyLooked (stopped c p) p'
unfolding stop_cmd
stop_cmd-ends fuel c p n quiet room some_fuel =
    stop_loop-ends fuel c (stopped c p) n quiet (omega arith) some_fuel

pub start_cmd-ends :
    (fuel : ℕ) (c : CmdSts) (p : PortRegisters) (n : ℕ)
    → Quiet c p.cmd_sts n
    → n < p.readings + fuel
    → 0 < fuel
    → (p' : PortRegisters) × (start_cmd fuel c p ≡ done p') × OnlyCommand p p' × Started c p p'
unfolding start_cmd
start_cmd-ends fuel c p n quiet room some_fuel =
    let (p1, runs, (later, same), more, over) = start_loop-ends fuel c p n quiet room some_fuel in
    let end = update (λ v. bit_or v 0x0001) c (update (λ v. bit_or v 0x0010) c p1) in
    (
      end,
      bind-done _ runs refl,
      ap (λ (q : PortRegisters). record q { cmd_sts = end.cmd_sts; readings = end.readings }) same,
      (
        p1.readings,
        more,
        omega arith,
        ap (λ (v : ℕ). bit_or (c (p1.readings + 1) (bit_or (c p1.readings v) 0x0010)) 0x0001)
            (ap (λ (q : PortRegisters). q.cmd_sts) same),
        over,
      ),
    )

-- A port's commands are stopped and started again when the controller makes the bits FR and CR 0
-- from some reading on after ST and FRE were cleared: with fuel for the readings up to there both
-- loops end, after CR was read as 0; FRE and then ST were set in what the command register was read
-- as, and no other register has changed.
pub stop_cmd-start_cmd :
    (fuel : ℕ) (c : CmdSts) (p : PortRegisters) (n : ℕ)
    → Quiet c (stopped c p).cmd_sts n
    → n < p.readings + fuel
    → 0 < fuel
    → (p' : PortRegisters) × ((stop_cmd fuel c p >>= start_cmd fuel c) ≡ done p')
      × OnlyCommand p p'
      × Started c (stopped c p) p'
stop_cmd-start_cmd fuel c p n quiet room some_fuel =
    let (p1, stops, (later, same)) = stop_cmd-ends fuel c p n quiet room some_fuel in
    let (p', starts, rest, (r, after, count, value, over)) =
      start_cmd-ends fuel c p1 n
        (subst (λ (q : PortRegisters). Quiet c q.cmd_sts n) (sym same) quiet) (omega arith)
        some_fuel in
    let held : p1.cmd_sts ≡ (stopped c p).cmd_sts = ap (λ (q : PortRegisters). q.cmd_sts) same in
    (
      p',
      bind-done _ stops starts,
      rest
          ∙ ap (λ (q : PortRegisters). record q { cmd_sts = p'.cmd_sts; readings = p'.readings })
              same,
      (
        r,
        omega arith,
        count,
        value ∙ ap (λ (v : ℕ). bit_or (c (r + 1) (bit_or (c r v) 0x0010)) 0x0001) held,
        ap (λ (v : ℕ). bit_and (c (r - 1) v) 0x8000) (sym held) ∙ over,
      ),
    )

stop_loop-endless :
    (fuel : ℕ) (c : CmdSts) (p : PortRegisters)
    → ((k : ℕ) → bit_and (c k p.cmd_sts) 0x4000 ≢ 0)
    → stop_loop fuel c p ≡ out_of_fuel
unfolding stop_loop
stop_loop-endless zero c p busy = refl
stop_loop-endless (suc fuel) c p busy =
    rw (ne→== _ 0 (busy p.readings)) (stop_loop-endless fuel c (looked p) busy)

-- With a controller that never clears FR, no fuel is enough for `StopCMD`.
pub stop_cmd-endless :
    (fuel : ℕ) (c : CmdSts) (p : PortRegisters)
    → ((k : ℕ) → bit_and (c k (stopped c p).cmd_sts) 0x4000 ≢ 0)
    → stop_cmd fuel c p ≡ out_of_fuel
unfolding stop_cmd
stop_cmd-endless fuel c p busy = stop_loop-endless fuel c (stopped c p) busy

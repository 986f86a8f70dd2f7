-- ===== src/Rtc/Sleep.antt =====
-- When `sleep` ends.
use sesh_os.Base.{
  ge→ltb, ℕ, zero, suc, ◌+◌, ◌*◌, ◌<◌, ◌≤◌, ◌≡◌, refl, arith, ltb, Bool-cases, inl, inr, lt→ltb,
  false,
}
use mathlib.Core.Path.{subst}
use sesh_os.Base.Run.{done, out_of_fuel}
use sesh_os.Rtc.{get_time, sleep_loop, sleep}

module _ (clock : ℕ → ℕ → ℕ) where
  sleep_loop-endless :
      (fuel n current old seconds : ℕ)
      → ((k : ℕ) → (get_time clock k).sec < old + seconds)
      → current < old + seconds
      → sleep_loop clock fuel n current old seconds ≡ out_of_fuel
  unfolding sleep_loop
  sleep_loop-endless zero n current old seconds below h = refl
  sleep_loop-endless (suc fuel) n current old seconds below h =
      rw (lt→ltb current (old + seconds) h)
        (sleep_loop-endless fuel (n + 8) (get_time clock n).sec old seconds below (below n))

  -- `sleep` never ends if the seconds it waits for reach over the minute: the second that it waits
  -- for is 60 or more, and the clock never shows it.
  pub sleep-endless :
      (fuel n seconds : ℕ)
      → ((k : ℕ) → (get_time clock k).sec < 60)
      → 60 ≤ (get_time clock n).sec + seconds
      → sleep clock fuel n seconds ≡ out_of_fuel
  unfolding sleep
  sleep-endless fuel n seconds below over =
      sleep_loop-endless fuel (n + 8) (get_time clock n).sec (get_time clock n).sec seconds
        (λ k. omega (arith, below k)) (omega (arith, below n))

  sleep_loop-ends :
      (rounds n current old seconds fuel : ℕ)
      → old + seconds ≤ (get_time clock (n + 8 * rounds)).sec
      → rounds + 1 < fuel
      → (r : ℕ) × (sleep_loop clock fuel n current old seconds ≡ done r)
        × (r ≤ n + 8 * (rounds + 1))
  unfolding sleep_loop
  sleep_loop-ends rounds n current old seconds zero late enough = absurd (omega arith)
  sleep_loop-ends zero n current old seconds (suc zero) late enough = absurd (omega arith)
  sleep_loop-ends zero n current old seconds (suc (suc fuel)) late enough =
      elim (Bool-cases (ltb current (old + seconds))) [
        | inr over ↦ rw over (n, refl, omega arith)
        | inl more ↦
            rw
              (
                more,
                reached
                    (subst (λ (k : ℕ). old + seconds ≤ (get_time clock k).sec) (omega arith) late),
              )
              (n + 8, refl, omega arith)
      ]
    where
      reached :
          old + seconds ≤ (get_time clock n).sec
          → ltb (get_time clock n).sec (old + seconds) ≡ false
      reached h = ge→ltb (get_time clock n).sec (old + seconds) h
  sleep_loop-ends (suc rounds) n current old seconds (suc fuel) late enough =
      elim (Bool-cases (ltb current (old + seconds))) [
        | inr over ↦ rw over (n, refl, omega arith)
        | inl more ↦
            let (r, runs, low) =
              sleep_loop-ends rounds (n + 8) (get_time clock n).sec old seconds fuel (next late)
                (omega arith) in
            rw more (r, runs, omega arith)
      ]
    where
      next :
          old + seconds ≤ (get_time clock (n + 8 * suc rounds)).sec
          → old + seconds ≤ (get_time clock (n + 8 + 8 * rounds)).sec
      next h = subst (λ (k : ℕ). old + seconds ≤ (get_time clock k).sec) (omega arith) h

  -- `sleep` ends after at most `rounds + 1` more readings of the clock if the reading with that
  -- number shows the second that it waits for or a later one.
  pub sleep-ends :
      (rounds n seconds fuel : ℕ)
      → (get_time clock n).sec + seconds ≤ (get_time clock (n + 8 + 8 * rounds)).sec
      → rounds + 1 < fuel
      → (r : ℕ) × (sleep clock fuel n seconds ≡ done r) × (r ≤ n + 8 + 8 * (rounds + 1))
  unfolding sleep
  sleep-ends rounds n seconds fuel late enough =
      sleep_loop-ends rounds (n + 8) (get_time clock n).sec (get_time clock n).sec seconds fuel late
        enough

-- ===== src/Rtc/Bcd.antt =====
-- What the clock's registers stand for.
use sesh_os.Base.{
  ℕ, ◌+◌, ◌-◌, ◌*◌, ◌/◌, ◌%◌, ◌^◌, ◌<◌, ◌≤◌, ◌≡◌, refl, ◌∙◌, arith, bit_and, u8, u16,
}
use sesh_os.Base.Bits.{bit_and-low, bit_and-power}
use sesh_os.Rtc.{bcd_to_bin, Time, get_time}

-- The two decimal digits of a number in one byte.
abbrev pub bcd : ℕ → ℕ
bcd v = v / 10 * 16 + v % 10

-- `BcdToBin` reads back every number below 100.
pub bcd_to_bin-bcd : (v : ℕ) → v < 100 → bcd_to_bin (bcd v) ≡ v
unfolding bcd_to_bin
bcd_to_bin-bcd v h = rw (bit_and-low 4 (bcd v)) (omega arith)

-- The registers from read `n` on hold the time `t` in two-digit decimal bytes.
pub record Shows (clock : ℕ → ℕ → ℕ) (n : ℕ) (t : Time) : Type 0 where
  pub sec : (clock n 0 ≡ bcd t.sec) × (t.sec < 60)
  pub min : (clock (n + 1) 2 ≡ bcd t.min) × (t.min < 60)
  pub hour : (clock (n + 2) 4 ≡ bcd t.hour) × (t.hour < 24)
  pub week_day : (clock (n + 3) 6 ≡ t.week_day + 1) × (t.week_day < 7)
  pub day : (clock (n + 4) 7 ≡ bcd t.day) × (t.day < 32)
  pub month : (clock (n + 5) 8 ≡ bcd t.month) × (t.month < 13)
  pub year : (clock (n + 6) 9 ≡ bcd (t.year - 2000)) × (2000 ≤ t.year) × (t.year < 2100)
  pub decimal : clock (n + 7) 0xb / 4 % 2 ≡ 0

-- `GetTime` is the time that the registers show in decimal mode, with Sunday as day 0, if they hold
-- still while they are read and the year is between 2000 and 2099.
pub get_time-Shows : (clock : ℕ → ℕ → ℕ) (n : ℕ) (t : Time) → Shows clock n t → get_time clock n ≡ t
unfolding get_time
get_time-Shows clock n t shows =
    rw
      (
        mode,
        shows.sec.0,
        shows.min.0,
        shows.hour.0,
        shows.week_day.0,
        shows.day.0,
        shows.month.0,
        shows.year.0,
        bcd_to_bin-bcd t.sec (omega (arith, shows.sec.1)),
        bcd_to_bin-bcd t.min (omega (arith, shows.min.1)),
        bcd_to_bin-bcd t.hour (omega (arith, shows.hour.1)),
        bcd_to_bin-bcd t.day (omega (arith, shows.day.1)),
        bcd_to_bin-bcd t.month (omega (arith, shows.month.1)),
        bcd_to_bin-bcd (t.year - 2000) (omega (arith, shows.year.2)),
        week,
        century,
      )
      refl
  where
    mode : bit_and (clock (n + 7) 0xb) (2 ^ 2) ≡ 0
    mode = bit_and-power 2 (clock (n + 7) 0xb) ∙ omega (arith, shows.decimal)

    week : u8 (t.week_day + 1 + 255) ≡ t.week_day
    week = omega (arith, shows.week_day.1)

    century : u16 (t.year - 2000 + 2000) ≡ t.year
    century = omega (arith, shows.year.1, shows.year.2)

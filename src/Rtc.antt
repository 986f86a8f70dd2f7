-- ===== src/Rtc.antt =====
-- kernel/time.c: the real-time clock. `clock n r` is what the device answers when register `r` is
-- read and `n` reads came before.
pub mod Bcd
pub mod Sleep
use sesh_os.Base.{
  ℕ, zero, suc, ◌+◌, ◌-◌, ◌*◌, ◌/◌, ◌%◌, ◌^◌, Bool, true, false, ◌==◌, ltb, bit_and, if◌then◌else◌,
  u8, u16,
}
use sesh_os.Base.Run.{Run, done, out_of_fuel}

unfoldable pub bcd_to_bin : ℕ → ℕ
bcd_to_bin val = u8 (bit_and val 0xf + val / 2 ^ 4 * 10)

-- `time`
pub record Time : Type 0 where
  pub sec : ℕ
  pub min : ℕ
  pub hour : ℕ
  pub week_day : ℕ
  pub day : ℕ
  pub month : ℕ
  pub year : ℕ

-- `~regb & REGB_DM`
abbrev pub is_bcd : ℕ → Bool
is_bcd regb = if bit_and regb (2 ^ 2) == 0 then true else false

module _ (clock : ℕ → ℕ → ℕ) where
  -- Eight reads, of which `n` is the number of the first.
  unfoldable pub get_time : ℕ → Time
  get_time n =
      let sec = clock n 0 in
      let min = clock (n + 1) 2 in
      let hour = clock (n + 2) 4 in
      let week_day = clock (n + 3) 6 in
      let day = clock (n + 4) 7 in
      let month = clock (n + 5) 8 in
      let year = clock (n + 6) 9 in
      let bin = is_bcd (clock (n + 7) 0xb) in
      record {
        sec = if bin then bcd_to_bin sec else sec;
        min = if bin then bcd_to_bin min else min;
        hour = if bin then bcd_to_bin hour else hour;
        week_day = u8 (week_day + 255);
        day = if bin then bcd_to_bin day else day;
        month = if bin then bcd_to_bin month else month;
        year = u16 ((if bin then bcd_to_bin year else year) + 2000);
      }

  -- `while (CurrentTime.sec < oldtime.sec + seconds)`; the result is the number of reads so far
  unfoldable pub sleep_loop : (fuel n : ℕ) (current_sec old_sec seconds : ℕ) → Run ℕ
  sleep_loop zero n current_sec old_sec seconds = out_of_fuel
  sleep_loop (suc fuel) n current_sec old_sec seconds =
      let rest = sleep_loop fuel (n + 8) (get_time n).sec old_sec seconds in
      if ltb current_sec (old_sec + seconds) then rest else done n

  unfoldable pub sleep : (fuel n seconds : ℕ) → Run ℕ
  unfolding sleep_loop
  sleep fuel n seconds = sleep_loop fuel (n + 8) (get_time n).sec (get_time n).sec seconds

-- ===== src/Tests/Devices.antt =====
-- Runs of the interrupt table, the keyboard and the clock.
use sesh_os.Base.{
  ℕ, zero, suc, ◌+◌, ◌*◌, ◌/◌, ◌≤◌, ◌++◌, bit_and, ◌≡◌, refl, true, false, List, [], ◌∷◌, get_or,
  replicate, arith, ◌==◌, if◌then◌else◌,
}
use sesh_os.Base.Run.{done, out_of_fuel}
use sesh_os.Idt.{Out, outb, InterruptEntry, Handlers, set_interrupt_offset, get_interrupt_offset}
use sesh_os.Idt.Gates.{blank, get_interrupt_offset-set_interrupt_offset}
use sesh_os.Idt.Table.{AreAddresses}
use sesh_os.Keyboard.{Keyboard, handle_keyboard}
use sesh_os.Keyboard.Line.{Line, edited, handle_keyboard-Line}
use sesh_os.Rtc.{Time, bcd_to_bin, get_time, sleep}
use sesh_os.Rtc.Bcd.{Shows, get_time-Shows}
use sesh_os.Pcspk.{beep}
use sesh_os.Pcspk.Beep.{Ticks, beep-ends}
use sesh_os.Rtc.Sleep.{sleep-endless}

get_interrupt_offset-set_interrupt_offset_example :
    get_interrupt_offset (set_interrupt_offset blank 0xFFFFFFFF80001234) ≡ 0xFFFFFFFF80001234
get_interrupt_offset-set_interrupt_offset_example =
    get_interrupt_offset-set_interrupt_offset blank 0xFFFFFFFF80001234 (omega arith)

abbrev pub handlers : Handlers
handlers = record {
  page_fault = 0xFFFFFFFF80001000;
  divide_by_zero = 0xFFFFFFFF80001100;
  double_fault = 0xFFFFFFFF80001200;
  gp_fault = 0xFFFFFFFF80001300;
  keyboard = 0xFFFFFFFF80001400;
  test = 0xFFFFFFFF80001500;
}

abbrev pub gates : List InterruptEntry
gates = replicate 256 blank

pub handlers-AreAddresses : AreAddresses handlers
handlers-AreAddresses = record {
  page_fault = omega arith;
  divide_by_zero = omega arith;
  double_fault = omega arith;
  gp_fault = omega arith;
  keyboard = omega arith;
  test = omega arith;
}

abbrev pub as_is : List ℕ → List ℕ
as_is s = s

-- "a" has been typed, and the left shift key is down.
abbrev pub typed : Keyboard
typed = record {
  left_shift = true;
  right_shift = false;
  input = b'a' ∷ replicate 99 0;
  i = 1;
  printed = b'a' ∷ [];
  eoi = 2;
}

zeros : (n j : ℕ) → get_or {A = ℕ} (replicate n 0) j 0 ≡ 0
zeros zero j = refl
zeros (suc n) zero = refl
zeros (suc n) (suc j) = zeros n j

pub typed-Line : Line typed (b'a' ∷ [])
typed-Line = record { size = refl; at_end = refl; bytes = same }
  where
    same : (j : ℕ) → get_or {A = ℕ} (b'a' ∷ replicate 99 0) j 0 ≡ get_or (b'a' ∷ []) j 0
    same zero = refl
    same (suc j) = zeros 99 j

handle_keyboard-Line_example :
    (g : Keyboard) × (handle_keyboard as_is typed 0x1E ≡ done g)
    × Line g (edited typed 0x1E (b'a' ∷ []))
    × (g.eoi ≡ 2 + 1)
handle_keyboard-Line_example =
    handle_keyboard-Line as_is typed 0x1E (b'a' ∷ []) typed-Line (omega arith) (λ e. omega arith)
      (λ e. absurd (omega arith))

-- A clock that stands still at 2024-02-29, 23:59:58, a Thursday.
abbrev clock : ℕ → ℕ → ℕ
clock n r =
    if r == 0
    then 0x58
    else if r == 2
    then 0x59
    else if r == 4
    then 0x23
    else if r == 6
    then 5
    else if r == 7
    then 0x29
    else if r == 8
    then 2
    else if r == 9
    then 0x24
    else 2

abbrev leap_day : Time
leap_day = record { sec = 58; min = 59; hour = 23; week_day = 4; day = 29; month = 2; year = 2024 }

clock-Shows : Shows clock 0 leap_day
clock-Shows = record {
  sec = (refl, omega arith);
  min = (refl, omega arith);
  hour = (refl, omega arith);
  week_day = (refl, omega arith);
  day = (refl, omega arith);
  month = (refl, omega arith);
  year = (refl, omega arith, omega arith);
  decimal = refl;
}

get_time-Shows_example : get_time clock 0 ≡ leap_day
get_time-Shows_example = get_time-Shows clock 0 leap_day clock-Shows

clock-sec : (k : ℕ) → (get_time clock k).sec ≡ 58
unfolding get_time bcd_to_bin
clock-sec k = refl

sleep-endless_example : sleep clock 1000 0 2 ≡ out_of_fuel
sleep-endless_example =
    sleep-endless clock 1000 0 2 (λ k. omega (arith, clock-sec k)) (omega (arith, clock-sec 0))

-- A clock whose every 8 readings are a second later, and the seconds are binary.
abbrev ticking : ℕ → ℕ → ℕ
ticking n r = if r == 0 then n / 8 else if r == 0xb then 6 else 1

ticking-Ticks : Ticks ticking (λ k. 3) 0 160
unfolding get_time
ticking-Ticks n h = omega arith

beep-ends_example :
    (n' : ℕ) × (outs : List Out) × (beep ticking (λ k. 3) 2 0
      ≡ done (n', outs ++ outb 0x61 (bit_and 3 0xFC) ∷ []))
    × (n' ≤ 0 + 80 * (0 + 2))
beep-ends_example = beep-ends ticking (λ k. 3) 2 0 0 ticking-Ticks (omega arith)

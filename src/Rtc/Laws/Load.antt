-- ===== src/Rtc/Laws/Load.antt =====
-- What a loaded clock holds, whatever the file was.
use model_lib.Base.{
  ℕ, zero, suc, ◌+◌, ◌-◌, ◌*◌, ◌/◌, ◌%◌, ◌≤◌, ◌<◌, ◌≡◌, inl, inr, Bool, true, false, not, ◌&&◌,
  ◌||◌, List, arith, ltb, leb, if◌then◌else◌, Bool-cases, u8,
}
use model_lib.Rtc.Chip.{Registers, MsxRtc, decode_pair, twenty_four_hour_mode}
use model_lib.Rtc.Calendar.{Time, get_time, set_time, advance_time, rtc_advance_seconds}
use model_lib.Rtc.Record.{read_le64, valid_persisted_registers, valid_bcd_pair, valid_raw_hour}
use model_lib.Rtc.Persist.{
  missing, failed, loaded, payload, load_record, Opened, opened, rtc_load_persistence,
}
use model_lib.Rtc.Laws.Time.{IsTime, add_time-iterate, iterate-IsTime}
use model_lib.Rtc.Laws.Advance.{IsClock, get_time-IsTime, set_time-IsClock}
use model_lib.Rtc.Laws.Persist.{kept, valid_persisted_registers-IsClock}

-- The hour of the registers, from 0 to 23, or from 0 to 11 with 20 added in the afternoon.
pub data IsHour (hour : ℕ) : Bool → Type 0 where
  of_day : hour < 24 → IsHour hour true
  morning : hour < 12 → IsHour hour false
  afternoon : 20 ≤ hour → hour < 32 → IsHour hour false

-- The registers show a time of day and a date, digit by digit.
pub record IsShown (registers : Registers) : Type 0 where
  pub clock : IsClock registers
  pub hour : IsHour (decode_pair registers 0 4) (twenty_four_hour_mode registers)
  pub weekday_to : registers 0 6 < 7
  pub second_digit : registers 0 0 ≤ 9
  pub minute_digit : registers 0 2 ≤ 9
  pub hour_digit : registers 0 4 ≤ 9
  pub day_digit : registers 0 7 ≤ 9
  pub month_digit : registers 0 9 ≤ 9
  pub year_digit : registers 0 11 ≤ 9

tested-IsHour :
    (mode : Bool) (hour : ℕ)
    → (if mode then ltb hour 24 else ltb hour 12 || (leb 20 hour && ltb hour 32)) ≡ true
    → IsHour hour mode
tested-IsHour true hour h = of_day (ground arith)
tested-IsHour false hour h = elim (Bool-cases (ltb hour 12)) [
  | inl e ↦ morning (ground arith)
  | inr e ↦ afternoon (ground arith) (ground arith)
]

valid_raw_hour-IsHour :
    (registers : Registers)
    → valid_raw_hour registers ≡ true
    → IsHour (decode_pair registers 0 4) (twenty_four_hour_mode registers)
unfolding valid_raw_hour
valid_raw_hour-IsHour registers h = tested-IsHour (twenty_four_hour_mode registers) _ h

digit_of :
    (registers : Registers) (low maximum : ℕ)
    → valid_bcd_pair registers low maximum ≡ true
    → registers 0 low ≤ 9
unfolding valid_bcd_pair
digit_of registers low maximum h = ground arith

valid_persisted_registers-IsShown :
    (registers : Registers) → valid_persisted_registers registers ≡ true → IsShown registers
unfolding valid_persisted_registers
valid_persisted_registers-IsShown registers h = record {
  clock = valid_persisted_registers-IsClock registers h;
  hour = valid_raw_hour-IsHour registers (ground arith);
  weekday_to = ground arith;
  second_digit = digit_of registers 0 59 (ground arith);
  minute_digit = digit_of registers 2 59 (ground arith);
  hour_digit = ground arith;
  day_digit = digit_of registers 7 31 (ground arith);
  month_digit = digit_of registers 9 12 (ground arith);
  year_digit = digit_of registers 11 99 (ground arith);
}

encoded-IsHour :
    (mode : Bool) (hour : ℕ)
    → hour < 24
    → IsHour (if not mode && leb 12 hour then hour - 12 + 20 else hour) mode
encoded-IsHour true hour h = of_day h
encoded-IsHour false hour h = elim (Bool-cases (leb 12 hour)) [
  | inl e ↦ simp e (afternoon (ground arith) (ground arith))
  | inr e ↦ simp e (morning (ground arith))
]

two_digits : (v : ℕ) → v < 2560 → u8 (v % 10) + 10 * u8 (v / 10) ≡ v
two_digits v h = omega arith

set_time-IsShown : (registers : Registers) (t : Time) → IsTime t → IsShown (set_time registers t)
unfolding set_time decode_pair twenty_four_hour_mode
set_time-IsShown registers t v =
    let mode = twenty_four_hour_mode registers in
    let hour = if not mode && leb 12 t.hours then t.hours - 12 + 20 else t.hours in
    let small : hour < 2560 = ground (arith, v.hours_to) in
    record {
      clock = set_time-IsClock registers t v;
      hour = rw (two_digits hour small) (encoded-IsHour mode t.hours v.hours_to);
      weekday_to = omega arith;
      second_digit = omega arith;
      minute_digit = omega arith;
      hour_digit = omega arith;
      day_digit = omega arith;
      month_digit = omega arith;
      year_digit = omega arith;
    }

rtc_advance_seconds-IsShown :
    (rtc : MsxRtc) (n : ℕ)
    → n < 9223372036854775808
    → IsShown rtc.registers
    → IsShown (rtc_advance_seconds rtc n).registers
unfolding rtc_advance_seconds advance_time
rtc_advance_seconds-IsShown rtc zero h v = v
rtc_advance_seconds-IsShown rtc (suc n) h v =
    let time = get_time-IsTime rtc.registers v.clock in
    rw (add_time-iterate (get_time rtc.registers) (suc n) time h)
      (set_time-IsShown rtc.registers _ (iterate-IsTime (suc n) (get_time rtc.registers) time))

accepted-IsShown :
    (old : MsxRtc) (bytes : List ℕ) (now : ℕ) (rtc : MsxRtc)
    → load_record old bytes now ≡ loaded rtc
    → IsShown rtc.registers
unfolding load_record
accepted-IsShown old bytes now rtc e =
    let missed = now - read_le64 bytes 16 in
    let stored = valid_persisted_registers-IsShown (payload bytes) in
    ground (arith, stored, rtc_advance_seconds-IsShown (kept old bytes) missed)

-- Any file that is accepted leaves a time of day and a date in the registers: decimal digits, an
-- hour of the mode that the clock is in, a day of the week below 7 and a day of the month.
pub rtc_load_persistence-IsShown :
    (old : MsxRtc) (path_given : Bool) (file : Opened) (now : ℕ) (rtc : MsxRtc)
    → rtc_load_persistence old path_given file now ≡ loaded rtc
    → IsShown rtc.registers
unfolding rtc_load_persistence
rtc_load_persistence-IsShown old path_given missing now rtc e = ground arith
rtc_load_persistence-IsShown old path_given failed now rtc e = ground arith
rtc_load_persistence-IsShown old path_given (opened bytes read_error closed) now rtc e =
    ground (arith, accepted-IsShown old bytes now rtc)

-- ===== src/Rtc/Calendar.antt =====
-- The calendar of the clock: reading the time, adding to it and writing it back.
use model_lib.Base.{
  ℕ, zero, suc, ◌+◌, ◌-◌, ◌/◌, ◌%◌, true, not, ◌&&◌, ◌||◌, List, [], ◌∷◌, ltb, leb, ◌==◌,
  if◌then◌else◌, nonzero, u8, u32, get_or, bit_and,
}
use model_lib.Rtc.Chip.{
  Registers, MsxRtc, store, decode_pair, encode_pair, decode_hour, encode_hour,
}

abbrev pub u64 : ℕ → ℕ
u64 n = n % 18446744073709551616

abbrev days : List ℕ
days = 31 ∷ 28 ∷ 31 ∷ 30 ∷ 31 ∷ 30 ∷ 31 ∷ 31 ∷ 30 ∷ 31 ∷ 30 ∷ 31 ∷ []

-- A month that the table does not know counts as January.
abbrev pub month_or_january : ℕ → ℕ
month_or_january month = if ltb month 1 || ltb 12 month then 1 else month

unfoldable pub days_in_month : ℕ → ℕ → ℕ
days_in_month month leap_year =
    let month = month_or_january month in
    if (month == 2) && not (nonzero (bit_and leap_year 3)) then 29 else get_or days (month - 1) 0

pub record Date : Type 0 where
  pub day : ℕ
  pub month : ℕ
  pub year : ℕ
  pub leap_year : ℕ

-- The local variables of `advance_time`.
pub record Time : Type 0 where
  pub seconds : ℕ
  pub minutes : ℕ
  pub hours : ℕ
  pub weekday : ℕ
  pub date : Date
  pub open date use *

unfoldable pub set_time : Registers → Time → Registers
unfolding encode_pair encode_hour
set_time registers t =
    let registers = encode_pair registers 0 0 seconds in
    let registers = encode_pair registers 0 2 minutes in
    let registers = encode_hour registers hours in
    let registers = store registers 0 6 (u8 (weekday % 7)) in
    let registers = encode_pair registers 0 7 day in
    let registers = encode_pair registers 0 9 month in
    let registers = encode_pair registers 0 11 year in
    store registers 1 11 (u8 (bit_and leap_year 3))
  where
    open t use {seconds, minutes, hours, weekday, day, month, year, leap_year}

-- What `advance_time` reads, a day or month out of range corrected.
unfoldable pub get_time : Registers → Time
unfolding decode_pair decode_hour
get_time registers =
    let day = decode_pair registers 0 7 in
    record {
      seconds = decode_pair registers 0 0;
      minutes = decode_pair registers 0 2;
      hours = decode_hour registers;
      weekday = registers 0 6 % 7;
      date = record {
        day = if ltb day 1 then 1 else day;
        month = month_or_january (decode_pair registers 0 9);
        year = decode_pair registers 0 11;
        leap_year = bit_and (registers 1 11) 3;
      };
    }

-- The first day of the month after.
unfoldable pub next_month : Date → Date
next_month d =
    if ltb 12 (d.month + 1)
    then record {
      day = 1;
      month = 1;
      year = (d.year + 1) % 100;
      leap_year = bit_and (d.leap_year + 1) 3;
    }
    else (record d { day = 1; month = d.month + 1 })

-- `days_in_month(month, leap_year) - day` in unsigned arithmetic.
unfoldable pub remaining : Date → ℕ
unfolding days_in_month
remaining d = u32 (days_in_month d.month d.leap_year + 4294967296 - d.day % 4294967296)

-- The loop of `advance_time`, with the days that it still has to add.
unfoldable pub add_days_loop : ℕ → ℕ → Date → ℕ × Date
add_days_loop zero add_days d = (add_days, d)
add_days_loop (suc fuel) add_days d =
    let rest = add_days_loop fuel (add_days - (remaining d + 1)) (next_month d) in
    let last = record d { day = u32 (d.day + add_days) } in
    if add_days == 0 then (0, d) else if leb add_days (remaining d) then (0, last) else rest

-- The carries of `advance_time`, its loop, and the years.
unfoldable pub add_time : Time → ℕ → ℕ → ℕ → ℕ → Time
unfolding add_days_loop
add_time t add_seconds add_minutes add_days add_years =
    let seconds = u64 (t.seconds + add_seconds) in
    let minutes = u64 (t.minutes + u64 (add_minutes + seconds / 60)) in
    let hours = u64 (t.hours + minutes / 60) in
    let add_days = u64 (add_days + hours / 24) in
    let d = (add_days_loop add_days add_days t.date).1 in
    record {
      seconds = seconds % 60;
      minutes = minutes % 60;
      hours = hours % 24;
      weekday = if nonzero add_days then u64 (t.weekday + add_days) % 7 else t.weekday;
      date =
          if nonzero add_years
          then record {
            day = d.day;
            month = d.month;
            year = u64 (d.year + add_years) % 100;
            leap_year = bit_and (u64 (d.leap_year + add_years)) 3;
          }
          else d;
    }

unfoldable pub advance_time : MsxRtc → ℕ → ℕ → ℕ → ℕ → MsxRtc
advance_time rtc add_seconds add_minutes add_days add_years =
    let t = add_time (get_time rtc.registers) add_seconds add_minutes add_days add_years in
    record rtc { registers = set_time rtc.registers t; dirty = true }

unfoldable pub rtc_advance_seconds : MsxRtc → ℕ → MsxRtc
rtc_advance_seconds rtc seconds = if nonzero seconds then advance_time rtc seconds 0 0 0 else rtc

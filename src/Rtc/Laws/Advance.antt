-- ===== src/Rtc/Laws/Advance.antt =====
-- The passing of time on the chip, by seconds and by processor cycles.
use model_lib.Base.{ℕ, zero, suc, ◌%◌, ◌≤◌, ◌<◌, ◌≡◌, refl, ap, ◌∙◌, arith, bit_and}
use model_lib.Base.Bits.{bit_and-mask}
use model_lib.Rtc.Chip.{Registers, MsxRtc, decode_pair, decode_hour}
use model_lib.Rtc.Calendar.{
  Time, set_time, get_time, days_in_month, advance_time, add_time, rtc_advance_seconds,
}
use model_lib.Rtc.Laws.Calendar.{days_in_month_bounds, iterate}
use model_lib.Rtc.Laws.Time.{IsTime, next_second, add_time-iterate, iterate-IsTime}
use model_lib.Rtc.Laws.Digits.{get_time-set_time}

-- The registers hold a time of day and a date.
pub record IsClock (registers : Registers) : Type 0 where
  pub seconds_to : decode_pair registers 0 0 < 60
  pub minutes_to : decode_pair registers 0 2 < 60
  pub month_from : 1 ≤ decode_pair registers 0 9
  pub month_to : decode_pair registers 0 9 ≤ 12
  pub day_from : 1 ≤ decode_pair registers 0 7
  pub day_to :
      decode_pair registers 0 7
      ≤ days_in_month (decode_pair registers 0 9) (bit_and (registers 1 11) 3)
  pub year_to : decode_pair registers 0 11 < 100

pub get_time-IsTime : (registers : Registers) → IsClock registers → IsTime (get_time registers)
unfolding get_time decode_hour
get_time-IsTime registers v = ground (arith, bit_and-mask 2 (registers 1 11))

pub set_time-IsClock :
    (registers : Registers) (t : Time) → IsTime t → IsClock (set_time registers t)
unfolding set_time decode_pair
set_time-IsClock registers t v = ground (
  arith,
  days_in_month_bounds t.month t.leap_year,
  bit_and-mask 2 t.leap_year,
  bit_and-mask 2 (bit_and t.leap_year 3 % 256),
)

time_written :
    (registers : Registers) (t : Time) (n : ℕ)
    → IsTime t
    → n < 9223372036854775808
    → (get_time (set_time registers (add_time t n 0 0 0)) ≡ iterate n next_second t)
      × IsClock (set_time registers (add_time t n 0 0 0))
time_written registers t n v h =
    let later = iterate-IsTime n t v in
    let added = add_time-iterate t n v h in
    (
      ap (λ u. get_time (set_time registers u)) added ∙ get_time-set_time registers _ later,
      rw added (set_time-IsClock registers _ later),
    )

-- The whole effect of `rtc_advance_seconds` on the time.
seconds_pass :
    (rtc : MsxRtc) (n : ℕ)
    → IsClock rtc.registers
    → n < 9223372036854775808
    → (get_time (rtc_advance_seconds rtc n).registers
        ≡ iterate n next_second (get_time rtc.registers))
      × IsClock (rtc_advance_seconds rtc n).registers
unfolding rtc_advance_seconds advance_time
seconds_pass rtc zero v h = (refl, v)
seconds_pass rtc (suc n) v h =
    time_written rtc.registers (get_time rtc.registers) (suc n) (get_time-IsTime rtc.registers v) h

-- Advancing a clock that holds a valid time by `n` seconds is advancing it `n` times by one second
-- of the calendar.
pub rtc_advance_seconds-iterate :
    (rtc : MsxRtc) (n : ℕ)
    → IsClock rtc.registers
    → n < 9223372036854775808
    → get_time (rtc_advance_seconds rtc n).registers
      ≡ iterate n next_second (get_time rtc.registers)
rtc_advance_seconds-iterate rtc n v h = (seconds_pass rtc n v h).0

pub rtc_advance_seconds-IsClock :
    (rtc : MsxRtc) (n : ℕ)
    → IsClock rtc.registers
    → n < 9223372036854775808
    → IsClock (rtc_advance_seconds rtc n).registers
rtc_advance_seconds-IsClock rtc n v h = (seconds_pass rtc n v h).1

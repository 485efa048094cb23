-- ===== src/Rtc/Laws/Digits.antt =====
-- The digits of the registers: what is written to the clock is what is read from it.
use model_lib.Base.{ℕ, ◌%◌, ◌<◌, ◌≡◌, arith, bit_and}
use model_lib.Base.Bits.{bit_and-mask}
use model_lib.Rtc.Chip.{Registers, encode_pair, decode_pair, encode_hour, decode_hour}
use model_lib.Rtc.Calendar.{Time, set_time, get_time}
use model_lib.Rtc.Laws.Calendar.{days_in_month_bounds}
use model_lib.Rtc.Laws.Time.{IsTime}

pub decode_pair-encode_pair :
    (registers : Registers) (block low value : ℕ)
    → value < 2560
    → decode_pair (encode_pair registers block low value) block low ≡ value
unfolding decode_pair encode_pair
decode_pair-encode_pair registers block low value h = ground arith

pub decode_hour-encode_hour :
    (registers : Registers) (hour : ℕ) → hour < 24 → decode_hour (encode_hour registers hour) ≡ hour
unfolding decode_hour encode_hour
decode_hour-encode_hour registers hour h = ground arith

pub get_time-set_time :
    (registers : Registers) (t : Time) → IsTime t → get_time (set_time registers t) ≡ t
unfolding get_time set_time
get_time-set_time registers t v = ground (
  arith,
  days_in_month_bounds t.month t.leap_year,
  bit_and-mask 2 t.leap_year,
  bit_and-mask 2 (bit_and t.leap_year 3 % 256),
)

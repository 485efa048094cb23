-- ===== src/Rtc/Laws/Time.antt =====
-- Adding seconds to a time of day and date, against a clock that ticks one second at a time.
use model_lib.Base.{ℕ, zero, suc, ◌+◌, ◌/◌, ◌%◌, ◌<◌, ◌≡◌, sym, ap, ◌∙◌, arith, ltb, if◌then◌else◌}
use model_lib.Rtc.Calendar.{Date, Time, add_time}
use model_lib.Rtc.Laws.Calendar.{
  IsDate, tomorrow, tomorrow-IsDate, iterate, iterate-suc, add_days_loop-iterate,
}

pub record IsTime (t : Time) : Type 0 where
  pub seconds_to : t.seconds < 60
  pub minutes_to : t.minutes < 60
  pub hours_to : t.hours < 24
  pub weekday_to : t.weekday < 7
  pub date_valid : IsDate t.date

-- One second later, by the clock and the calendar.
unfoldable pub next_second : Time → Time
next_second t =
    if ltb t.seconds 59
    then (record t { seconds = t.seconds + 1 })
    else if ltb t.minutes 59
    then (record t { seconds = 0; minutes = t.minutes + 1 })
    else if ltb t.hours 23
    then (record t { seconds = 0; minutes = 0; hours = t.hours + 1 })
    else record {
      seconds = 0;
      minutes = 0;
      hours = 0;
      weekday = (t.weekday + 1) % 7;
      date = tomorrow t.date;
    }

-- The carries of `n` seconds.
abbrev pub minute_carry : Time → ℕ → ℕ
minute_carry t n = (t.seconds + n) / 60

abbrev pub hour_carry : Time → ℕ → ℕ
hour_carry t n = (t.minutes + minute_carry t n) / 60

abbrev pub day_carry : Time → ℕ → ℕ
day_carry t n = (t.hours + hour_carry t n) / 24

abbrev pub time_after : Time → ℕ → Time
time_after t n = record {
  seconds = (t.seconds + n) % 60;
  minutes = (t.minutes + minute_carry t n) % 60;
  hours = (t.hours + hour_carry t n) % 24;
  weekday = (t.weekday + day_carry t n) % 7;
  date = iterate (day_carry t n) tomorrow t.date;
}

add_time-time_after :
    (t : Time) (n : ℕ) → IsTime t → n < 9223372036854775808 → add_time t n 0 0 0 ≡ time_after t n
unfolding add_time
add_time-time_after t n v h =
    ground (
      arith,
      add_days_loop-iterate (day_carry t n) (day_carry t n) t.date (omega arith) v.date_valid,
    )

time_after_zero : (t : Time) → IsTime t → time_after t 0 ≡ t
time_after_zero t v = ground (arith, none_over)
  where
    none_over : iterate (day_carry t 0) tomorrow t.date ≡ t.date
    none_over = let none_left : day_carry t 0 ≡ 0 = omega (arith, v) in rw none_left

one_more_day :
    (c c' : ℕ) (d : Date) → c' ≡ suc c → iterate c' tomorrow d ≡ tomorrow (iterate c tomorrow d)
one_more_day c c' d e = rw e (iterate-suc c tomorrow d)

same_day : (c c' : ℕ) (d : Date) → c' ≡ c → iterate c' tomorrow d ≡ iterate c tomorrow d
same_day c c' d e = rw e

time_after-suc : (t : Time) (n : ℕ) → IsTime t → time_after t (suc n) ≡ next_second (time_after t n)
unfolding next_second
time_after-suc t n v = ground (
  arith,
  one_more_day (day_carry t n) (day_carry t (suc n)) t.date,
  same_day (day_carry t n) (day_carry t (suc n)) t.date,
)

time_after-iterate : (n : ℕ) (t : Time) → IsTime t → time_after t n ≡ iterate n next_second t
time_after-iterate zero t v = time_after_zero t v
time_after-iterate (suc n) t v =
    time_after-suc t n v
    ∙ ap next_second (time_after-iterate n t v)
    ∙ sym (iterate-suc n next_second t)

pub add_time-iterate :
    (t : Time) (n : ℕ)
    → IsTime t
    → n < 9223372036854775808
    → add_time t n 0 0 0 ≡ iterate n next_second t
add_time-iterate t n v h = add_time-time_after t n v h ∙ time_after-iterate n t v

pub next_second-IsTime : (t : Time) → IsTime t → IsTime (next_second t)
unfolding next_second
next_second-IsTime t v = ground (arith, tomorrow-IsDate t.date v.date_valid)

pub iterate-IsTime : (n : ℕ) (t : Time) → IsTime t → IsTime (iterate n next_second t)
iterate-IsTime zero t v = v
iterate-IsTime (suc n) t v = iterate-IsTime n (next_second t) (next_second-IsTime t v)

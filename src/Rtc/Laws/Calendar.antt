-- ===== src/Rtc/Laws/Calendar.antt =====
-- Adding days to a date: the loop of advance_time against a count of single days.
use model_lib.Base.{
  ℕ, zero, suc, ◌+◌, ◌-◌, ◌≤◌, ◌<◌, ◌≡◌, refl, ap, ◌∙◌, arith, ltb, if◌then◌else◌, bit_and,
}
use model_lib.Base.Bits.{bit_and-mask}
use model_lib.Rtc.Calendar.{days_in_month, Date, next_month, remaining, add_days_loop}

abbrev pub iterate {ℓ} : {A : Type ℓ} → ℕ → (A → A) → A → A
iterate zero f a = a
iterate (suc n) f a = iterate n f (f a)

-- A day of the calendar.
pub record IsDate (d : Date) : Type 0 where
  pub month_from : 1 ≤ d.month
  pub month_to : d.month ≤ 12
  pub day_from : 1 ≤ d.day
  pub day_to : d.day ≤ days_in_month d.month d.leap_year
  pub year_to : d.year < 100
  pub leap_to : d.leap_year < 4

-- The next day, by the calendar.
unfoldable pub tomorrow : Date → Date
tomorrow d =
    if ltb d.day (days_in_month d.month d.leap_year)
    then (record d { day = d.day + 1 })
    else next_month d

pub days_in_month_bounds : (m l : ℕ) → (28 ≤ days_in_month m l) × (days_in_month m l ≤ 31)
unfolding days_in_month
days_in_month_bounds m l = ground arith

leap_cycle : (l : ℕ) → bit_and l 3 < 4
leap_cycle l = omega (arith, bit_and-mask 2 l)

pub next_month-IsDate : (d : Date) → IsDate d → IsDate (next_month d)
unfolding next_month
next_month-IsDate d v = ground (
  arith,
  leap_cycle (d.leap_year + 1),
  days_in_month_bounds 1 (bit_and (d.leap_year + 1) 3),
  days_in_month_bounds (d.month + 1) d.leap_year,
)

pub tomorrow-IsDate : (d : Date) → IsDate d → IsDate (tomorrow d)
unfolding tomorrow
tomorrow-IsDate d v = ground (arith, next_month-IsDate d v)

-- The loop has no days left.
pub add_days_loop_ends : (fuel n : ℕ) (d : Date) → n ≤ fuel → (add_days_loop fuel n d).0 ≡ 0
unfolding add_days_loop
add_days_loop_ends zero n d h = omega arith
add_days_loop_ends (suc fuel) n d h =
    ground (arith, add_days_loop_ends fuel (n - (remaining d + 1)) (next_month d))

remaining_lem : (d : Date) → IsDate d → remaining d ≡ days_in_month d.month d.leap_year - d.day
unfolding remaining
remaining_lem d v = omega (arith, days_in_month_bounds d.month d.leap_year)

within_month :
    (n : ℕ) (d : Date)
    → IsDate d
    → d.day + n ≤ days_in_month d.month d.leap_year
    → iterate n tomorrow d ≡ record d { day = d.day + n }
unfolding tomorrow
within_month zero d v h = ground arith
within_month (suc n) d v h = ground (arith, within_month n (record d { day = d.day + 1 }))

-- Past the end of the month: `k` days to its last, one to the next month and `n` more.
past_month :
    (k n m : ℕ) (d : Date)
    → IsDate d
    → d.day + k ≡ days_in_month d.month d.leap_year
    → m ≡ k + suc n
    → iterate m tomorrow d ≡ iterate n tomorrow (next_month d)
unfolding tomorrow next_month
past_month zero n m d v h e =
    let count : m ≡ suc n = omega arith in
    rw count (ap (iterate n tomorrow) (month_over d (omega arith)))
  where
    month_over : (d : Date) → d.day ≡ days_in_month d.month d.leap_year → tomorrow d ≡ next_month d
    month_over d h = ground arith
past_month (suc k) n m d v h e =
    let count : m ≡ suc (k + suc n) = omega arith in
    let same : tomorrow d ≡ (record d { day = d.day + 1 }) = ground arith in
    ap (λ i. iterate i tomorrow d) count
    ∙ ap (iterate (k + suc n) tomorrow) same
    ∙ past_month k n (k + suc n) (record d { day = d.day + 1 }) (ground arith) (omega arith) refl

-- Adding `n` days at once is the same as `n` single days, and the loop ends.
pub add_days_loop-iterate :
    (fuel n : ℕ) (d : Date)
    → n ≤ fuel
    → IsDate d
    → add_days_loop fuel n d ≡ (0, iterate n tomorrow d)
unfolding add_days_loop
add_days_loop-iterate zero n d h v = let none_left : n ≡ 0 = omega arith in rw none_left
add_days_loop-iterate (suc fuel) n d h v =
    let left = remaining d in
    let rest = n - (left + 1) in
    ground (
      arith,
      remaining_lem d v,
      days_in_month_bounds d.month d.leap_year,
      within_month n d v,
      past_month left rest n d v,
      add_days_loop-iterate fuel rest (next_month d) (omega arith) (next_month-IsDate d v),
    )

pub iterate-IsDate : (n : ℕ) (d : Date) → IsDate d → IsDate (iterate n tomorrow d)
iterate-IsDate zero d v = v
iterate-IsDate (suc n) d v = iterate-IsDate n (tomorrow d) (tomorrow-IsDate d v)

pub iterate-suc {ℓ} :
    {A : Type ℓ} (n : ℕ) (f : A → A) (a : A) → iterate (suc n) f a ≡ f (iterate n f a)
iterate-suc zero f a = refl
iterate-suc (suc n) f a = iterate-suc n f (f a)

-- From a day past the end of its month, adding days counts on in the same month.
pub add_days_loop_past_end :
    (n : ℕ) (d : Date)
    → days_in_month d.month d.leap_year < d.day
    → d.day + n < 4294967296
    → add_days_loop n n d ≡ (0, record d { day = d.day + n })
unfolding add_days_loop remaining
add_days_loop_past_end zero d h k = ground arith
add_days_loop_past_end (suc n) d h k = ground (arith, days_in_month_bounds d.month d.leap_year)

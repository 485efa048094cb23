-- ===== src/Rtc/Laws/Slices.antt =====
-- The clock of a machine that runs: its time does not depend on how the processor's cycles are
-- cut into calls of rtc_advance.
use model_lib.Base.{
  ℕ, zero, suc, ◌+◌, ◌*◌, ◌/◌, ◌%◌, ◌<◌, ◌≡◌, inl, inr, refl, sym, ap, ◌∙◌, true, List, [], ◌∷◌,
  arith, leb, nonzero, Bool-cases, bit_and,
}
use native.Mathlib.Nat.{
  mod-le, mul-add-div_right, div-add-mod, mod-eq_of_lt, div-eq_of_lt, mod-lt, mul_comm, div-le_self,
  mod-add-mod,
}
use model_lib.Rtc.Chip.{MsxRtc}
use model_lib.Rtc.Calendar.{u64, get_time, advance_time, rtc_advance_seconds}
use model_lib.Rtc.Ports.{rtc_advance, count_cycles}
use model_lib.Rtc.Laws.Calendar.{iterate}
use model_lib.Rtc.Laws.Time.{next_second}
use model_lib.Rtc.Laws.Advance.{IsClock, rtc_advance_seconds-iterate, rtc_advance_seconds-IsClock}

-- A clock that holds a time of day and a date of the calendar and counts, with no fast counting for
-- tests, at `cpu_hz` cycles per second.
pub record IsRunning (cpu_hz : ℕ) (rtc : MsxRtc) : Type 0 where
  pub clock : IsClock rtc.registers
  pub fraction : rtc.cycle_accumulator < cpu_hz
  pub timer_on : nonzero (bit_and rtc.mode 8) ≡ true
  pub no_test : rtc.test ≡ 0

-- What `n` cycles make of the time and of the fraction of a second.
pub record Passed (cpu_hz n : ℕ) (rtc rtc' : MsxRtc) : Type 0 where
  pub running : IsRunning cpu_hz rtc'
  pub time :
      get_time rtc'.registers
      ≡ iterate ((rtc.cycle_accumulator + n) / cpu_hz) next_second (get_time rtc.registers)
  pub rest : rtc'.cycle_accumulator ≡ (rtc.cycle_accumulator + n) % cpu_hz

seconds_kept :
    (rtc : MsxRtc) (n : ℕ)
    → ((rtc_advance_seconds rtc n).cycle_accumulator ≡ rtc.cycle_accumulator)
      × ((rtc_advance_seconds rtc n).mode ≡ rtc.mode)
      × ((rtc_advance_seconds rtc n).test ≡ rtc.test)
unfolding rtc_advance_seconds advance_time
seconds_kept rtc n = ground arith

whole_seconds :
    (cpu_hz n total : ℕ) (rtc : MsxRtc)
    → IsRunning cpu_hz rtc
    → total ≡ rtc.cycle_accumulator + n
    → total < 9223372036854775808
    → Passed cpu_hz n rtc
        (rtc_advance_seconds (record rtc { cycle_accumulator = total % cpu_hz }) (total / cpu_hz))
whole_seconds cpu_hz n total rtc r e h =
    let counted : MsxRtc = record rtc { cycle_accumulator = total % cpu_hz } in
    let seconds : total / cpu_hz < 9223372036854775808 = omega (arith, div-le_self total cpu_hz) in
    let (accumulator, mode, test) = seconds_kept counted (total / cpu_hz) in
    let below : total % cpu_hz < cpu_hz = mod-lt total (omega (arith, r)) in
    record {
      running = record {
        clock = rtc_advance_seconds-IsClock counted (total / cpu_hz) r.clock seconds;
        fraction = rw accumulator below;
        timer_on = rw mode r.timer_on;
        no_test = test ∙ r.no_test;
      };
      time =
          rtc_advance_seconds-iterate counted (total / cpu_hz) r.clock seconds
          ∙ ap (λ k. iterate (k / cpu_hz) next_second (get_time rtc.registers)) e;
      rest = accumulator ∙ ap (λ k. k % cpu_hz) e;
    }

only_fraction :
    (cpu_hz n total : ℕ) (rtc : MsxRtc)
    → IsRunning cpu_hz rtc
    → total ≡ rtc.cycle_accumulator + n
    → total < cpu_hz
    → Passed cpu_hz n rtc (record rtc { cycle_accumulator = total })
only_fraction cpu_hz n total rtc r e h = record {
  running = record { clock = r.clock; fraction = h; timer_on = r.timer_on; no_test = r.no_test };
  time =
      ap (λ k. iterate k next_second (get_time rtc.registers)) (sym (div-eq_of_lt h))
      ∙ ap (λ k. iterate (k / cpu_hz) next_second (get_time rtc.registers)) e;
  rest = sym (mod-eq_of_lt h) ∙ ap (λ k. k % cpu_hz) e;
}

count_cycles-Passed :
    (cpu_hz n : ℕ) (rtc : MsxRtc)
    → IsRunning cpu_hz rtc
    → rtc.cycle_accumulator + n < 9223372036854775808
    → Passed cpu_hz n rtc (count_cycles rtc n cpu_hz)
unfolding count_cycles
count_cycles-Passed cpu_hz n rtc r h =
    let total = u64 (rtc.cycle_accumulator + n) in
    let exact : total ≡ rtc.cycle_accumulator + n = omega arith in
    elim (Bool-cases (leb cpu_hz total)) [
      | inl e ↦ rw e (whole_seconds cpu_hz n total rtc r exact (omega arith))
      | inr e ↦ rw e (only_fraction cpu_hz n total rtc r exact (ground arith))
    ]

pub rtc_advance-Passed :
    (cpu_hz n : ℕ) (rtc : MsxRtc)
    → IsRunning cpu_hz rtc
    → rtc.cycle_accumulator + n < 9223372036854775808
    → Passed cpu_hz n rtc (rtc_advance rtc n cpu_hz)
unfolding rtc_advance
rtc_advance-Passed zero n rtc r h = absurd (omega (arith, r.fraction))
rtc_advance-Passed (suc k) zero rtc r h =
    only_fraction (suc k) 0 rtc.cycle_accumulator rtc r (omega arith) r.fraction
rtc_advance-Passed (suc k) (suc n) rtc r h =
    let passed = count_cycles-Passed (suc k) (suc n) rtc r h in
    simp (r.timer_on, passed.running.no_test) passed

-- A run of the machine, as the cycles of its calls.
pub rtc_advance_all : ℕ → MsxRtc → List ℕ → MsxRtc
rtc_advance_all cpu_hz rtc [] = rtc
rtc_advance_all cpu_hz rtc (n ∷ slices) = rtc_advance_all cpu_hz (rtc_advance rtc n cpu_hz) slices

abbrev pub sum : List ℕ → ℕ
sum [] = 0
sum (n ∷ slices) = n + sum slices

iterate-add {ℓ} :
    {A : Type ℓ} (m n k : ℕ) (f : A → A) (a : A)
    → k ≡ m + n
    → iterate n f (iterate m f a) ≡ iterate k f a
iterate-add zero n k f a e = let same : k ≡ n = omega arith in rw same
iterate-add (suc m) n k f a e =
    let next : k ≡ suc (m + n) = omega arith in rw next (iterate-add m n (m + n) f (f a) refl)

carry_split :
    (cpu_hz x n : ℕ) → 0 < cpu_hz → (x + n) / cpu_hz ≡ x / cpu_hz + (x % cpu_hz + n) / cpu_hz
carry_split cpu_hz x n h =
    let parts : x + n ≡ x / cpu_hz * cpu_hz + (x % cpu_hz + n) =
      omega (arith, div-add-mod x cpu_hz, mul_comm cpu_hz (x / cpu_hz)) in
    ap (λ k. k / cpu_hz) parts ∙ mul-add-div_right h (x / cpu_hz) (x % cpu_hz + n)

-- Two slices, one after the other, are one slice.
Passed-trans :
    (cpu_hz m n : ℕ) (a b c : MsxRtc)
    → Passed cpu_hz m a b
    → Passed cpu_hz n b c
    → Passed cpu_hz (m + n) a c
Passed-trans cpu_hz m n a b c p q =
    let start = a.cycle_accumulator in
    let total : start + (m + n) ≡ start + m + n = omega arith in
    let seconds : (start + (m + n)) / cpu_hz
        ≡ (start + m) / cpu_hz + (b.cycle_accumulator + n) / cpu_hz =
      ap (λ k. k / cpu_hz) total
      ∙ carry_split cpu_hz (start + m) n (omega (arith, p.running.fraction))
      ∙ ap (λ k. (start + m) / cpu_hz + (k + n) / cpu_hz) (sym p.rest) in
    record {
      running = q.running;
      time =
          q.time
          ∙ ap (iterate ((b.cycle_accumulator + n) / cpu_hz) next_second) p.time
          ∙ iterate-add _ _ _ next_second (get_time a.registers) seconds;
      rest =
          q.rest
          ∙ ap (λ k. (k + n) % cpu_hz) p.rest
          ∙ mod-add-mod (start + m) cpu_hz n
          ∙ ap (λ k. k % cpu_hz) (sym total);
    }

pub rtc_advance_all-Passed :
    (slices : List ℕ) (cpu_hz : ℕ) (rtc : MsxRtc)
    → IsRunning cpu_hz rtc
    → rtc.cycle_accumulator + sum slices < 9223372036854775808
    → Passed cpu_hz (sum slices) rtc (rtc_advance_all cpu_hz rtc slices)
unfolding rtc_advance_all
rtc_advance_all-Passed [] cpu_hz rtc r h =
    only_fraction cpu_hz 0 rtc.cycle_accumulator rtc r (omega arith) r.fraction
rtc_advance_all-Passed (n ∷ slices) cpu_hz rtc r h =
    let first = rtc_advance-Passed cpu_hz n rtc r (omega arith) in
    Passed-trans cpu_hz n (sum slices) rtc _ _ first (
      rtc_advance_all-Passed slices cpu_hz _ first.running
        (omega (arith, first.rest, mod-le (rtc.cycle_accumulator + n) cpu_hz)))

-- For a clock that holds a time of day and a date of the calendar, with its timer on, no test
-- counting and a fraction of a second below the rate: cutting the cycles of a run, below 2 ^ 63 with
-- the fraction before, into other calls of rtc_advance changes neither the time that the clock shows
-- nor its fraction of a second, since both follow from the sum.
pub rtc_advance_all_lem :
    (slices : List ℕ) (cpu_hz : ℕ) (rtc : MsxRtc)
    → IsRunning cpu_hz rtc
    → rtc.cycle_accumulator + sum slices < 9223372036854775808
    → (get_time (rtc_advance_all cpu_hz rtc slices).registers
        ≡ iterate
            ((rtc.cycle_accumulator + sum slices) / cpu_hz)
            next_second
            (get_time rtc.registers))
      × ((rtc_advance_all cpu_hz rtc slices).cycle_accumulator
          ≡ (rtc.cycle_accumulator + sum slices) % cpu_hz)
rtc_advance_all_lem slices cpu_hz rtc r h =
    let passed = rtc_advance_all-Passed slices cpu_hz rtc r h in (passed.time, passed.rest)

-- ===== src/Rtc/Ports.antt =====
-- Power on, reset, the passing of time and the two ports of the clock.
use model_lib.Base.{
  ℤ, pos, negsuc, ℕ, ◌+◌, ◌-◌, ◌*◌, ◌/◌, ◌%◌, Bool, true, false, not, ◌&&◌, ◌||◌, Option, none,
  some, [], ◌∷◌, ltb, leb, ◌==◌, if◌then◌else◌, nonzero, switch, bit_and,
}
use model_lib.Rtc.Chip.{Registers, MsxRtc, register_masks, store}
use model_lib.Rtc.Calendar.{u64, Time, set_time, advance_time, rtc_advance_seconds}

-- The fields of `struct tm` that are read.
pub record Tm : Type 0 where
  pub tm_sec : ℕ
  pub tm_min : ℕ
  pub tm_hour : ℕ
  pub tm_mday : ℕ
  pub tm_mon : ℕ
  pub tm_year : ℕ
  pub tm_wday : ℕ

-- `local` is what `localtime` returns; its year is not below 1900.
unfoldable pub host_time : Option Tm → Time
host_time none = record {
  seconds = 0;
  minutes = 0;
  hours = 0;
  weekday = 6;
  date = record { day = 1; month = 1; year = 3; leap_year = 3 };
}
host_time (some local) = record {
  seconds = tm_sec;
  minutes = tm_min;
  hours = tm_hour;
  weekday = tm_wday;
  date = record {
    day = tm_mday;
    month = tm_mon + 1;
    year = (tm_year + 100 - 80) % 100;
    leap_year = bit_and tm_year 3;
  };
}
  where
    open local use {tm_sec, tm_min, tm_hour, tm_wday, tm_mday, tm_mon, tm_year}

unfoldable pub rtc_reset : MsxRtc → MsxRtc
rtc_reset rtc = record rtc {
  latch = 0;
  mode = 0x08;
  test = 0;
  reset = 0;
  test_cycle_accumulator = 0;
  dirty = true;
}

-- `time(NULL)`, where an error is -1.
unfoldable pub rtc_host_seconds : ℤ → ℕ
rtc_host_seconds (pos now) = now
rtc_host_seconds (negsuc now) = 0

module _ (localtime : ℕ → Option Tm) where
  unfoldable pub rtc_init_at : ℕ → MsxRtc
  unfolding rtc_reset
  rtc_init_at host_seconds =
      record (rtc_reset (record {
        registers = set_time register_masks (host_time (localtime host_seconds));
        latch = 0;
        mode = 0;
        test = 0;
        reset = 0;
        cycle_accumulator = 0;
        test_cycle_accumulator = 0;
        dirty = false;
      })) { dirty = false }

  unfoldable pub rtc_init : ℤ → MsxRtc
  unfolding rtc_init_at rtc_host_seconds
  rtc_init now = rtc_init_at (rtc_host_seconds now)

-- Whole seconds of the running clock.
unfoldable pub count_cycles : MsxRtc → ℕ → ℕ → MsxRtc
count_cycles rtc cycles cpu_hz =
    let total = u64 (rtc.cycle_accumulator + cycles) in
    if leb cpu_hz total
    then rtc_advance_seconds (record rtc { cycle_accumulator = total % cpu_hz }) (total / cpu_hz)
    else (record rtc { cycle_accumulator = total })

-- The fast counting of the test register.
unfoldable pub count_test_ticks : MsxRtc → ℕ → ℕ → MsxRtc
count_test_ticks rtc cycles cpu_hz =
    let total = u64 (rtc.test_cycle_accumulator + cycles * 16384) in
    let ticks = total / cpu_hz in
    let rtc' = record rtc { test_cycle_accumulator = total % cpu_hz } in
    let chosen = λ (flag : ℕ). if nonzero (bit_and rtc.test flag) then ticks else 0 in
    if nonzero ticks then advance_time rtc' (chosen 1) (chosen 2) (chosen 4) (chosen 8) else rtc'

unfoldable pub rtc_advance : MsxRtc → ℕ → ℕ → MsxRtc
rtc_advance rtc cycles cpu_hz =
    if not (nonzero cpu_hz) || not (nonzero cycles)
    then rtc
    else let counted =
        if nonzero (bit_and rtc.mode 8) then count_cycles rtc cycles cpu_hz else rtc in
      if nonzero counted.test then count_test_ticks counted cycles cpu_hz else counted

unfoldable pub rtc_select : MsxRtc → ℕ → MsxRtc
rtc_select rtc value = record rtc { latch = bit_and value 0x0f }

unfoldable pub rtc_read_data : MsxRtc → ℕ
unfolding register_masks
rtc_read_data rtc =
    let block = bit_and rtc.mode 3 in
    switch rtc.latch (((13 ∷ []), rtc.mode) ∷ ((14 ∷ 15 ∷ []), 0x0f) ∷ [])
      (bit_and (rtc.registers block rtc.latch) (register_masks block rtc.latch))

-- `rtc->dirty = true` where the new value differs.
abbrev pub or_changed : Bool → ℕ → ℕ → Bool
or_changed dirty old new = if old == new then dirty else true

abbrev pub clear_alarm : Registers → Registers
clear_alarm registers b r = if (b == 1) && leb 2 r && ltb r 9 then 0 else registers b r

unfoldable pub write_reset : MsxRtc → ℕ → MsxRtc
write_reset rtc value =
    let alarm = nonzero (bit_and value 1) in
    record rtc {
      reset = value;
      registers = if alarm then clear_alarm rtc.registers else rtc.registers;
      dirty = if alarm then true else rtc.dirty;
      cycle_accumulator = if nonzero (bit_and value 2) then 0 else rtc.cycle_accumulator;
    }

unfoldable pub write_register : MsxRtc → ℕ → MsxRtc
unfolding register_masks
write_register rtc value =
    let block = bit_and rtc.mode 3 in
    let value = bit_and value (register_masks block rtc.latch) in
    record rtc {
      registers = store rtc.registers block rtc.latch value;
      dirty = or_changed rtc.dirty (rtc.registers block rtc.latch) value;
    }

unfoldable pub rtc_write_data : MsxRtc → ℕ → MsxRtc
unfolding write_reset write_register
rtc_write_data rtc value =
    let value = bit_and value 0x0f in
    switch rtc.latch
      (((13 ∷ []), record rtc { mode = value; dirty = or_changed rtc.dirty rtc.mode value })
        ∷ (
          (14 ∷ []),
          record rtc {
            test = value;
            test_cycle_accumulator = if rtc.test == value then rtc.test_cycle_accumulator else 0;
          },
        )
        ∷ ((15 ∷ []), write_reset rtc value)
        ∷ [])
      (write_register rtc value)

unfoldable pub rtc_dirty : MsxRtc → Bool
rtc_dirty rtc = rtc.dirty

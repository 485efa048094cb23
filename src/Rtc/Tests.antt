-- ===== src/Rtc/Tests.antt =====
-- Runs of the clock, and the theorems at concrete inputs.
use model_lib.Base.{
  ℕ, ◌+◌, ◌/◌, ◌%◌, ◌≡◌, ◌≢◌, ◌⊎◌, refl, true, false, Option, none, some, [], ◌∷◌, arith,
}
use model_lib.Rtc.Chip.{MsxRtc, register_masks}
use model_lib.Rtc.Calendar.{
  Date, days_in_month, next_month, remaining, add_days_loop, set_time, get_time, add_time,
  advance_time, rtc_advance_seconds,
}
use model_lib.Rtc.Ports.{Tm, host_time, rtc_init_at, rtc_select, rtc_read_data, rtc_write_data}
use model_lib.Rtc.Record.{
  write_le32, read_le32, read_le64, persistence_checksum, valid_persisted_registers, all_in_masks,
  valid_bcd_pair, valid_date, valid_raw_hour,
}
use model_lib.Rtc.Persist.{
  loaded, opened, Files, Host, saved_record, rtc_save_persistence, rtc_load_persistence,
  invalid_size, refused, payload, load_record, unsealed_record, valid_header,
}
use model_lib.Rtc.Laws.Calendar.{iterate, tomorrow, add_days_loop-iterate, add_days_loop_past_end}
use model_lib.Rtc.Laws.Time.{IsTime, next_second}
use model_lib.Rtc.Laws.Advance.{IsClock, rtc_advance_seconds-iterate, rtc_advance_seconds-IsClock}
use model_lib.Rtc.Laws.Slices.{IsRunning, rtc_advance_all, rtc_advance_all_lem}
use model_lib.Rtc.Laws.Ports.{rtc_read_data-rtc_write_data, rtc_init_at_lem}
use model_lib.Rtc.Laws.Load.{IsShown, rtc_load_persistence-IsShown}
use model_lib.Rtc.Laws.Persist.{
  elapsed, shown, read_back, rtc_save_persistence_lem, rtc_load_persistence-rtc_save_persistence,
}

-- 2 January 1984, a Monday, 23:59:58.
abbrev evening : Tm
evening = record {
  tm_sec = 58;
  tm_min = 59;
  tm_hour = 23;
  tm_mday = 2;
  tm_mon = 0;
  tm_year = 84;
  tm_wday = 1;
}

-- A host whose local time is that.
abbrev at_evening : ℕ → Option Tm
at_evening host_seconds = some evening

evening-IsTime : IsTime (host_time (some evening))
unfolding host_time days_in_month
evening-IsTime = omega arith

abbrev start : MsxRtc
start = rtc_init_at at_evening 441849598

start-IsClock : IsClock start.registers
start-IsClock = (rtc_init_at_lem at_evening 441849598 evening-IsTime).1

past_midnight : get_time (rtc_advance_seconds start 3).registers ≡ record {
  seconds = 1;
  minutes = 0;
  hours = 0;
  weekday = 2;
  date = record { day = 3; month = 1; year = 4; leap_year = 0 };
}
unfolding rtc_init_at host_time set_time register_masks rtc_advance_seconds advance_time get_time
    add_time remaining next_month
past_midnight = refl

rtc_advance_seconds-iterate_example :
    get_time (rtc_advance_seconds start 100000).registers
    ≡ iterate 100000 next_second (get_time start.registers)
rtc_advance_seconds-iterate_example =
    rtc_advance_seconds-iterate start 100000 start-IsClock (omega arith)

rtc_advance_seconds-IsClock_example : IsClock (rtc_advance_seconds start 100000).registers
rtc_advance_seconds-IsClock_example =
    rtc_advance_seconds-IsClock start 100000 start-IsClock (omega arith)

start-IsRunning : IsRunning 3579545 start
unfolding rtc_init_at
start-IsRunning = record {
  clock = start-IsClock;
  fraction = omega arith;
  timer_on = refl;
  no_test = refl;
}

rtc_advance_all_lem_example :
    (get_time (rtc_advance_all 3579545 start (2000000 ∷ 2000000 ∷ [])).registers
      ≡ iterate
          ((start.cycle_accumulator + 4000000) / 3579545)
          next_second
          (get_time start.registers))
    × ((rtc_advance_all 3579545 start (2000000 ∷ 2000000 ∷ [])).cycle_accumulator
        ≡ (start.cycle_accumulator + 4000000) % 3579545)
unfolding rtc_init_at
rtc_advance_all_lem_example =
    rtc_advance_all_lem (2000000 ∷ 2000000 ∷ []) 3579545 start start-IsRunning (omega arith)

abbrev leap_day : Date
leap_day = record { day = 28; month = 2; year = 4; leap_year = 0 }

add_days_loop-iterate_example : add_days_loop 400 400 leap_day ≡ (0, iterate 400 tomorrow leap_day)
unfolding days_in_month
add_days_loop-iterate_example = add_days_loop-iterate 400 400 leap_day (omega arith) (omega arith)

leap_year_passes :
    add_days_loop 366 366 leap_day ≡ (0, record { day = 28; month = 2; year = 5; leap_year = 1 })
unfolding add_days_loop remaining next_month days_in_month
leap_year_passes = refl

-- 31 February, as a program may set it.
abbrev no_date : Date
no_date = record { day = 31; month = 2; year = 5; leap_year = 1 }

add_days_loop_past_end_example :
    add_days_loop 60 60 no_date ≡ (0, record { day = 91; month = 2; year = 5; leap_year = 1 })
unfolding days_in_month
add_days_loop_past_end_example = add_days_loop_past_end 60 no_date (omega arith) (omega arith)

rtc_read_data-rtc_write_data_example :
    rtc_read_data (rtc_write_data (rtc_select start 0x23) 0xff) ≡ 0x07
unfolding rtc_select rtc_init_at register_masks
rtc_read_data-rtc_write_data_example =
    rtc_read_data-rtc_write_data (rtc_select start 0x23) 0xff (omega arith)

abbrev good_host : Host
good_host = record { created = true; written = true; flushed = true; closed = true; renamed = true }

abbrev no_files : Files
no_files = record { target = none; temporary = none }

start_valid : valid_persisted_registers start.registers ≡ true
unfolding rtc_init_at host_time set_time register_masks valid_persisted_registers all_in_masks
    valid_bcd_pair valid_date valid_raw_hour days_in_month
start_valid = refl

rtc_save_persistence_lem_example :
    let (rtc', files', message) = rtc_save_persistence start true good_host no_files 500 in
    ((message ≡ none) × (files'.target ≡ some (saved_record start 500)) × (rtc'.dirty ≡ false))
    ⊎ ((message ≢ none) × (files'.target ≡ no_files.target) × (rtc' ≡ start))
rtc_save_persistence_lem_example = rtc_save_persistence_lem start true good_host no_files 500

rtc_load_persistence-rtc_save_persistence_example :
    shown (
      rtc_load_persistence start true
        (read_back (rtc_save_persistence start true good_host no_files 500).1.target)
        86900)
    ≡ some (iterate (elapsed start 500 86900) next_second (get_time start.registers))
unfolding rtc_save_persistence
rtc_load_persistence-rtc_save_persistence_example =
    rtc_load_persistence-rtc_save_persistence start start true good_host no_files 500 86900
      start_valid (omega arith) (omega arith) refl

abbrev reloaded : MsxRtc
reloaded = record start { registers = payload (saved_record start 500); dirty = false }

reload :
    rtc_load_persistence start true (opened (saved_record start 500) false true) 500
    ≡ loaded reloaded
unfolding rtc_load_persistence load_record rtc_init_at host_time set_time register_masks
    valid_persisted_registers all_in_masks valid_bcd_pair valid_date valid_raw_hour days_in_month
    saved_record unsealed_record write_le32 read_le32 read_le64 persistence_checksum valid_header
reload = refl

rtc_load_persistence-IsShown_example : IsShown reloaded.registers
rtc_load_persistence-IsShown_example =
    rtc_load_persistence-IsShown start true (opened (saved_record start 500) false true) 500
      reloaded reload

short_file :
    rtc_load_persistence start true (opened (1 ∷ 2 ∷ []) false true) 500 ≡ refused invalid_size
unfolding rtc_load_persistence
short_file = refl

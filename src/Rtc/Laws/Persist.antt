-- ===== src/Rtc/Laws/Persist.antt =====
-- Saving and loading the clock.
use model_lib.Base.{
  ℕ, ◌+◌, ◌-◌, ◌≤◌, ◌<◌, ◌≡◌, ◌≢◌, ◌⊎◌, inl, inr, refl, sym, ap, ◌∙◌, Bool, true, false, ◌&&◌,
  Option, none, some, List, arith, ltb, if◌then◌else◌, nonzero, ==_iff, Bool-cases, length, bit_and,
}
use model_lib.Base.Bits.{bit_and_again}
use model_lib.Rtc.Chip.{Registers, MsxRtc, decode_pair}
use model_lib.Rtc.Calendar.{days_in_month, Time, get_time, rtc_advance_seconds}
use model_lib.Rtc.Record.{
  read_le32, read_le64, write_le32, persistence_checksum, valid_persisted_registers, valid_bcd_pair,
  valid_date, all_in_masks, valid_raw_hour,
}
use model_lib.Rtc.Persist.{
  missing, max_offline_seconds, register_bytes, LoadResult, loaded, no_file, refused, payload,
  valid_header, load_record, unsealed_record, saved_record, Files, Host, rtc_save_persistence,
  Opened, opened, rtc_load_persistence, bytes_equal, persistence_magic,
}
use model_lib.Rtc.Laws.Calendar.{iterate}
use model_lib.Rtc.Laws.Time.{next_second}
use model_lib.Rtc.Laws.Advance.{IsClock, rtc_advance_seconds-iterate}
use model_lib.Rtc.Laws.Bytes.{read_le32-write_le32, checksum-write_le32, checksum_bound, joined64}

saved_length : (rtc : MsxRtc) (s : ℕ) → length (unsealed_record rtc s) ≡ 84
unfolding unsealed_record
saved_length rtc s = refl

saved_seconds :
    (rtc : MsxRtc) (s : ℕ) → s < 18446744073709551616 → read_le64 (saved_record rtc s) 16 ≡ s
unfolding saved_record unsealed_record write_le32 read_le64
saved_seconds rtc s h = joined64 s h

saved_flags :
    (rtc : MsxRtc) (s : ℕ)
    → read_le32 (saved_record rtc s) 24 ≡ (if nonzero (bit_and rtc.mode 8) then 1 else 0)
unfolding saved_record unsealed_record write_le32 read_le32
saved_flags rtc s = ground arith

saved_valid :
    (rtc : MsxRtc) (s : ℕ)
    → valid_persisted_registers (payload (saved_record rtc s))
      ≡ valid_persisted_registers rtc.registers
unfolding saved_record unsealed_record write_le32 valid_persisted_registers all_in_masks
    valid_bcd_pair valid_date valid_raw_hour decode_pair
saved_valid rtc s = refl

saved_time :
    (rtc : MsxRtc) (s : ℕ) → get_time (payload (saved_record rtc s)) ≡ get_time rtc.registers
unfolding saved_record unsealed_record write_le32 get_time
saved_time rtc s = refl

sealed :
    (rtc : MsxRtc) (s : ℕ)
    → read_le32 (saved_record rtc s) 80 ≡ persistence_checksum (saved_record rtc s) 80
unfolding saved_record
sealed rtc s =
    let bytes = unsealed_record rtc s in
    let inside : 83 < length bytes = omega (arith, saved_length rtc s) in
    read_le32-write_le32 bytes 80 (persistence_checksum bytes 80) inside (checksum_bound bytes 80)
    ∙ sym (checksum-write_le32 bytes 80 80 (persistence_checksum bytes 80) (omega arith))

saved_start :
    (rtc : MsxRtc) (s : ℕ)
    → (bytes_equal persistence_magic (saved_record rtc s) ≡ true)
      × (read_le32 (saved_record rtc s) 8 ≡ 2)
      × (read_le32 (saved_record rtc s) 12 ≡ 52)
unfolding saved_record unsealed_record write_le32 read_le32
saved_start rtc s = (refl, refl, refl)

saved_header : (rtc : MsxRtc) (s : ℕ) → valid_header (saved_record rtc s) ≡ true
unfolding valid_header
saved_header rtc s =
    let (magic, version, count) = saved_start rtc s in
    simp (magic, version, count) ((==_iff _ _).1 (sealed rtc s))

-- All 52 registers.
saved_registers :
    (rtc : MsxRtc) (s : ℕ)
    → register_bytes (payload (saved_record rtc s)) ≡ register_bytes rtc.registers
unfolding saved_record unsealed_record write_le32 register_bytes
saved_registers rtc s = refl

same_length : (month leap : ℕ) → days_in_month month (bit_and leap 3) ≡ days_in_month month leap
unfolding days_in_month
same_length month leap = rw (bit_and_again leap 3)

bcd_bound :
    (registers : Registers) (low maximum : ℕ)
    → valid_bcd_pair registers low maximum ≡ true
    → decode_pair registers 0 low ≤ maximum
unfolding valid_bcd_pair
bcd_bound registers low maximum h = ground arith

date_bounds :
    (registers : Registers)
    → valid_date registers ≡ true
    → (1 ≤ decode_pair registers 0 7)
      × (1 ≤ decode_pair registers 0 9)
      × (decode_pair registers 0 7
          ≤ days_in_month (decode_pair registers 0 9) (bit_and (registers 1 11) 3))
unfolding valid_date
date_bounds registers h = ground (arith, same_length (decode_pair registers 0 9) (registers 1 11))

-- The checks on a file accept nothing but a time of day and a date.
pub valid_persisted_registers-IsClock :
    (registers : Registers) → valid_persisted_registers registers ≡ true → IsClock registers
unfolding valid_persisted_registers
valid_persisted_registers-IsClock registers h =
    let bounds = date_bounds registers (ground arith) in
    ground (
      arith,
      bcd_bound registers 0 59,
      bcd_bound registers 2 59,
      bcd_bound registers 9 12,
      bcd_bound registers 11 99,
    )

-- The seconds that a loaded clock has missed: none if its timer was stopped.
abbrev pub elapsed : MsxRtc → ℕ → ℕ → ℕ
elapsed rtc saved now = if nonzero (bit_and rtc.mode 8) && ltb saved now then now - saved else 0

-- What the clock shows after a load.
abbrev pub shown : LoadResult → Option Time
shown (loaded rtc) = some (get_time rtc.registers)
shown no_file = none
shown (refused m) = none

-- A host that can read the file and close it.
abbrev pub read_back : Option (List ℕ) → Opened
read_back none = missing
read_back (some bytes) = opened bytes false true

abbrev pub kept : MsxRtc → List ℕ → MsxRtc
kept old bytes = record old { registers = payload bytes; dirty = false }

no_seconds : (rtc : MsxRtc) → rtc_advance_seconds rtc 0 ≡ rtc
unfolding rtc_advance_seconds
no_seconds rtc = refl

loaded_record :
    (old rtc : MsxRtc) (saved now : ℕ)
    → valid_persisted_registers rtc.registers ≡ true
    → saved < 18446744073709551616
    → now ≤ saved + max_offline_seconds
    → load_record old (saved_record rtc saved) now
      ≡ loaded (rtc_advance_seconds (kept old (saved_record rtc saved)) (elapsed rtc saved now))
unfolding load_record
loaded_record old rtc saved now v h near =
    let valid = saved_valid rtc saved ∙ v in
    let time = saved_seconds rtc saved h in
    let same = no_seconds (kept old (saved_record rtc saved)) in
    elim (Bool-cases (nonzero (bit_and rtc.mode 8))) [
      | inl on ↦
          simp (saved_header rtc saved, valid, time, saved_flags rtc saved, on)
            (ground (arith, same))
      | inr off ↦
          simp (saved_header rtc saved, valid, time, saved_flags rtc saved, off)
            (ground (arith, same))
    ]

loaded_time :
    (old rtc : MsxRtc) (saved seconds : ℕ)
    → valid_persisted_registers rtc.registers ≡ true
    → seconds < 9223372036854775808
    → get_time (rtc_advance_seconds (kept old (saved_record rtc saved)) seconds).registers
      ≡ iterate seconds next_second (get_time rtc.registers)
loaded_time old rtc saved seconds v h =
    let clock = valid_persisted_registers-IsClock _ (saved_valid rtc saved ∙ v) in
    rtc_advance_seconds-iterate (kept old (saved_record rtc saved)) seconds clock h
    ∙ ap (iterate seconds next_second) (saved_time rtc saved)

-- A save either replaces the file by the new record and leaves the clock clean, or reports a
-- message and leaves the old file and the clock as they were.
pub rtc_save_persistence_lem :
    (rtc : MsxRtc) (path_fits : Bool) (host : Host) (files : Files) (saved : ℕ)
    → let (rtc', files', message) = rtc_save_persistence rtc path_fits host files saved in
      ((message ≡ none) × (files'.target ≡ some (saved_record rtc saved)) × (rtc'.dirty ≡ false))
      ⊎ ((message ≢ none) × (files'.target ≡ files.target) × (rtc' ≡ rtc))
unfolding rtc_save_persistence
rtc_save_persistence_lem rtc path_fits host files saved = ground arith

saved_file :
    (rtc : MsxRtc) (path_fits : Bool) (host : Host) (files : Files) (saved : ℕ)
    → (rtc_save_persistence rtc path_fits host files saved).2 ≡ none
    → (rtc_save_persistence rtc path_fits host files saved).1.target ≡ some (saved_record rtc saved)
saved_file rtc path_fits host files saved e =
    elim (rtc_save_persistence_lem rtc path_fits host files saved) [
      | inl done ↦ done.1
      | inr kept_old ↦ absurd (kept_old.0 e)
    ]

all_saved : (rtc : MsxRtc) (saved : ℕ) → length (saved_record rtc saved) ≡ 84
unfolding saved_record unsealed_record write_le32
all_saved rtc saved = refl

read_saved :
    (old rtc : MsxRtc) (target : Option (List ℕ)) (saved now : ℕ)
    → target ≡ some (saved_record rtc saved)
    → rtc_load_persistence old true (read_back target) now
      ≡ load_record old (saved_record rtc saved) now
unfolding rtc_load_persistence
read_saved old rtc target saved now e = rw (e, read_back) (simp (all_saved rtc saved))

-- A clock that was saved without an error and is loaded again shows the time that it was saved
-- with, moved on by the seconds in between if its timer was running.
pub rtc_load_persistence-rtc_save_persistence :
    (old rtc : MsxRtc) (path_fits : Bool) (host : Host) (files : Files) (saved now : ℕ)
    → valid_persisted_registers rtc.registers ≡ true
    → saved < 18446744073709551616
    → now ≤ saved + max_offline_seconds
    → (rtc_save_persistence rtc path_fits host files saved).2 ≡ none
    → shown (
        rtc_load_persistence old true
          (read_back (rtc_save_persistence rtc path_fits host files saved).1.target)
          now)
      ≡ some (iterate (elapsed rtc saved now) next_second (get_time rtc.registers))
rtc_load_persistence-rtc_save_persistence old rtc path_fits host files saved now v h near e =
    let target = (rtc_save_persistence rtc path_fits host files saved).1.target in
    let found = saved_file rtc path_fits host files saved e in
    ap shown (read_saved old rtc target saved now found ∙ loaded_record old rtc saved now v h near)
    ∙ ap some (loaded_time old rtc saved (elapsed rtc saved now) v (ground arith))

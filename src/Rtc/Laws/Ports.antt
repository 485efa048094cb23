-- ===== src/Rtc/Laws/Ports.antt =====
-- The ports of the clock, power on and reset.
use model_lib.Base.{
  ℕ, ◌≤◌, ◌<◌, ◌≡◌, refl, ap, ◌∙◌, true, Option, arith, ltb, ◌==◌, if◌then◌else◌, bit_and,
}
use model_lib.Base.Bits.{bit_and_again}
use model_lib.Rtc.Chip.{Registers, MsxRtc, register_masks, store, twenty_four_hour_mode}
use model_lib.Rtc.Calendar.{Time, get_time, set_time}
use model_lib.Rtc.Ports.{Tm, host_time, rtc_init_at, rtc_read_data, rtc_write_data, write_register}
use model_lib.Rtc.Laws.Time.{IsTime}
use model_lib.Rtc.Laws.Digits.{get_time-set_time}
use model_lib.Rtc.Laws.Advance.{IsClock, set_time-IsClock}

-- The register that the latch and the mode select.
abbrev pub selected_mask : MsxRtc → ℕ
selected_mask rtc = register_masks (bit_and rtc.mode 3) rtc.latch

write_selected :
    (rtc : MsxRtc) (value : ℕ)
    → rtc.latch < 13
    → rtc_write_data rtc value ≡ write_register rtc (bit_and value 0x0f)
unfolding rtc_write_data
write_selected rtc value h = ground arith

read_selected :
    (rtc : MsxRtc)
    → rtc.latch < 13
    → rtc_read_data rtc ≡ bit_and (rtc.registers (bit_and rtc.mode 3) rtc.latch) (selected_mask rtc)
unfolding rtc_read_data
read_selected rtc h = ground arith

same_store : (registers : Registers) (b r value : ℕ) → store registers b r value b r ≡ value
same_store registers b r value = ground arith

read_low :
    (rtc : MsxRtc) (value : ℕ)
    → rtc.latch < 13
    → rtc_read_data (rtc_write_data rtc value) ≡ bit_and (bit_and value 0x0f) (selected_mask rtc)
unfolding write_register
read_low rtc value h =
    let block = bit_and rtc.mode 3 in
    let kept = bit_and (bit_and value 0x0f) (selected_mask rtc) in
    ap rtc_read_data (write_selected rtc value h)
    ∙ read_selected (write_register rtc (bit_and value 0x0f)) h
    ∙ ap (λ v. bit_and v (selected_mask rtc)) (same_store rtc.registers block rtc.latch kept)
    ∙ bit_and_again (bit_and value 0x0f) (selected_mask rtc)

read_high :
    (rtc : MsxRtc) (value : ℕ)
    → 13 ≤ rtc.latch
    → rtc.latch < 16
    → rtc_read_data (rtc_write_data rtc value)
      ≡ (if rtc.latch == 13 then bit_and value 0x0f else 0x0f)
unfolding rtc_read_data rtc_write_data
read_high rtc value h k = ground arith

-- What a read gives after a write, at every latch: the masked value for a register of a block,
-- the mode itself, and 0x0f for the two registers that cannot be read.
pub rtc_read_data-rtc_write_data :
    (rtc : MsxRtc) (value : ℕ)
    → rtc.latch < 16
    → rtc_read_data (rtc_write_data rtc value) ≡ (
        if ltb rtc.latch 13
        then bit_and (bit_and value 0x0f) (selected_mask rtc)
        else if rtc.latch == 13
        then bit_and value 0x0f
        else 0x0f)
rtc_read_data-rtc_write_data rtc value h = ground (arith, read_low rtc value, read_high rtc value)

mode_kept :
    (registers : Registers) (t : Time)
    → twenty_four_hour_mode (set_time registers t) ≡ twenty_four_hour_mode registers
unfolding twenty_four_hour_mode set_time
mode_kept registers t = refl

blank_high : twenty_four_hour_mode register_masks ≡ true
unfolding twenty_four_hour_mode register_masks
blank_high = refl

-- A new clock shows the time of the host, in the 24-hour mode, and holds a valid date.
pub rtc_init_at_lem :
    (localtime : ℕ → Option Tm) (host_seconds : ℕ)
    → let local = host_time (localtime host_seconds) in
      let rtc = rtc_init_at localtime host_seconds in
      IsTime local
      → (get_time rtc.registers ≡ local)
        × IsClock rtc.registers
        × (twenty_four_hour_mode rtc.registers ≡ true)
unfolding rtc_init_at
rtc_init_at_lem localtime host_seconds v =
    let local = host_time (localtime host_seconds) in
    (
      get_time-set_time register_masks local v,
      set_time-IsClock register_masks local v,
      mode_kept register_masks local ∙ blank_high,
    )

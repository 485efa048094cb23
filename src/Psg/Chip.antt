-- ===== src/Psg/Chip.antt =====
-- The registers of the sound generator: the struct of src/psg.h and the access functions of
-- src/psg.c. `envelope_step` is -1 only inside advance_envelope, and `volume` is always clamped,
-- so that both are naturals here.
use model_lib.Base.{
  ℕ, zero, suc, ◌+◌, ◌-◌, ◌*◌, ◌/◌, bit_and, bit_or, Bool, true, false, ◌||◌, List, [], ◌∷◌,
}
use model_lib.Base.{
  ltb, leb, ◌==◌, if◌then◌else◌, nonzero, u16, ◌<<<◌, get_or, set, replicate, ℤ, pos, negsuc,
}

pub data PsgVariant : Type 0 where
  psg_variant_ay8910 psg_variant_ym2149 : PsgVariant

pub record Psg : Type 0 where
  pub variant : PsgVariant
  pub registers : List ℕ
  pub selected : ℕ
  pub tone_counter : List ℕ
  pub tone_output : List Bool
  pub noise_counter : ℕ
  pub noise_lfsr : ℕ
  pub envelope_counter : ℕ
  pub envelope_step : ℕ
  pub envelope_attack : ℕ
  pub envelope_hold : Bool
  pub envelope_alternate : Bool
  pub envelope_holding : Bool
  pub clock_fraction : ℕ
  pub highpass_input : ℤ
  pub highpass_output : ℤ
  pub lowpass_output : ℤ
  pub volume : ℕ
  pub fixed_levels : List ℕ
  pub ym_envelope_levels : List ℕ

abbrev pub psg_register_count : ℕ
psg_register_count = 16

abbrev pub fixed_amplitude : List ℕ
fixed_amplitude =
    0 ∷ 85 ∷ 121 ∷ 171 ∷ 241 ∷ 341 ∷ 483 ∷ 683 ∷ 965 ∷ 1365 ∷ 1931 ∷ 2730 ∷ 3862 ∷ 5461 ∷ 7723
    ∷ 10922 ∷ []

abbrev pub ym_envelope_amplitude : List ℕ
ym_envelope_amplitude =
    0 ∷ 60 ∷ 72 ∷ 85 ∷ 101 ∷ 121 ∷ 144 ∷ 171 ∷ 203 ∷ 241 ∷ 287 ∷ 341 ∷ 406 ∷ 483 ∷ 574 ∷ 683 ∷ 812
    ∷ 965 ∷ 1148 ∷ 1365 ∷ 1624 ∷ 1931 ∷ 2296 ∷ 2730 ∷ 3247 ∷ 3862 ∷ 4592 ∷ 5461 ∷ 6494 ∷ 7723 ∷ 9184
    ∷ 10922 ∷ []

unfoldable pub clamp_volume : ℤ → ℕ
clamp_volume (pos n) = if ltb 100 n then 100 else n
clamp_volume (negsuc n) = 0

abbrev pub scaled : ℕ → List ℕ → List ℕ
scaled gain [] = []
scaled gain (a ∷ rest) = (a * gain + 5000) / 10000 ∷ scaled gain rest

unfoldable pub rebuild_levels : Psg → Psg
rebuild_levels s = record s {
  fixed_levels = scaled (s.volume * s.volume) fixed_amplitude;
  ym_envelope_levels = scaled (s.volume * s.volume) ym_envelope_amplitude;
}

-- `period ? period : least`
abbrev pub at_least_one : ℕ → ℕ
at_least_one zero = 1
at_least_one (suc n) = suc n

unfoldable pub tone_period : ℕ → Psg → ℕ
tone_period channel s = at_least_one (
    bit_or (get_or s.registers (channel * 2) 0)
      (bit_and (get_or s.registers (channel * 2 + 1) 0) 0x0f <<< 8))

unfoldable pub noise_period : Psg → ℕ
noise_period s = at_least_one (bit_and (get_or s.registers 6 0) 0x1f)

unfoldable pub envelope_period : Psg → ℕ
envelope_period s =
    let period = bit_or (get_or s.registers 11 0) (get_or s.registers 12 0 <<< 8) in
    if nonzero period then period * 8 else 4

unfoldable pub restart_envelope : ℕ → Psg → Psg
restart_envelope shape s =
    let attack = if nonzero (bit_and shape 0x04) then 0x1f else 0x00 in
    let continues = nonzero (bit_and shape 0x08) in
    record s {
      envelope_attack = attack;
      envelope_hold = if continues then nonzero (bit_and shape 0x01) else true;
      envelope_alternate = if continues then nonzero (bit_and shape 0x02) else nonzero attack;
      envelope_counter = 0;
      envelope_step = 0x1f;
      envelope_holding = false;
    }

-- `memset`, and what a reset keeps.
abbrev cleared : PsgVariant → ℕ → Psg
cleared variant volume = record {
  variant = variant;
  registers = replicate psg_register_count 0;
  selected = 0;
  tone_counter = replicate 3 0;
  tone_output = replicate 3 false;
  noise_counter = 0;
  noise_lfsr = 0;
  envelope_counter = 0;
  envelope_step = 0;
  envelope_attack = 0;
  envelope_hold = false;
  envelope_alternate = false;
  envelope_holding = false;
  clock_fraction = 0;
  highpass_input = pos 0;
  highpass_output = pos 0;
  lowpass_output = pos 0;
  volume = volume;
  fixed_levels = replicate 16 0;
  ym_envelope_levels = replicate 32 0;
}

unfoldable pub psg_reset : Psg → Psg
psg_reset s =
    restart_envelope 0
      (rebuild_levels (record (cleared s.variant (clamp_volume (pos s.volume))) { noise_lfsr = 1 }))

unfoldable pub psg_init : PsgVariant → Psg
psg_init variant = psg_reset (rebuild_levels (cleared variant 80))

unfoldable pub psg_set_variant : PsgVariant → Psg → Psg
psg_set_variant variant s = record s { variant = variant }

unfoldable pub psg_set_volume : ℤ → Psg → Psg
psg_set_volume volume s = rebuild_levels (record s { volume = clamp_volume volume })

unfoldable pub psg_select : ℕ → Psg → Psg
psg_select reg s = record s { selected = bit_and reg 0x0f }

-- A counter that has reached its new limit stands just below it.
abbrev pub below_limit : ℕ → ℕ → ℕ
below_limit limit counter = if leb limit counter then limit - 1 else counter

-- What follows the store into the register.
unfoldable pub after_write : ℕ → ℕ → Psg → Psg
after_write reg value s =
    let channel = reg / 2 in
    let counter = get_or s.tone_counter channel 0 in
    if leb reg 5
    then record s {
      tone_counter =
          set s.tone_counter channel (u16 (below_limit (tone_period channel s * 8) counter));
    }
    else if reg == 6
    then record s { noise_counter = u16 (below_limit (noise_period s * 16) s.noise_counter) }
    else if (reg == 11) || (reg == 12)
    then record s { envelope_counter = below_limit (envelope_period s) s.envelope_counter }
    else if reg == 13
    then restart_envelope value s
    else s

unfoldable pub psg_write_register : ℕ → ℕ → Psg → Psg
psg_write_register reg value s =
    if leb psg_register_count reg
    then s
    else after_write reg value (record s { registers = set s.registers reg value })

unfoldable pub psg_write_data : ℕ → Psg → Psg
psg_write_data value s = psg_write_register s.selected value s

abbrev pub ay_read_mask : List ℕ
ay_read_mask =
    0xff ∷ 0x0f ∷ 0xff ∷ 0x0f ∷ 0xff ∷ 0x0f ∷ 0x1f ∷ 0xff ∷ 0x1f ∷ 0x1f ∷ 0x1f ∷ 0xff ∷ 0xff ∷ 0x0f
    ∷ 0xff ∷ 0xff ∷ []

-- What the variant shows of a register.
abbrev pub visible : PsgVariant → ℕ → ℕ → ℕ
visible psg_variant_ay8910 reg value = bit_and value (get_or ay_read_mask reg 0)
visible psg_variant_ym2149 reg value = value

unfoldable pub psg_read_register : ℕ → Psg → ℕ
psg_read_register reg s =
    if leb psg_register_count reg then 0xff else visible s.variant reg (get_or s.registers reg 0)

unfoldable pub psg_read_data : Psg → ℕ
psg_read_data s = psg_read_register s.selected s

-- ===== src/Psg/Ticks.antt =====
-- The generators of src/psg.c: tone, noise and envelope, one tick at a time.
use model_lib.Base.{ℕ, zero, suc, ◌+◌, ◌-◌, ◌*◌, ◌/◌, bit_and, bit_or, bit_xor, true, false, not}
use model_lib.Base.{leb, if◌then◌else◌, nonzero, u16, u32, ◌<<<◌, ◌>>>◌, get_or, set}
use model_lib.Psg.Chip.{
  Psg, PsgVariant, psg_variant_ay8910, psg_variant_ym2149, tone_period, noise_period,
  envelope_period,
}

abbrev pub raw_level : Psg → ℕ
raw_level s = bit_and (bit_xor s.envelope_step s.envelope_attack) 0x1f

abbrev level_of : PsgVariant → ℕ → ℕ
level_of psg_variant_ay8910 level = level / 2
level_of psg_variant_ym2149 level = level

unfoldable pub psg_envelope_level : Psg → ℕ
psg_envelope_level s = level_of s.variant (raw_level s)

unfoldable pub advance_envelope : Psg → Psg
advance_envelope s =
    let attack =
      if s.envelope_alternate then bit_xor s.envelope_attack 0x1f else s.envelope_attack in
    if s.envelope_holding
    then s
    else if nonzero s.envelope_step
    then record s { envelope_step = s.envelope_step - 1 }
    else if s.envelope_hold
    then record s { envelope_attack = attack; envelope_step = 0; envelope_holding = true }
    else record s { envelope_attack = attack; envelope_step = 0x1f }

unfoldable pub tick_tone : ℕ → Psg → Psg
tick_tone channel s =
    let counter = u16 (get_or s.tone_counter channel 0 + 1) in
    if leb (tone_period channel s * 8) counter
    then record s {
      tone_counter = set s.tone_counter channel 0;
      tone_output = set s.tone_output channel (not (get_or s.tone_output channel false));
    }
    else record s { tone_counter = set s.tone_counter channel counter }

-- One shift of the noise register.
unfoldable pub shift_noise : ℕ → ℕ
shift_noise lfsr =
    let feedback = bit_and (bit_xor lfsr (lfsr >>> 3)) 1 in
    bit_or (lfsr >>> 1) (u32 (feedback <<< 16))

unfoldable pub tick_noise : Psg → Psg
tick_noise s =
    let counter = u16 (s.noise_counter + 1) in
    if leb (noise_period s * 16) counter
    then record s { noise_counter = 0; noise_lfsr = shift_noise s.noise_lfsr }
    else record s { noise_counter = counter }

unfoldable pub tick_envelope : Psg → Psg
tick_envelope s =
    let counter = u32 (s.envelope_counter + 1) in
    if s.envelope_holding
    then s
    else if leb (envelope_period s) counter
    then advance_envelope (record s { envelope_counter = 0 })
    else record s { envelope_counter = counter }

unfoldable pub psg_tick : Psg → Psg
psg_tick s = tick_envelope (tick_noise (tick_tone 2 (tick_tone 1 (tick_tone 0 s))))

unfoldable pub psg_advance_ticks : ℕ → Psg → Psg
psg_advance_ticks zero s = s
psg_advance_ticks (suc n) s = psg_advance_ticks n (psg_tick s)

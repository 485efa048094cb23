-- ===== src/Psg/Render.antt =====
-- Sound output of src/psg.c: the mixer, the filter and the resampling. The sums of the filter are
-- `s32` in the code; that they stay in its range is not part of the model.
use model_lib.Base.{ℕ, zero, suc, ◌+◌, ◌/◌, ◌%◌, ◌^◌, bit_and, false, ◌&&◌, ◌||◌, List, [], ◌∷◌}
use model_lib.Base.{
  ◌==◌, if◌then◌else◌, nonzero, u32, ◌<<<◌, get_or, ℤ, pos, negsuc, ◌⊖◌, ◌+ℤ◌, scale, shift_right,
  clamp16,
}
use model_lib.Psg.Chip.{Psg, PsgVariant, psg_variant_ay8910, psg_variant_ym2149}
use model_lib.Psg.Ticks.{raw_level, psg_tick}

abbrev pub highpass_q15 : ℕ
highpass_q15 = 32604

abbrev pub amplitude_of : PsgVariant → ℕ → Psg → ℕ
amplitude_of psg_variant_ay8910 level s = get_or s.fixed_levels (level / 2) 0
amplitude_of psg_variant_ym2149 level s = get_or s.ym_envelope_levels level 0

unfoldable pub envelope_amplitude : Psg → ℕ
envelope_amplitude s = amplitude_of s.variant (raw_level s) s

-- The part of one channel in the mix.
unfoldable pub channel_amplitude : ℕ → Psg → ℕ
channel_amplitude channel s =
    let mixer = get_or s.registers 7 0 in
    let volume = get_or s.registers (8 + channel) 0 in
    let tone_high = nonzero (bit_and mixer (1 <<< channel)) || get_or s.tone_output channel false in
    let noise_high =
      nonzero (bit_and mixer (1 <<< (channel + 3))) || nonzero (bit_and s.noise_lfsr 1) in
    let level =
      if nonzero (bit_and volume 0x10)
      then envelope_amplitude s
      else get_or s.fixed_levels (bit_and volume 0x0f) 0 in
    if tone_high && noise_high then level else 0

unfoldable pub current_amplitude : Psg → ℕ
current_amplitude s = channel_amplitude 0 s + channel_amplitude 1 s + channel_amplitude 2 s

abbrev negated : ℤ → ℤ
negated (pos n) = 0 ⊖ n
negated (negsuc n) = pos (suc n)

unfoldable pub filter_sample : ℕ → Psg → ℤ × Psg
filter_sample input s =
    let highpass =
      pos input
      +ℤ negated s.highpass_input
      +ℤ shift_right (scale s.highpass_output highpass_q15) 15 in
    let lowpass = shift_right (highpass +ℤ s.lowpass_output) 1 in
    (
      clamp16 lowpass,
      record s { highpass_input = pos input; highpass_output = highpass; lowpass_output = lowpass },
    )

unfoldable pub sum_amplitudes : ℕ → ℕ → Psg → ℕ × Psg
sum_amplitudes zero sum s = (sum, s)
sum_amplitudes (suc n) sum s = let t = psg_tick s in sum_amplitudes n (sum + current_amplitude t) t

unfoldable pub render_sample : ℕ → ℕ → Psg → ℤ × Psg
render_sample clock_hz sample_rate s =
    let fraction = (s.clock_fraction + clock_hz) % 2 ^ 64 in
    let ticks = u32 (fraction / sample_rate) in
    let t : Psg = record s { clock_fraction = fraction % sample_rate } in
    let (sum, u) = sum_amplitudes ticks 0 t in
    if nonzero ticks then filter_sample (sum / ticks) u else filter_sample (current_amplitude t) t

unfoldable pub render_samples : ℕ → ℕ → ℕ → Psg → List ℤ × Psg
render_samples zero clock_hz sample_rate s = ([], s)
render_samples (suc n) clock_hz sample_rate s =
    let (sample, t) = render_sample clock_hz sample_rate s in
    let (samples, u) = render_samples n clock_hz sample_rate t in (sample ∷ samples, u)

-- The samples written, and the chip: none where the clock or the rate is 0.
unfoldable pub psg_render : ℕ → ℕ → ℕ → Psg → List ℤ × Psg
psg_render count clock_hz sample_rate s =
    if (clock_hz == 0) || (sample_rate == 0)
    then ([], s)
    else render_samples count clock_hz sample_rate s

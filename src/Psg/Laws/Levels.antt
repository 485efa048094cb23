-- ===== src/Psg/Laws/Levels.antt =====
-- The levels of src/psg.c: three channels at full volume fit in 16 signed bits.
use model_lib.Base.{
  ℕ, ◌+◌, ◌*◌, ◌/◌, ◌<◌, ◌≤◌, ◌≡◌, refl, arith, Bool, true, false, List, [], ◌∷◌, bit_and, bit_xor,
}
use model_lib.Base.{if◌then◌else◌, nonzero, get_or, length, All, All-get_or, ℤ, pos, negsuc}
use model_lib.Base.Bits.{bit_and-mask}
use model_lib.Psg.Chip.{
  Psg, PsgVariant, psg_variant_ay8910, psg_variant_ym2149, scaled, fixed_amplitude,
  ym_envelope_amplitude, clamp_volume, rebuild_levels, psg_set_volume,
}
use model_lib.Psg.Ticks.{raw_level}
use model_lib.Psg.Render.{amplitude_of, envelope_amplitude, channel_amplitude, current_amplitude}

-- A level is at most a third of the largest sample.
abbrev pub Quiet : ℕ → Type 0
Quiet level = level ≤ 10922

pub record HasLevels (s : Psg) : Type 0 where
  pub fixed_count : length s.fixed_levels ≡ 16
  pub fixed_quiet : All Quiet s.fixed_levels
  pub ym_count : length s.ym_envelope_levels ≡ 32
  pub ym_quiet : All Quiet s.ym_envelope_levels

clamped : (v : ℤ) → clamp_volume v ≤ 100
unfolding clamp_volume
clamped (pos n) = ground arith
clamped (negsuc n) = omega arith

level_le : (a gain : ℕ) → gain ≤ 10000 → a ≤ 10922 → (a * gain + 5000) / 10000 ≤ 10922
level_le a gain hg ha = let product : a * gain ≤ 10922 * 10000 = grind arith in omega arith

scaled-Quiet : (gain : ℕ) (xs : List ℕ) → gain ≤ 10000 → All Quiet xs → All Quiet (scaled gain xs)
scaled-Quiet gain [] h q = tt
scaled-Quiet gain (x ∷ xs) h q = (level_le x gain h q.0, scaled-Quiet gain xs h q.1)

square_le : (v : ℕ) → v ≤ 100 → v * v ≤ 10000
square_le v h = grind arith

rebuild_levels-HasLevels : (s : Psg) → s.volume ≤ 100 → HasLevels (rebuild_levels s)
unfolding rebuild_levels
rebuild_levels-HasLevels s h = record {
  fixed_count = refl;
  fixed_quiet =
      scaled-Quiet (s.volume * s.volume) fixed_amplitude (square_le s.volume h) (omega arith);
  ym_count = refl;
  ym_quiet =
      scaled-Quiet (s.volume * s.volume) ym_envelope_amplitude (square_le s.volume h) (omega arith);
}

raw_level-lt : (s : Psg) → raw_level s < 32
raw_level-lt s = omega (arith, bit_and-mask 5 (bit_xor s.envelope_step s.envelope_attack))

amplitude_of-Quiet :
    (v : PsgVariant) (level : ℕ) (s : Psg)
    → HasLevels s
    → level < 32
    → Quiet (amplitude_of v level s)
amplitude_of-Quiet psg_variant_ay8910 level s h lt =
    All-get_or Quiet s.fixed_levels (level / 2) 0 h.fixed_quiet (omega (arith, h.fixed_count))
amplitude_of-Quiet psg_variant_ym2149 level s h lt =
    All-get_or Quiet s.ym_envelope_levels level 0 h.ym_quiet (omega (arith, h.ym_count))

envelope_amplitude-Quiet : (s : Psg) → HasLevels s → Quiet (envelope_amplitude s)
unfolding envelope_amplitude
envelope_amplitude-Quiet s h = amplitude_of-Quiet s.variant (raw_level s) s h (raw_level-lt s)

if-Quiet : (b : Bool) (x y : ℕ) → Quiet x → Quiet y → Quiet (if b then x else y)
if-Quiet true x y p q = p
if-Quiet false x y p q = q

channel_amplitude-Quiet : (k : ℕ) (s : Psg) → HasLevels s → Quiet (channel_amplitude k s)
unfolding channel_amplitude
channel_amplitude-Quiet k s h =
    let volume = get_or s.registers (8 + k) 0 in
    let fixed =
      All-get_or Quiet s.fixed_levels (bit_and volume 0x0f) 0 h.fixed_quiet
        (omega (arith, h.fixed_count, bit_and-mask 4 volume)) in
    if-Quiet _ _ 0
      (if-Quiet (nonzero (bit_and volume 0x10)) _ _ (envelope_amplitude-Quiet s h) fixed)
      (omega arith)

-- Whatever volume is set, out of range or not, and whatever the registers hold, the mix of the
-- three channels fits in a signed sample of 16 bits.
pub current_amplitude-psg_set_volume :
    (v : ℤ) (s : Psg) → current_amplitude (psg_set_volume v s) ≤ 32766
unfolding current_amplitude psg_set_volume
current_amplitude-psg_set_volume v s =
    let t : Psg = psg_set_volume v s in
    let h : HasLevels t =
      rebuild_levels-HasLevels (record s { volume = clamp_volume v }) (clamped v) in
    omega (
      arith,
      channel_amplitude-Quiet 0 t h,
      channel_amplitude-Quiet 1 t h,
      channel_amplitude-Quiet 2 t h,
    )

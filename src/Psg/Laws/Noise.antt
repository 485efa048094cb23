-- ===== src/Psg/Laws/Noise.antt =====
-- The noise register of src/psg.c never becomes 0, where it would stay.
use model_lib.Base.{
  ℕ, zero, suc, ◌+◌, ◌*◌, ◌/◌, ◌%◌, ◌^◌, ◌<◌, ◌≡◌, inl, inr, refl, ap, ◌∙◌, arith, Bool, true,
  false, bit_and, bit_or, bit_xor,
}
use model_lib.Base.{leb, if◌then◌else◌, nonzero, u16, u32, get_or, Bool-cases}
use model_lib.Base.Bits.{bit_and-mask, bit_or-fields, bit_or_comm, bit_xor_step}
use model_lib.Psg.Chip.{Psg, tone_period, noise_period, envelope_period}
use model_lib.Psg.Ticks.{
  advance_envelope, tick_tone, shift_noise, tick_noise, tick_envelope, psg_tick, psg_advance_ticks,
}

-- A register of 17 bits that is not 0.
abbrev pub Running : ℕ → Type 0
Running lfsr = (0 < lfsr) × (lfsr < 2 ^ 17)

-- The new top bit is the sum of bits 0 and 3, and the rest moves down.
pub shift_noise_lem : (l : ℕ) → l < 2 ^ 17 → shift_noise l ≡ l / 2 + (l + l / 8) % 2 * 2 ^ 16
unfolding shift_noise
shift_noise_lem l h =
    let feedback = bit_and (bit_xor l (l / 8)) 1 in
    let digit : feedback ≡ (l + l / 8) % 2 =
      omega (arith, bit_and-mask 1 (bit_xor l (l / 8)), bit_xor_step l (l / 8)) in
    let small : u32 (feedback * 2 ^ 16) ≡ (l + l / 8) % 2 * 2 ^ 16 = omega (arith, digit) in
    ap (bit_or (l / 2)) small
    ∙ bit_or_comm (l / 2) ((l + l / 8) % 2 * 2 ^ 16)
    ∙ bit_or-fields 16 ((l + l / 8) % 2) (l / 2) (omega arith)
    ∙ omega arith

shift_noise-Running : (l : ℕ) → Running l → Running (shift_noise l)
shift_noise-Running l h = omega (arith, shift_noise_lem l h.1)

lfsr_if :
    (b : Bool) (s t : Psg) (l : ℕ)
    → s.noise_lfsr ≡ l
    → t.noise_lfsr ≡ l
    → (if b then s else t).noise_lfsr ≡ l
lfsr_if true s t l p q = p
lfsr_if false s t l p q = q

lfsr-tick_tone : (k : ℕ) (s : Psg) → (tick_tone k s).noise_lfsr ≡ s.noise_lfsr
unfolding tick_tone
lfsr-tick_tone k s =
    lfsr_if (leb (tone_period k s * 8) (u16 (get_or s.tone_counter k 0 + 1))) _ _ s.noise_lfsr refl
      refl

lfsr-advance_envelope : (s : Psg) → (advance_envelope s).noise_lfsr ≡ s.noise_lfsr
unfolding advance_envelope
lfsr-advance_envelope s = lfsr_if s.envelope_holding s _ s.noise_lfsr refl (
    lfsr_if (nonzero s.envelope_step) _ _ s.noise_lfsr refl
      (lfsr_if s.envelope_hold _ _ s.noise_lfsr refl refl))

lfsr-tick_envelope : (s : Psg) → (tick_envelope s).noise_lfsr ≡ s.noise_lfsr
unfolding tick_envelope
lfsr-tick_envelope s = lfsr_if s.envelope_holding s _ s.noise_lfsr refl (
    lfsr_if (leb (envelope_period s) (u32 (s.envelope_counter + 1))) _ _ s.noise_lfsr
      (lfsr-advance_envelope (record s { envelope_counter = 0 })) refl)

tick_noise-Running : (s : Psg) → Running s.noise_lfsr → Running (tick_noise s).noise_lfsr
unfolding tick_noise
tick_noise-Running s h = elim (Bool-cases (leb (noise_period s * 16) (u16 (s.noise_counter + 1)))) [
  | inl e ↦ rw e (shift_noise-Running s.noise_lfsr h)
  | inr e ↦ rw e h
]

psg_tick-Running : (s : Psg) → Running s.noise_lfsr → Running (psg_tick s).noise_lfsr
unfolding psg_tick
psg_tick-Running s h =
    let t0 = tick_tone 0 s in
    let t1 = tick_tone 1 t0 in
    let t2 = tick_tone 2 t1 in
    let same : t2.noise_lfsr ≡ s.noise_lfsr =
      lfsr-tick_tone 2 t1 ∙ lfsr-tick_tone 1 t0 ∙ lfsr-tick_tone 0 s in
    let run : Running t2.noise_lfsr = rw same h in
    rw (lfsr-tick_envelope (tick_noise t2)) (tick_noise-Running t2 run)

-- The noise goes on: from a register of 17 bits that is not 0, every number of ticks leads to one.
pub psg_advance_ticks-Running :
    (n : ℕ) (s : Psg) → Running s.noise_lfsr → Running (psg_advance_ticks n s).noise_lfsr
unfolding psg_advance_ticks
psg_advance_ticks-Running zero s h = h
psg_advance_ticks-Running (suc n) s h =
    psg_advance_ticks-Running n (psg_tick s) (psg_tick-Running s h)

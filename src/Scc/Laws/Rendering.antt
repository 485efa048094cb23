-- ===== src/Scc/Laws/Rendering.antt =====
-- Rendering keeps the chip of src/scc.c valid, and the fraction of its clock below the rate.
use model_lib.Base.{ℕ, zero, suc, ◌+◌, ◌/◌, ◌%◌, ◌^◌, ◌<◌, ◌≡◌, inl, inr, refl, ap, ◌∙◌, arith}
use model_lib.Base.{leb, ◌==◌, u32, get_or, Bool-cases}
use model_lib.Scc.Chip.{Scc}
use model_lib.Scc.Render.{tick_channel, tick}
use model_lib.Scc.Laws.Counters.{advance_lem}
use native.Mathlib.Nat.{mod-lt}
use model_lib.Base.{ℤ, pos}
use model_lib.Base.{◌||◌}
use model_lib.Scc.Render.{sum_ticks, mean_sample, render_sample, render_samples, scc_render}
use model_lib.Scc.Laws.Valid.{IsValid, Below, Array-set, Array-get_or}

tick_channel-IsValid : (k : ℕ) (s : Scc) → k < 5 → IsValid s → IsValid (tick_channel k s)
unfolding tick_channel
tick_channel-IsValid k s hk v = elim (Bool-cases (leb (get_or s.period k 0) 8)) [
  | inl e ↦ rw e v
  | inr e ↦
      let c = u32 (get_or s.counter k 0 + 32) in
      let p = get_or s.period k 0 in
      let p_lt = Array-get_or (Below 4096) 5 s.period k 0 v.period_ok hk in
      let at_lt = Array-get_or (Below 32) 5 s.position k 0 v.position_ok hk in
      let run = advance_lem c (p + 1) c (get_or s.position k 0) (omega arith) (omega arith) at_lt in
      let left : c % (p + 1) < 4096 = omega (arith, mod-lt c {m = p + 1} (omega arith), p_lt) in
      rw e (record {
        wave_ok = v.wave_ok;
        period_ok = v.period_ok;
        original_ok = v.original_ok;
        counter_ok =
            Array-set (Below 4096) 5 s.counter k _ v.counter_ok
              (omega (arith, left, ap (λ (q : ℕ × ℕ). q.0) run));
        position_ok =
            Array-set (Below 32) 5 s.position k _ v.position_ok
              (omega (arith, ap (λ (q : ℕ × ℕ). q.1) run));
        volume_ok = v.volume_ok;
        enabled_ok = v.enabled_ok;
        deform_ok = v.deform_ok;
      })
]

pub tick-IsValid : (s : Scc) → IsValid s → IsValid (tick s)
unfolding tick
tick-IsValid s v = tick_channel-IsValid 4 _ (omega arith) (
    tick_channel-IsValid 3 _ (omega arith) (
      tick_channel-IsValid 2 _ (omega arith)
        (tick_channel-IsValid 1 _ (omega arith) (tick_channel-IsValid 0 s (omega arith) v))))

sum_ticks-IsValid : (n : ℕ) (z : ℤ) (s : Scc) → IsValid s → IsValid (sum_ticks n z s).1
unfolding sum_ticks
sum_ticks-IsValid zero z s v = v
sum_ticks-IsValid (suc n) z s v = sum_ticks-IsValid n _ (tick s) (tick-IsValid s v)

-- A clock fraction is in no part of the invariant.
pub with_fraction : (f : ℕ) (s : Scc) → IsValid s → IsValid (record s { clock_fraction = f })
with_fraction f s v = record {
  wave_ok = v.wave_ok;
  period_ok = v.period_ok;
  original_ok = v.original_ok;
  counter_ok = v.counter_ok;
  position_ok = v.position_ok;
  volume_ok = v.volume_ok;
  enabled_ok = v.enabled_ok;
  deform_ok = v.deform_ok;
}

mean_sample-IsValid : (ticks : ℕ) (s : Scc) → IsValid s → IsValid (mean_sample ticks s).1
unfolding mean_sample
mean_sample-IsValid ticks s v = elim (Bool-cases (ticks == 0)) [
  | inl e ↦ rw e v
  | inr e ↦ rw e (sum_ticks-IsValid ticks (pos 0) s v)
]

-- The ticks of one output sample.
abbrev pub fraction_of : ℕ → Scc → ℕ
fraction_of clock_hz s = (s.clock_fraction + clock_hz / 32) % 2 ^ 64

pub render_sample-IsValid :
    (clock_hz rate : ℕ) (s : Scc) → IsValid s → IsValid (render_sample clock_hz rate s).1
unfolding render_sample
render_sample-IsValid clock_hz rate s v =
    let fraction = fraction_of clock_hz s in
    mean_sample-IsValid (u32 (fraction / rate)) _ (with_fraction (fraction % rate) s v)

-- A tick leaves the fraction of the clock alone.
channel_fraction : (k : ℕ) (s : Scc) → (tick_channel k s).clock_fraction ≡ s.clock_fraction
unfolding tick_channel
channel_fraction k s = elim (Bool-cases (leb (get_or s.period k 0) 8)) [
  | inl e ↦ rw e refl
  | inr e ↦ rw e refl
]

tick_fraction : (s : Scc) → (tick s).clock_fraction ≡ s.clock_fraction
unfolding tick
tick_fraction s =
    channel_fraction 4 _
    ∙ channel_fraction 3 _
    ∙ channel_fraction 2 _
    ∙ channel_fraction 1 _
    ∙ channel_fraction 0 s

sum_fraction : (n : ℕ) (z : ℤ) (s : Scc) → (sum_ticks n z s).1.clock_fraction ≡ s.clock_fraction
unfolding sum_ticks
sum_fraction zero z s = refl
sum_fraction (suc n) z s = sum_fraction n _ (tick s) ∙ tick_fraction s

mean_fraction : (ticks : ℕ) (s : Scc) → (mean_sample ticks s).1.clock_fraction ≡ s.clock_fraction
unfolding mean_sample
mean_fraction ticks s = elim (Bool-cases (ticks == 0)) [
  | inl e ↦ rw e refl
  | inr e ↦ rw e (sum_fraction ticks (pos 0) s)
]

pub render_fraction :
    (clock_hz rate : ℕ) (s : Scc)
    → 0 < rate
    → (render_sample clock_hz rate s).1.clock_fraction < rate
unfolding render_sample
render_fraction clock_hz rate s h =
    let fraction = fraction_of clock_hz s in
    let t : Scc = record s { clock_fraction = fraction % rate } in
    rw (mean_fraction (u32 (fraction / rate)) t) (mod-lt fraction h)

render_samples-IsValid :
    (n clock_hz rate : ℕ) (s : Scc) → IsValid s → IsValid (render_samples n clock_hz rate s).1
unfolding render_samples
render_samples-IsValid zero clock_hz rate s v = v
render_samples-IsValid (suc n) clock_hz rate s v =
    render_samples-IsValid n clock_hz rate _ (render_sample-IsValid clock_hz rate s v)

-- Rendering keeps a valid chip valid.
pub scc_render-IsValid :
    (count clock_hz rate : ℕ) (s : Scc) → IsValid s → IsValid (scc_render count clock_hz rate s).1
unfolding scc_render
scc_render-IsValid count clock_hz rate s v = elim (Bool-cases ((clock_hz == 0) || (rate == 0))) [
  | inl e ↦ rw e v
  | inr e ↦ rw e (render_samples-IsValid count clock_hz rate s v)
]

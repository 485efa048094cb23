-- ===== src/Scc/Laws/Sound.antt =====
-- The sound of a valid chip of src/scc.c: its range.
use model_lib.Base.{
  ℕ, zero, suc, ◌+◌, ◌*◌, ◌/◌, ◌%◌, ◌^◌, ◌<◌, ◌≤◌, ◌≡◌, inl, inr, refl, ap, arith, false, List, [],
}
use model_lib.Base.{◌==◌, u32, get_or, length, All, Bool-cases}
use model_lib.Scc.Chip.{Scc}
use model_lib.Scc.Render.{tick}
use native.Mathlib.Nat.{div-le_of_le-mul}
use model_lib.Base.{
  ℤ, pos, ◌+ℤ◌, scale, magnitude, magnitude-+ℤ, magnitude-scale, magnitude-quotient, int32,
  quotient, int32-in_range, clamp16-in_range,
}
use model_lib.Base.{◌||◌}
use model_lib.Scc.Render.{
  current_sample, channel_sample, sum_ticks, mean_sample, render_sample, render_samples, scc_render,
}
use model_lib.Scc.Laws.Mixer.{Audible, magnitude-channel_sample}
use model_lib.Scc.Laws.Valid.{IsValid, Wave, Below, Array-get_or}
use model_lib.Scc.Laws.Rendering.{
  tick-IsValid, with_fraction, fraction_of, render_sample-IsValid, render_fraction,
}

valid-Audible : (k : ℕ) (s : Scc) → k < 5 → IsValid s → Audible k s
valid-Audible k s hk v =
    let at = Array-get_or (Below 32) 5 s.position k 0 v.position_ok hk in
    let w = Array-get_or Wave 5 s.wave k [] v.wave_ok hk in
    record {
      sample_lt = Array-get_or (Below 256) 32 (get_or s.wave k []) (get_or s.position k 0) 0 w at;
      volume_lt = Array-get_or (Below 16) 5 s.volume k 0 v.volume_ok hk;
    }

-- One more channel in the mix.
mixed :
    (k n : ℕ) (z : ℤ) (s : Scc)
    → k < 5
    → IsValid s
    → magnitude z ≤ n
    → magnitude (z +ℤ channel_sample k s) ≤ n + 120
mixed k n z s hk v h = omega (
  arith,
  magnitude-+ℤ z (channel_sample k s),
  magnitude-channel_sample k s (valid-Audible k s hk v),
)

-- The mix of the five channels of a valid chip is from -600 to 600.
pub magnitude-current_sample : (s : Scc) → IsValid s → magnitude (current_sample s) ≤ 600
unfolding current_sample
magnitude-current_sample s v = mixed 4 480 _ s (omega arith) v (
    mixed 3 360 _ s (omega arith) v (
      mixed 2 240 _ s (omega arith) v
        (mixed 1 120 _ s (omega arith) v (mixed 0 0 (pos 0) s (omega arith) v (omega arith)))))

-- A sum that stays below 2 ^ 31 does not wrap.
sum_ticks_lem :
    (n m : ℕ) (z : ℤ) (s : Scc)
    → IsValid s
    → magnitude z ≤ m
    → m + 600 * n < 2 ^ 31
    → magnitude (sum_ticks n z s).0 ≤ m + 600 * n
unfolding sum_ticks
sum_ticks_lem zero m z s v h fits = omega arith
sum_ticks_lem (suc n) m z s v h fits =
    let t = tick s in
    let w = tick-IsValid s v in
    let next = z +ℤ current_sample t in
    let sum : magnitude next ≤ m + 600 =
      omega (arith, magnitude-+ℤ z (current_sample t), magnitude-current_sample t w) in
    let exact = int32-in_range next (omega arith) in
    let rest = sum_ticks_lem n (m + 600) (int32 next) t w (rw exact sum) (omega arith) in
    omega (arith, rest)

quotient_le : (n t : ℕ) → 0 < t → n ≤ 600 * t → n / t ≤ 600
quotient_le n t ht h = div-le_of_le-mul t {m = n} {n = 600} (omega arith)

-- The mean of up to 3125001 samples, whose sum is below 2 ^ 31.
mean_sample_lem :
    (ticks : ℕ) (s : Scc) → IsValid s → ticks ≤ 3125001 → magnitude (mean_sample ticks s).0 ≤ 600
unfolding mean_sample
mean_sample_lem ticks s v few = elim (Bool-cases (ticks == 0)) [
  | inl e ↦ rw e (magnitude-current_sample s v)
  | inr e ↦
      let run = sum_ticks_lem ticks 0 (pos 0) s v (omega arith) (omega arith) in
      let sum = (sum_ticks ticks (pos 0) s).0 in
      let cast = int32-in_range (pos ticks) (omega arith) in
      let small : magnitude (quotient sum ticks) ≤ 600 = omega (
        arith,
        magnitude-quotient sum ticks,
        quotient_le (magnitude sum) ticks (ground arith) (omega (arith, run)),
      ) in
      rw (e, cast, int32-in_range (quotient sum ticks) (omega (arith, small))) small
]

ticks_le : (f rate c : ℕ) → f < rate + c → 0 < rate → c ≤ 3125000 → u32 (f / rate) ≤ 3125001
ticks_le f rate c h positive small =
    let more : c ≤ c * rate = grind arith in
    let quotient : f / rate ≤ suc c = div-le_of_le-mul rate {m = f} {n = suc c} (grind arith) in
    omega arith

-- One output sample: the cut to 16 bits never takes effect.
render_sample_lem :
    (clock_hz rate : ℕ) (s : Scc)
    → IsValid s
    → clock_hz ≤ 100000000
    → s.clock_fraction < rate
    → magnitude (render_sample clock_hz rate s).0 ≤ 4800
unfolding render_sample
render_sample_lem clock_hz rate s v slow h =
    let fraction = fraction_of clock_hz s in
    let t : Scc = record s { clock_fraction = fraction % rate } in
    let ticks = u32 (fraction / rate) in
    let few = ticks_le fraction rate (clock_hz / 32) (omega arith) (omega arith) (omega arith) in
    let mean = mean_sample_lem ticks t (with_fraction (fraction % rate) s v) few in
    let z = (mean_sample ticks t).0 in
    let small : magnitude (scale z 8) ≤ 4800 = omega (arith, magnitude-scale z 8, mean) in
    rw
      (
        int32-in_range (scale z 8) (omega (arith, small)),
        clamp16-in_range (scale z 8) (omega (arith, small)),
      )
      small

-- The samples of a rendering and the chip after it.
pub record Rendered (count : ℕ) (q : List ℤ × Scc) : Type 0 where
  pub all_written : length q.0 ≡ count
  pub quiet : All (λ z. magnitude z ≤ 4800) q.0
  pub valid : IsValid q.1

render_samples_lem :
    (n clock_hz rate : ℕ) (s : Scc)
    → IsValid s
    → clock_hz ≤ 100000000
    → s.clock_fraction < rate
    → Rendered n (render_samples n clock_hz rate s)
unfolding render_samples
render_samples_lem zero clock_hz rate s v slow h = record {
  all_written = refl;
  quiet = tt;
  valid = v;
}
render_samples_lem (suc n) clock_hz rate s v slow h =
    let next = (render_sample clock_hz rate s).1 in
    let rest =
      render_samples_lem n clock_hz rate next (render_sample-IsValid clock_hz rate s v) slow
        (render_fraction clock_hz rate s (omega arith)) in
    record {
      all_written = ap suc rest.all_written;
      quiet = (render_sample_lem clock_hz rate s v slow h, rest.quiet);
      valid = rest.valid;
    }

-- With a clock that is not 0 and at most 100 MHz, and a fraction of it left over that is below the
-- rate, as it is after every sample: rendering a valid chip writes every sample that is asked for,
-- each from -4800 to 4800, so that neither the `int` sum overflows nor the cut to 16 bits takes
-- effect, and leaves a valid chip.
pub scc_render_lem :
    (count clock_hz rate : ℕ) (s : Scc)
    → IsValid s
    → 0 < clock_hz
    → clock_hz ≤ 100000000
    → s.clock_fraction < rate
    → Rendered count (scc_render count clock_hz rate s)
unfolding scc_render
scc_render_lem count clock_hz rate s v hc slow h =
    let running : (clock_hz == 0) || (rate == 0) ≡ false = ground arith in
    rw running (render_samples_lem count clock_hz rate s v slow h)

-- ===== src/Scc/Render.antt =====
-- Sound output of src/scc.c: the counters of the channels, the mixer and the resampling.
-- A sum of samples is an `int` of 32 bits; where it overflows, which C leaves undefined, it wraps.
use model_lib.Base.{ℕ, zero, suc, ◌+◌, ◌-◌, ◌/◌, ◌%◌, ◌^◌, bit_and, ◌||◌, List, [], ◌∷◌}
use model_lib.Base.{leb, ◌==◌, if◌then◌else◌, nonzero, u32, ◌<<<◌, get_or, set}
use model_lib.Base.{ℤ, pos, ◌+ℤ◌, int32, divide, scale, shift_right, s8, clamp16}
use model_lib.Scc.Chip.{Scc, for_channels}

-- The part of one channel in the mix.
unfoldable pub channel_sample : ℕ → Scc → ℤ
channel_sample channel s =
    if nonzero (bit_and s.enabled (1 <<< channel))
    then shift_right
        (scale (s8 (get_or (get_or s.wave channel []) (get_or s.position channel 0) 0))
          (get_or s.volume channel 0))
        4
    else pos 0

unfoldable pub current_sample : Scc → ℤ
current_sample s =
    pos 0
    +ℤ channel_sample 0 s
    +ℤ channel_sample 1 s
    +ℤ channel_sample 2 s
    +ℤ channel_sample 3 s
    +ℤ channel_sample 4 s

-- The `while` of `tick`: counter and position, with the counter as fuel.
unfoldable pub advance : ℕ → ℕ → ℕ → ℕ → ℕ × ℕ
advance zero period counter position = (counter, position)
advance (suc n) period counter position =
    let rest = advance n period (counter - period) (bit_and (position + 1) 31) in
    if leb period counter then rest else (counter, position)

unfoldable pub tick_channel : ℕ → Scc → Scc
tick_channel channel s =
    let period = get_or s.period channel 0 + 1 in
    let counter = u32 (get_or s.counter channel 0 + 32) in
    let (left, at) = advance counter period counter (get_or s.position channel 0) in
    if leb (get_or s.period channel 0) 8
    then s
    else record s { counter = set s.counter channel left; position = set s.position channel at }

unfoldable pub tick : Scc → Scc
tick s = for_channels tick_channel s

-- `for (i = 0; i < ticks; ++i)`: the sum of the samples after each tick.
unfoldable pub sum_ticks : ℕ → ℤ → Scc → ℤ × Scc
sum_ticks zero sum s = (sum, s)
sum_ticks (suc n) sum s = let t = tick s in sum_ticks n (int32 (sum +ℤ current_sample t)) t

unfoldable pub mean_sample : ℕ → Scc → ℤ × Scc
mean_sample ticks s =
    let (sum, t) = sum_ticks ticks (pos 0) s in
    if ticks == 0 then (current_sample s, s) else (int32 (divide sum (int32 (pos ticks))), t)

unfoldable pub render_sample : ℕ → ℕ → Scc → ℤ × Scc
render_sample clock_hz sample_rate s =
    let fraction = (s.clock_fraction + clock_hz / 32) % 2 ^ 64 in
    let ticks = u32 (fraction / sample_rate) in
    let (mean, t) = mean_sample ticks (record s { clock_fraction = fraction % sample_rate }) in
    (clamp16 (int32 (scale mean 8)), t)

unfoldable pub render_samples : ℕ → ℕ → ℕ → Scc → List ℤ × Scc
render_samples zero clock_hz sample_rate s = ([], s)
render_samples (suc n) clock_hz sample_rate s =
    let (sample, t) = render_sample clock_hz sample_rate s in
    let (samples, u) = render_samples n clock_hz sample_rate t in (sample ∷ samples, u)

-- The samples written, and the chip: none where the clock or the rate is 0.
unfoldable pub scc_render : ℕ → ℕ → ℕ → Scc → List ℤ × Scc
scc_render count clock_hz sample_rate s =
    if (clock_hz == 0) || (sample_rate == 0)
    then ([], s)
    else render_samples count clock_hz sample_rate s

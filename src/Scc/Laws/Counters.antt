-- ===== src/Scc/Laws/Counters.antt =====
-- The counters of src/scc.c: the loop of `tick` in closed form, for one channel and for all.
use model_lib.Base.{
  ℕ, zero, suc, ◌+◌, ◌-◌, ◌/◌, ◌%◌, ◌<◌, ◌≤◌, ◌≡◌, ◌≢◌, inl, inr, refl, ap, ap₂, sym, ◌∙◌, arith,
}
use model_lib.Base.{
  leb, if◌then◌else◌, u32, bit_and, get_or, length, length-set, get_or-set_self, get_or-set_ne,
  Bool-cases,
}
use model_lib.Base.Bits.{bit_and-mask}
use native.Mathlib.Nat.{mod-eq-sub-mod, mod-eq_of_lt, div-eq-sub-div, div-eq_of_lt}
use model_lib.Scc.Chip.{Scc, scc_channels}
use model_lib.Scc.Render.{advance, tick_channel, tick}

-- Where the loop stops.
stopped : (p c at : ℕ) → c < p → at < 32 → ◌≡◌ {A = ℕ × ℕ} (c, at) (c % p, (at + c / p) % 32)
stopped p c at h hat =
    let same : c % p ≡ c = mod-eq_of_lt h in
    let none_left : c / p ≡ 0 = div-eq_of_lt h in
    ap₂ {A = ℕ} {B = ℕ} {C = ℕ × ℕ} (λ x y. (x, y)) (sym same) (rw none_left (omega arith))

one_period :
    (p c at : ℕ) → 0 < p → p ≤ c → (bit_and (at + 1) 31 + (c - p) / p) % 32 ≡ (at + c / p) % 32
one_period p c at hp h = omega (arith, bit_and-mask 5 (at + 1), div-eq-sub-div hp h)

-- The `while` of `tick` on a period that is not 0, with fuel for the whole counter: what is left of
-- the counter is its remainder by the period, and the position has moved by the quotient, round
-- the 32 samples.
pub advance_lem :
    (fuel p c at : ℕ)
    → 0 < p
    → c ≤ fuel
    → at < 32
    → advance fuel p c at ≡ (c % p, (at + c / p) % 32)
unfolding advance
advance_lem zero p c at hp h hat = stopped p c at (omega arith) hat
advance_lem (suc n) p c at hp h hat = elim (Bool-cases (leb p c)) [
  | inl e ↦
      let le : p ≤ c = ground arith in
      rw e (
        advance_lem n p (c - p) (bit_and (at + 1) 31) hp (omega arith)
          (omega (arith, bit_and-mask 5 (at + 1)))
        ∙ ap₂ (λ x y. (x, y)) (sym (mod-eq-sub-mod le)) (one_period p c at hp le))
  | inr e ↦ rw e (stopped p c at (ground arith) hat)
]

-- What a channel counts.
pub record Counting : Type 0 where
  pub period : ℕ
  pub counter : ℕ
  pub position : ℕ

abbrev pub counting : ℕ → Scc → Counting
counting k s = record {
  period = get_or s.period k 0;
  counter = get_or s.counter k 0;
  position = get_or s.position k 0;
}

-- One tick of a channel: a period of at most 8 does not run; else the counter gains 32, and the
-- position moves once for each whole period in it.
abbrev pub ticked : Counting → Counting
ticked c = if leb c.period 8 then c else record c {
  counter = (c.counter + 32) % (c.period + 1);
  position = (c.position + (c.counter + 32) / (c.period + 1)) % 32;
}

-- The arrays have their five elements.
pub record HasChannels (s : Scc) : Type 0 where
  pub counters : length s.counter ≡ scc_channels
  pub positions : length s.position ≡ scc_channels

-- The counter and the position are in range.
pub record InRange (c : Counting) : Type 0 where
  pub counter_lt : c.counter < 65536
  pub position_lt : c.position < 32

tick_channel_self :
    (k : ℕ) (s : Scc)
    → k < scc_channels
    → HasChannels s
    → InRange (counting k s)
    → counting k (tick_channel k s) ≡ ticked (counting k s)
unfolding tick_channel
tick_channel_self k s hk v r = elim (Bool-cases (leb (get_or s.period k 0) 8)) [
  | inl e ↦ rw e
  | inr e ↦
      let c = get_or s.counter k 0 in
      let p = get_or s.period k 0 in
      let small : u32 (c + 32) ≡ c + 32 = omega (arith, r.counter_lt) in
      let run =
        advance_lem (c + 32) (p + 1) (c + 32) (get_or s.position k 0) (omega arith) (omega arith)
          r.position_lt in
      rw (e, small)
        (ap₂ (λ x y. record { period = p; counter = x; position = y })
          (get_or-set_self s.counter k _ 0 (omega (arith, v.counters))
            ∙ ap (λ (q : ℕ × ℕ). q.0) run)
          (get_or-set_self s.position k _ 0 (omega (arith, v.positions))
            ∙ ap (λ (q : ℕ × ℕ). q.1) run))
]

tick_channel_other : (k j : ℕ) (s : Scc) → k ≢ j → counting j (tick_channel k s) ≡ counting j s
unfolding tick_channel
tick_channel_other k j s h = elim (Bool-cases (leb (get_or s.period k 0) 8)) [
  | inl e ↦ rw e
  | inr e ↦ rw e (
      ap₂ (λ x y. record { period = get_or s.period j 0; counter = x; position = y })
        (get_or-set_ne s.counter k j _ 0 h) (get_or-set_ne s.position k j _ 0 h))
]

tick_channel-HasChannels : (k : ℕ) (s : Scc) → HasChannels s → HasChannels (tick_channel k s)
unfolding tick_channel
tick_channel-HasChannels k s v = elim (Bool-cases (leb (get_or s.period k 0) 8)) [
  | inl e ↦ rw e v
  | inr e ↦ rw e (record {
    counters = length-set s.counter k _ ∙ v.counters;
    positions = length-set s.position k _ ∙ v.positions;
  })
]

-- Whatever the channels before it did.
tick_channel_after :
    (k : ℕ) (s t : Scc)
    → k < scc_channels
    → HasChannels t
    → counting k t ≡ counting k s
    → InRange (counting k s)
    → counting k (tick_channel k t) ≡ ticked (counting k s)
tick_channel_after k s t hk v e r = tick_channel_self k t hk v (rw e r) ∙ ap ticked e

-- The state after the first `n` channels.
abbrev first_turns : ℕ → Scc → Scc
first_turns zero s = s
first_turns (suc n) s = tick_channel n (first_turns n s)

first_turns-HasChannels : (n : ℕ) (s : Scc) → HasChannels s → HasChannels (first_turns n s)
first_turns-HasChannels zero s v = v
first_turns-HasChannels (suc n) s v =
    tick_channel-HasChannels n (first_turns n s) (first_turns-HasChannels n s v)

before_turn : (k n : ℕ) (s : Scc) → n ≤ k → counting k (first_turns n s) ≡ counting k s
before_turn k zero s h = refl
before_turn k (suc n) s h =
    tick_channel_other n k (first_turns n s) (λ e. omega arith) ∙ before_turn k n s (omega arith)

after_turn :
    (k n : ℕ) (s : Scc)
    → k < scc_channels
    → HasChannels s
    → InRange (counting k s)
    → counting k (first_turns (suc k + n) s) ≡ ticked (counting k s)
after_turn k zero s hk v r =
    let none_after : suc k + 0 ≡ suc k = omega arith in
    ap (λ m. counting k (first_turns m s)) none_after
    ∙ tick_channel_after k s (first_turns k s) hk (first_turns-HasChannels k s v)
        (before_turn k k s (omega arith)) r
after_turn k (suc n) s hk v r =
    let one_after : suc k + suc n ≡ suc (suc k + n) = omega arith in
    ap (λ m. counting k (first_turns m s)) one_after
    ∙ tick_channel_other (suc k + n) k (first_turns (suc k + n) s) (λ e. omega arith)
    ∙ after_turn k n s hk v r

-- `tick` on a state with five channels, for a channel whose counter and position are in range: it
-- counts as it would alone. A period of at most 8 does not run; else the counter keeps the
-- remainder of its sum with 32 by the period, and the position moves by the quotient.
pub tick_lem :
    (k : ℕ) (s : Scc)
    → k < scc_channels
    → HasChannels s
    → InRange (counting k s)
    → counting k (tick s) ≡ ticked (counting k s)
unfolding tick
tick_lem k s hk v r =
    let all_turns : suc k + (4 - k) ≡ 5 = omega arith in
    ap (λ m. counting k (first_turns m s)) (sym all_turns) ∙ after_turn k (4 - k) s hk v r

pub tick-HasChannels : (s : Scc) → HasChannels s → HasChannels (tick s)
unfolding tick
tick-HasChannels s v = first_turns-HasChannels 5 s v

-- ===== src/Scc/Laws/Valid.antt =====
-- The invariant of the chip of src/scc.c: the arrays have their sizes, and what they hold is in
-- range, so that no index of the C code leaves its array.
use model_lib.Base.{ℕ, ◌<◌, ◌≤◌, ◌≡◌, inl, inr, ◌∙◌, arith, List}
use model_lib.Base.{
  bit_and, nonzero, u16, get_or, set, length, length-set, All, All-set, All-get_or, Bool-cases,
}
use model_lib.Base.Bits.{bit_and-mask, bit_and-le}
use model_lib.Scc.Chip.{Scc, SccMode, scc_channels, scc_wave_size}
use model_lib.Scc.Chip.{
  deformed_period, update_period, scc_reset, scc_init, scc_set_mode, write_deform,
}

-- An array of `n` elements with the property.
abbrev pub Array {ℓ κ} : {A : Type ℓ} → ℕ → (A → Type κ) → List A → Type κ
Array n P xs = (length xs ≡ n) × All P xs

abbrev pub Below : ℕ → ℕ → Type 0
Below n x = x < n

abbrev pub Wave : List ℕ → Type 0
Wave w = Array scc_wave_size (Below 256) w

pub record IsValid (s : Scc) : Type 0 where
  pub wave_ok : Array scc_channels Wave s.wave
  pub period_ok : Array scc_channels (Below 4096) s.period
  pub original_ok : Array scc_channels (Below 4096) s.original_period
  pub counter_ok : Array scc_channels (Below 4096) s.counter
  pub position_ok : Array scc_channels (Below 32) s.position
  pub volume_ok : Array scc_channels (Below 16) s.volume
  pub enabled_ok : s.enabled < 32
  pub deform_ok : s.deform < 256

module _ {ℓ κ} {A : Type ℓ} (P : A → Type κ) (n : ℕ) where
  pub Array-set : (xs : List A) (i : ℕ) (v : A) → Array n P xs → P v → Array n P (set xs i v)
  Array-set xs i v h p = (length-set xs i v ∙ h.0, All-set P xs i v h.1 p)

  pub Array-get_or : (xs : List A) (i : ℕ) (d : A) → Array n P xs → i < n → P (get_or xs i d)
  Array-get_or xs i d h lt = All-get_or P xs i d h.1 (omega (arith, h.0))

deformed_period-lt : (deform original : ℕ) → deformed_period deform original < 4096
unfolding deformed_period
deformed_period-lt deform original =
    let low = bit_and original 0x0fff in
    let small : low < 4096 = omega (arith, bit_and-mask 12 original) in
    let masked : bit_and low 0xff ≤ low = bit_and-le low low 0xff (omega arith) in ground arith

pub update_period-IsValid : (k : ℕ) (s : Scc) → IsValid s → IsValid (update_period k s)
unfolding update_period
update_period-IsValid k s v =
    let p = u16 (deformed_period s.deform (get_or s.original_period k 0)) in
    let small : p < 4096 =
      omega (arith, deformed_period-lt s.deform (get_or s.original_period k 0)) in
    let cleared = Array-set (Below 32) 5 s.position k 0 v.position_ok (omega arith) in
    record {
      wave_ok = v.wave_ok;
      period_ok = Array-set (Below 4096) 5 s.period k p v.period_ok small;
      original_ok = v.original_ok;
      counter_ok = Array-set (Below 4096) 5 s.counter k 0 v.counter_ok (omega arith);
      position_ok = elim (Bool-cases (nonzero (bit_and s.deform 0x20))) [
        | inl e ↦ rw e cleared
        | inr e ↦ rw e v.position_ok
      ];
      volume_ok = v.volume_ok;
      enabled_ok = v.enabled_ok;
      deform_ok = v.deform_ok;
    }

pub scc_reset-IsValid : (s : Scc) → IsValid s → IsValid (scc_reset s)
unfolding scc_reset
scc_reset-IsValid s v = record {
  wave_ok = v.wave_ok;
  period_ok = v.period_ok;
  original_ok = v.original_ok;
  counter_ok = omega arith;
  position_ok = omega arith;
  volume_ok = v.volume_ok;
  enabled_ok = omega arith;
  deform_ok = omega arith;
}

-- A new chip is valid.
pub scc_init-IsValid : IsValid scc_init
unfolding scc_init scc_reset
scc_init-IsValid = record {
  wave_ok = omega arith;
  period_ok = omega arith;
  original_ok = omega arith;
  counter_ok = omega arith;
  position_ok = omega arith;
  volume_ok = omega arith;
  enabled_ok = omega arith;
  deform_ok = omega arith;
}

pub scc_set_mode-IsValid : (m : SccMode) (s : Scc) → IsValid s → IsValid (scc_set_mode m s)
unfolding scc_set_mode
scc_set_mode-IsValid m s v = record {
  wave_ok = v.wave_ok;
  period_ok = v.period_ok;
  original_ok = v.original_ok;
  counter_ok = v.counter_ok;
  position_ok = v.position_ok;
  volume_ok = v.volume_ok;
  enabled_ok = v.enabled_ok;
  deform_ok = v.deform_ok;
}

pub with_deform : (d : ℕ) (s : Scc) → IsValid s → d < 256 → IsValid (record s { deform = d })
with_deform d s v h = record {
  wave_ok = v.wave_ok;
  period_ok = v.period_ok;
  original_ok = v.original_ok;
  counter_ok = v.counter_ok;
  position_ok = v.position_ok;
  volume_ok = v.volume_ok;
  enabled_ok = v.enabled_ok;
  deform_ok = h;
}

pub write_deform-IsValid : (d : ℕ) (s : Scc) → IsValid s → d < 256 → IsValid (write_deform d s)
unfolding write_deform
write_deform-IsValid d s v h = update_period-IsValid 4 _ (
    update_period-IsValid 3 _ (
      update_period-IsValid 2 _
        (update_period-IsValid 1 _ (update_period-IsValid 0 _ (with_deform d s v h)))))

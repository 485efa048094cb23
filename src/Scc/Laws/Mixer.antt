-- ===== src/Scc/Laws/Mixer.antt =====
-- The range of the mixer of src/scc.c.
use model_lib.Base.{ℕ, ◌*◌, ◌<◌, ◌≤◌, inl, inr, arith, []}
use model_lib.Base.{bit_and, nonzero, ◌<<<◌, get_or, Bool-cases}
use model_lib.Base.{ℤ, pos, negsuc, scale, shift_right, s8, magnitude, magnitude-scale}
use model_lib.Scc.Chip.{Scc}
use model_lib.Scc.Render.{channel_sample}

-- What the mixer reads is a byte, and a volume of four bits.
pub record Audible (k : ℕ) (s : Scc) : Type 0 where
  pub sample_lt : get_or (get_or s.wave k []) (get_or s.position k 0) 0 < 256
  pub volume_lt : get_or s.volume k 0 < 16

magnitude-s8 : (b : ℕ) → b < 256 → magnitude (s8 b) ≤ 128
magnitude-s8 b h = ground arith

magnitude-shift_right : (z : ℤ) → magnitude z ≤ 1920 → magnitude (shift_right z 4) ≤ 120
magnitude-shift_right (pos a) h = omega arith
magnitude-shift_right (negsuc a) h = omega arith

product_le : (a v : ℕ) → a ≤ 128 → v < 16 → a * v ≤ 1920
product_le a v ha hv = grind arith

pub magnitude-channel_sample :
    (k : ℕ) (s : Scc) → Audible k s → magnitude (channel_sample k s) ≤ 120
unfolding channel_sample
magnitude-channel_sample k s h = elim (Bool-cases (nonzero (bit_and s.enabled (1 <<< k)))) [
  | inl e ↦
      let b = get_or (get_or s.wave k []) (get_or s.position k 0) 0 in
      let v = get_or s.volume k 0 in
      rw e (
        magnitude-shift_right (scale (s8 b) v) (
          omega (
            arith,
            magnitude-scale (s8 b) v,
            product_le (magnitude (s8 b)) v (magnitude-s8 b h.sample_lt) h.volume_lt,
          )))
  | inr e ↦ rw e (omega arith)
]

-- ===== src/Scc/Laws/Reach.antt =====
-- The life of a chip of src/scc.c as a sequence of calls.
use model_lib.Base.{ℕ, ◌<◌}
use model_lib.Scc.Chip.{Scc, SccMode, scc_init, scc_reset, scc_set_mode, scc_read, scc_write}
use model_lib.Scc.Render.{scc_render}
use model_lib.Scc.Laws.Valid.{IsValid, scc_init-IsValid, scc_reset-IsValid, scc_set_mode-IsValid}
use model_lib.Scc.Laws.Reads.{scc_read-IsValid}
use model_lib.Scc.Laws.Writes.{scc_write-IsValid}
use model_lib.Scc.Laws.Rendering.{scc_render-IsValid}

-- A state is reached from another by one call; a value written is a byte.
pub data Step : Scc → Scc → Type 0 where
  resets : (s : Scc) → Step s (scc_reset s)
  sets_mode : (mode : SccMode) (s : Scc) → Step s (scc_set_mode mode s)
  reads : (address : ℕ) (s : Scc) → Step s (scc_read address s).1
  writes : (address value : ℕ) (s : Scc) → value < 256 → Step s (scc_write address value s)
  renders : (count clock_hz rate : ℕ) (s : Scc) → Step s (scc_render count clock_hz rate s).1

pub data ReachableChip : Scc → Type 0 where
  starts : ReachableChip scc_init
  follows : {s t : Scc} → ReachableChip s → Step s t → ReachableChip t

step-IsValid : {s t : Scc} → Step s t → IsValid s → IsValid t
step-IsValid (resets s) v = scc_reset-IsValid s v
step-IsValid (sets_mode mode s) v = scc_set_mode-IsValid mode s v
step-IsValid (reads address s) v = (scc_read-IsValid address s v).1
step-IsValid (writes address value s h) v = scc_write-IsValid address value s v h
step-IsValid (renders count clock_hz rate s) v = scc_render-IsValid count clock_hz rate s v

-- Whatever calls are made on a new chip, its arrays have their sizes and what they hold is in
-- range: every position is an index of a waveform and every period has 12 bits.
pub ReachableChip-IsValid : {s : Scc} → ReachableChip s → IsValid s
ReachableChip-IsValid starts = scc_init-IsValid
ReachableChip-IsValid (follows r step) = step-IsValid step (ReachableChip-IsValid r)

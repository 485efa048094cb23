-- ===== src/Scc/Tests.antt =====
-- Runs of the chip of src/scc.c.
use model_lib.Base.{◌≡◌, refl, arith, replicate}
use model_lib.Scc.Chip.{Scc, scc_mode_plus, scc_mode_compatible, scc_init, scc_read, scc_write}
use model_lib.Scc.Render.{scc_render}
use model_lib.Scc.Laws.Valid.{IsValid}
use model_lib.Scc.Laws.Sound.{Rendered, scc_render_lem}
use model_lib.Scc.Laws.Wave.{scc_read-scc_write_plus}
use model_lib.Scc.Laws.Reach.{starts, follows, writes, renders, ReachableChip-IsValid}

-- All channels on, at a period of 20 and the loudest samples.
abbrev chip : Scc
chip = record {
  wave = replicate 5 (replicate 32 0x80);
  period = replicate 5 20;
  original_period = replicate 5 20;
  counter = replicate 5 15;
  position = replicate 5 30;
  volume = replicate 5 15;
  enabled = 0x1f;
  deform = 0;
  mode = scc_mode_plus;
  clock_fraction = 0;
}

chip-IsValid : IsValid chip
chip-IsValid = record {
  wave_ok = omega arith;
  period_ok = omega arith;
  original_ok = omega arith;
  counter_ok = omega arith;
  position_ok = omega arith;
  volume_ok = omega arith;
  enabled_ok = omega arith;
  deform_ok = omega arith;
}

abbrev compatible : Scc
compatible = record chip { mode = scc_mode_compatible }

compatible-IsValid : IsValid compatible
compatible-IsValid = record {
  wave_ok = omega arith;
  period_ok = omega arith;
  original_ok = omega arith;
  counter_ok = omega arith;
  position_ok = omega arith;
  volume_ok = omega arith;
  enabled_ok = omega arith;
  deform_ok = omega arith;
}

scc_render_example : Rendered 3 (scc_render 3 3579545 44100 chip)
scc_render_example =
    scc_render_lem 3 3579545 44100 chip chip-IsValid (omega arith) (omega arith) (omega arith)

read_write_plus_example : (scc_read 0x85 (scc_write 0x85 0x12 chip)).0 ≡ 0x12
read_write_plus_example =
    scc_read-scc_write_plus 0x85 0x85 0x12 chip chip-IsValid refl (omega arith) (omega arith)

reachable_chip_example : IsValid (scc_render 2 3579545 44100 (scc_write 0x80 0x20 scc_init)).1
reachable_chip_example = ReachableChip-IsValid (
    follows (follows starts (writes 0x80 0x20 scc_init (omega arith)))
      (renders 2 3579545 44100 (scc_write 0x80 0x20 scc_init)))

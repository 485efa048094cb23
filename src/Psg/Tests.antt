-- ===== src/Psg/Tests.antt =====
-- Runs of the sound generator of src/psg.c.
use model_lib.Base.{◌≤◌, ◌≡◌, refl, arith, true, false, negsuc}
use model_lib.Psg.Chip.{
  Psg, psg_variant_ay8910, psg_init, psg_reset, rebuild_levels, restart_envelope, psg_select,
  psg_read_data, psg_write_data, psg_set_volume,
}
use model_lib.Psg.Ticks.{raw_level, psg_advance_ticks}
use model_lib.Psg.Render.{current_amplitude}
use model_lib.Psg.Laws.Registers.{psg_read_data-psg_write_data}
use model_lib.Psg.Laws.Noise.{Running, psg_advance_ticks-Running}
use model_lib.Psg.Laws.Levels.{current_amplitude-psg_set_volume}
use model_lib.Psg.Laws.Envelope.{envelope_steps, ends, restart_envelope_lem}

abbrev fresh : Psg
fresh = psg_init psg_variant_ay8910

read_write_example :
    psg_read_data (psg_select 0x0d (psg_write_data 0x3b (psg_select 0x0d fresh))) ≡ 0x0b
unfolding psg_init psg_reset restart_envelope rebuild_levels
read_write_example = psg_read_data-psg_write_data 0x0d 0x0d 0x3b fresh refl

noise_example : Running (psg_advance_ticks 100 fresh).noise_lfsr
unfolding psg_init psg_reset restart_envelope rebuild_levels
noise_example = psg_advance_ticks-Running 100 fresh (omega arith, omega arith)

volume_example : current_amplitude (psg_set_volume (negsuc 4) fresh) ≤ 32766
volume_example = current_amplitude-psg_set_volume (negsuc 4) fresh

envelope_example :
    let start = restart_envelope 13 fresh in
    let u = envelope_steps 64 start in
    (ends 13 ≡ true → raw_level (envelope_steps 35 start) ≡ 31)
    × (ends 13 ≡ false
        → (u.envelope_step ≡ start.envelope_step) × (u.envelope_attack ≡ start.envelope_attack))
envelope_example = restart_envelope_lem 13 3 fresh (omega arith)

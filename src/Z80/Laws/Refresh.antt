-- ===== src/Z80/Laws/Refresh.antt =====
-- The refresh register R: `refresh` at every opcode byte, and the halted step of z80_step_impl in
-- src/z80.c.
use model_lib.Base.{◌+◌, ◌*◌, ◌/◌, ◌%◌, ◌≤◌, ◌<◌, ◌≡◌, ◌≢◌, refl, arith, true, false}
use model_lib.Base.{bit_and}
use model_lib.Base.Bits.{bit, bit_and-pow, bit_and-mask, bit_or-fields, bit_or_comm}
use model_lib.Z80.Cpu.{Cpu, refresh}
use model_lib.Z80.Bus.{Bus, Machine}
use model_lib.Z80.Main.{run_or_halt, z80_step_impl}
use model_lib.Z80.Laws.Dispatch.{accepts, cleared}

-- An opcode byte counts in the low seven bits of R and keeps its bit 7.
pub refresh_lem : (s : Cpu) → s.r < 256 → (refresh s).r ≡ s.r / 128 * 128 + (s.r + 1) % 128
unfolding refresh
refresh_lem s h =
    rw
      (
        bit_and-mask 7 (s.r + 1),
        bit_and-pow 7 s.r,
        bit_or_comm ((s.r + 1) % 128) (bit 7 s.r * 128),
        bit_or-fields 7 (bit 7 s.r) ((s.r + 1) % 128) (omega arith),
      )
      (omega arith)

module _ {C : Type 0} (bus : Bus C) where
  halted_path :
      (s : Machine C)
      → accepts s.cpu ≡ false
      → s.cpu.halted ≡ true
      → z80_step_impl bus s
        ≡ (4, record s { cpu = record (cleared s.cpu) { r = bit_and (s.cpu.r + 1) 0x7f } })
  unfolding z80_step_impl run_or_halt
  halted_path s quiet halted = rw (quiet, halted)

  -- A halted processor that takes no interrupt spends 4 cycles, touches neither the memory nor
  -- PC, and counts in R; bit 7 of R is then clear, so that R differs from what an executed
  -- opcode would leave whenever bit 7 was set.
  pub halted_step :
      (s : Machine C)
      → accepts s.cpu ≡ false
      → s.cpu.halted ≡ true
      → s.cpu.r < 256
      → let (n, t) = z80_step_impl bus s in
        (n ≡ 4)
        × (t.ctx ≡ s.ctx)
        × (t.cpu.pc ≡ s.cpu.pc)
        × (t.cpu.halted ≡ true)
        × (t.cpu.r ≡ (s.cpu.r + 1) % 128)
        × (128 ≤ s.cpu.r → t.cpu.r ≢ (refresh s.cpu).r)
  halted_step s quiet halted h = rw (halted_path s quiet halted) (
    refl,
    refl,
    refl,
    halted,
    bit_and-mask 7 (s.cpu.r + 1),
    λ high. λ e. omega (arith, e, bit_and-mask 7 (s.cpu.r + 1), refresh_lem s.cpu h),
  )

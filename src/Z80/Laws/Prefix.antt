-- ===== src/Z80/Laws/Prefix.antt =====
-- A DD prefix before an opcode that it does not change: the `default` of exec_xy in src/z80.c.
use model_lib.Base.{ℕ, ◌+◌, ◌*◌, ◌/◌, ◌%◌, ◌<◌, ◌≡◌, refl, ap, ◌∙◌, arith, true, false, u16, one_of}
use model_lib.Z80.Cpu.{Cpu, refresh}
use model_lib.Z80.Bus.{Bus, Machine}
use model_lib.Z80.Ram.{IsRam, u16-u16}
use model_lib.Z80.Xy.{xy_op, xy_cases, put_back}
use model_lib.Z80.Xy.Memory.{ix_reg}
use model_lib.Z80.Main.{main_op, z80_step_impl}
use model_lib.Z80.Laws.Dispatch.{
  accepts, cleared, fetched, fetched_second, z80_step_impl-ram, main_op-dd, pc_fetched,
}
use model_lib.Z80.Laws.Decode.{labels, switch_default}
use model_lib.Z80.Laws.Refresh.{refresh_lem}

-- R after one more opcode byte.
abbrev pub next_r : ℕ → ℕ
next_r r = r / 128 * 128 + (r + 1) % 128

-- The registers that the step leaves.
abbrev ignored : ℕ → Cpu → Cpu
ignored op s = put_back (fetched_second 0xdd op (fetched 0xdd (cleared s)))

ignored_pc : (op : ℕ) (s : Cpu) → s.pc < 65536 → (ignored op s).pc ≡ u16 (s.pc + 1)
unfolding put_back refresh
ignored_pc op s h = omega arith

ignored_r : (op : ℕ) (s : Cpu) → s.r < 256 → (ignored op s).r ≡ next_r (next_r s.r)
unfolding put_back
ignored_r op s h =
    let first =
      refresh_lem (record (cleared s) { pc = u16 (s.pc + 1); last_op = 0xdd; last_prefix = 0 }) h in
    let s1 = fetched 0xdd (cleared s) in
    refresh_lem (record s1 { last_prefix = 0xdd; pc = u16 (s1.pc + 1); last_op = op })
      (omega (arith, first))
    ∙ ap next_r first

module _ {C : Type 0} {bus : Bus C} (ram : IsRam bus) where
  open ram use {peek}

  xy_op_ignored :
      (op : ℕ) (s : Machine C)
      → one_of op (labels (xy_cases bus ix_reg op)) ≡ false
      → xy_op bus ix_reg op s ≡ (4, record s { cpu = put_back s.cpu })
  unfolding xy_op
  xy_op_ignored op s h = ap (λ m. m s) (switch_default op (xy_cases bus ix_reg op) _ h)

  ignored_path :
      (s : Machine C) (op : ℕ)
      → accepts s.cpu ≡ false
      → s.cpu.halted ≡ false
      → s.cpu.pc < 65536
      → peek s.ctx s.cpu.pc ≡ 0xdd
      → peek s.ctx (u16 (s.cpu.pc + 1)) ≡ op
      → one_of op (labels (xy_cases bus ix_reg op)) ≡ false
      → z80_step_impl bus s ≡ (4, record s { cpu = ignored op s.cpu })
  ignored_path s op quiet running hp first second h =
      let here : u16 s.cpu.pc ≡ s.cpu.pc = omega arith in
      let byte : peek s.ctx (u16 s.cpu.pc) ≡ 0xdd = rw here first in
      let s1 : Machine C = record s { cpu = fetched 0xdd (cleared s.cpu) } in
      let next : peek s.ctx (u16 s1.cpu.pc) ≡ op =
        rw (pc_fetched 0xdd (cleared s.cpu), u16-u16 (s.cpu.pc + 1)) second in
      z80_step_impl-ram ram s quiet running
      ∙ ap (λ b. main_op bus b (record s { cpu = fetched b (cleared s.cpu) })) byte
      ∙ main_op-dd ram s1
      ∙ ap (λ b. xy_op bus ix_reg b (record s { cpu = fetched_second 0xdd b s1.cpu })) next
      ∙ xy_op_ignored op _ h

  -- DD before an opcode that the IX `switch` does not list is a step of 4 cycles that leaves the
  -- memory alone and PC at that opcode; R counts both bytes, so that the opcode, fetched once
  -- more by the next step, counts R a third time.
  pub prefix_ignored :
      (s : Machine C) (op : ℕ)
      → accepts s.cpu ≡ false
      → s.cpu.halted ≡ false
      → s.cpu.pc < 65536
      → s.cpu.r < 256
      → peek s.ctx s.cpu.pc ≡ 0xdd
      → peek s.ctx (u16 (s.cpu.pc + 1)) ≡ op
      → one_of op (labels (xy_cases bus ix_reg op)) ≡ false
      → let (n, t) = z80_step_impl bus s in
        (n ≡ 4)
        × (t.ctx ≡ s.ctx)
        × (t.cpu.pc ≡ u16 (s.cpu.pc + 1))
        × (t.cpu.last_prefix_ignored ≡ true)
        × (t.cpu.r ≡ next_r (next_r s.cpu.r))
  prefix_ignored s op quiet running hp hr first second h =
      rw (ignored_path s op quiet running hp first second h)
        (refl, refl, ignored_pc op s.cpu hp, unfold put_back in refl, ignored_r op s.cpu hr)

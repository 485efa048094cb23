-- ===== src/Z80/Laws/Dispatch.antt =====
-- How an instruction on memory is reached: the stages of z80_step_impl in src/z80.c as equations.
use model_lib.Base.{ℕ, ◌+◌, ◌≡◌, refl, ◌∙◌, Bool, false, not, ◌&&◌, u16}
use model_lib.Z80.Cpu.{Cpu, refresh}
use model_lib.Z80.Bus.{Bus, Machine}
use model_lib.Z80.Ram.{IsRam, fetch8-ram}
use model_lib.Z80.Ed.{ed_op, exec_ed}
use model_lib.Z80.Xy.{exec_xy, xy_op}
use model_lib.Z80.Xy.Memory.{Index, ix_reg}
use model_lib.Z80.Main.{main_op, main_cases, prefix_cases, run_opcode, run_or_halt, z80_step_impl}
use model_lib.Z80.Main.Loads.{load_cases, count_cases}
use model_lib.Z80.Main.Accumulator.{accumulator_cases, relative_cases}
use model_lib.Z80.Main.Registers.{register_cases}
use model_lib.Z80.Main.Flow.{stack_cases, flow_cases}

-- An interrupt is taken before the next instruction.
abbrev pub accepts : Cpu → Bool
accepts s = s.pending_irq && (s.iff1 && not s.ei_delay)

-- The registers at an instruction: what z80_step_impl clears before it looks at the opcode.
abbrev pub cleared : Cpu → Cpu
cleared s = record s { last_xycb = false; last_prefix_ignored = false; ei_delay = false }

-- The registers when the first opcode byte `op` has been fetched.
abbrev pub fetched : ℕ → Cpu → Cpu
fetched op s = refresh (record s { pc = u16 (s.pc + 1); last_op = op; last_prefix = 0 })

-- The registers when the byte `op` after a prefix has been fetched.
abbrev pub fetched_second : ℕ → ℕ → Cpu → Cpu
fetched_second prefix op s =
    refresh (record s { last_prefix = prefix; pc = u16 (s.pc + 1); last_op = op })

pub pc_fetched : (op : ℕ) (s : Cpu) → (fetched op s).pc ≡ u16 (s.pc + 1)
unfolding refresh
pc_fetched op s = refl

module _ {C : Type 0} {bus : Bus C} (ram : IsRam bus) where
  open ram use {peek}

  pub z80_step_impl-ram :
      (s : Machine C)
      → accepts s.cpu ≡ false
      → s.cpu.halted ≡ false
      → let op = peek s.ctx (u16 s.cpu.pc) in
        z80_step_impl bus s ≡ main_op bus op (record s { cpu = fetched op (cleared s.cpu) })
  unfolding z80_step_impl run_or_halt run_opcode
  z80_step_impl-ram s quiet running = rw (quiet, running, fetch8-ram ram)

  exec_ed-ram :
      (s : Machine C)
      → let op = peek s.ctx (u16 s.cpu.pc) in
        exec_ed bus s
        ≡ ed_op bus op
            (record s { cpu = refresh (record s.cpu { pc = u16 (s.cpu.pc + 1); last_op = op }) })
  unfolding exec_ed
  exec_ed-ram s = rw (fetch8-ram ram s)

  main_op-0xed :
      (s : Machine C)
      → main_op bus 0xed s ≡ exec_ed bus (record s { cpu = record s.cpu { last_prefix = 0xed } })
  unfolding main_op main_cases load_cases count_cases accumulator_cases relative_cases
      register_cases stack_cases flow_cases prefix_cases
  main_op-0xed s = refl

  pub main_op-ed :
      (s : Machine C)
      → let op = peek s.ctx (u16 s.cpu.pc) in
        main_op bus 0xed s ≡ ed_op bus op (record s { cpu = fetched_second 0xed op s.cpu })
  main_op-ed s = main_op-0xed s ∙ exec_ed-ram _

  exec_xy-ram :
      (xy : Index) (s : Machine C)
      → let op = peek s.ctx (u16 s.cpu.pc) in
        exec_xy bus xy s
        ≡ xy_op bus xy op
            (record s { cpu = refresh (record s.cpu { pc = u16 (s.cpu.pc + 1); last_op = op }) })
  unfolding exec_xy
  exec_xy-ram xy s = rw (fetch8-ram ram s)

  main_op-0xdd :
      (s : Machine C)
      → main_op bus 0xdd s
        ≡ exec_xy bus ix_reg (record s { cpu = record s.cpu { last_prefix = 0xdd } })
  unfolding main_op main_cases load_cases count_cases accumulator_cases relative_cases
      register_cases stack_cases flow_cases prefix_cases
  main_op-0xdd s = refl

  pub main_op-dd :
      (s : Machine C)
      → let op = peek s.ctx (u16 s.cpu.pc) in
        main_op bus 0xdd s ≡ xy_op bus ix_reg op (record s { cpu = fetched_second 0xdd op s.cpu })
  main_op-dd s = main_op-0xdd s ∙ exec_xy-ram ix_reg _

-- ===== src/Z80/Main.antt =====
-- One instruction, `z80_step_impl` of src/z80.c: a pending interrupt, a halted processor, or an
-- opcode with its prefix.
pub mod Loads
pub mod Accumulator
pub mod Registers
pub mod Flow
use model_lib.Base.{
  ℕ, ◌+◌, ◌*◌, ◌^◌, bit_and, bit_or, Bool, true, false, not, ◌&&◌, List, [], ◌∷◌, ◌++◌,
}
use model_lib.Base.{switch, ◌==◌, if◌then◌else◌, u16, ◌<<<◌}
use model_lib.Z80.Cpu.{Cpu, refresh}
use model_lib.Z80.Bus.{Bus, M, ◌>>=◌, ◌>>◌, ret, gets, modify, cost, fetch8, push16, read16}
use model_lib.Z80.ExecCb.{exec_cb}
use model_lib.Z80.Ed.{exec_ed}
use model_lib.Z80.Xy.{exec_xy}
use model_lib.Z80.Xy.Memory.{ix_reg, iy_reg}
use Loads.{load_cases, count_cases}
use Accumulator.{accumulator_cases, relative_cases}
use Registers.{register_cases}
use Flow.{stack_cases, flow_cases}

module _ {C : Type 0} (bus : Bus C) where
  unfoldable pub prefix_cases : List (List ℕ × M C ℕ)
  prefix_cases =
      (0xcb ∷ [], modify (λ s. record s { last_prefix = 0xcb }) >> exec_cb bus)
      ∷ (0xed ∷ [], modify (λ s. record s { last_prefix = 0xed }) >> exec_ed bus)
      ∷ (0xdd ∷ [], modify (λ s. record s { last_prefix = 0xdd }) >> exec_xy bus ix_reg)
      ∷ (0xfd ∷ [], modify (λ s. record s { last_prefix = 0xfd }) >> exec_xy bus iy_reg)
      ∷ []

  unfoldable pub main_cases : ℕ → List (List ℕ × M C ℕ)
  main_cases op =
      (0x00 ∷ [], ret 4) ∷ load_cases bus
      ++ (count_cases bus
          ++ (accumulator_cases
              ++ (relative_cases bus
                  ++ (register_cases bus op
                      ++ (stack_cases bus ++ (flow_cases bus ++ prefix_cases))))))

  -- The `switch (op)`; the `default` prints a message and returns 4.
  unfoldable pub main_op : ℕ → M C ℕ
  main_op op = switch op (main_cases op) (ret 4)

  unfoldable pub run_opcode : M C ℕ
  run_opcode = do
    op ← fetch8 bus
    modify (λ s. record s { last_op = op; last_prefix = 0 })
    modify refresh
    main_op op

  -- The acknowledge of a maskable interrupt, up to the vector.
  unfoldable pub acknowledge : M C (Unit {0})
  acknowledge = do
    modify (λ s. record s {
      pending_irq = false;
      halted = false;
      iff1 = false;
      iff2 = false;
      int_accepted = true;
    })
    modify refresh
    pc ← gets (λ s. s.pc)
    push16 bus pc
    modify (λ s. record s { i_ws_adjust = 0 })

  -- What follows when no interrupt is taken.
  unfoldable pub run_or_halt : M C ℕ
  run_or_halt = do
    modify (λ s. record s { ei_delay = false })
    halted ← gets (λ s. s.halted)
    if halted then cost 4 (modify (λ s. record s { r = bit_and (s.r + 1) 0x7f })) else run_opcode

  unfoldable pub vector_cases : List (List ℕ × M C ℕ)
  vector_cases =
      (0 ∷ 1 ∷ [], cost 13 (modify (λ s. record s { pc = 0x0038 })))
      ∷ (
        2 ∷ [],
        cost 19 (do
          i ← gets (λ s. s.i)
          pc ← read16 bus (u16 (bit_or (i <<< 8) 0xff))
          modify (λ s. record s { pc = pc })),
      )
      ∷ []

  -- The `switch (cpu->im)`; for another mode the code falls through to the next instruction.
  unfoldable pub take_vector : ℕ → M C ℕ
  take_vector im = switch im vector_cases run_or_halt

  unfoldable pub z80_step_impl : M C ℕ
  z80_step_impl = do
    modify (λ s. record s { last_xycb = false; last_prefix_ignored = false })
    accept ← gets (λ s. s.pending_irq && (s.iff1 && not s.ei_delay))
    if accept then (acknowledge >> (gets (λ s. s.im) >>= take_vector)) else run_or_halt

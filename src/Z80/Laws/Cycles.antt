-- ===== src/Z80/Laws/Cycles.antt =====
-- The cycle counts that an instruction may report, from the `return` of each case of src/z80.c.
use model_lib.Base.{
  ℕ, ◌≤◌, Bool, true, false, List, [], ◌∷◌, ◌++◌, All, switch, one_of, if◌then◌else◌, arith,
}
use model_lib.Z80.Bus.{Bus, M, Machine}
use model_lib.Z80.ExecCb.{cb_op, exec_cb}
use model_lib.Z80.Ed.{ed_op, exec_ed}
use model_lib.Z80.Ed.Registers.{port_cases, word_cases, mode_cases}
use model_lib.Z80.Ed.Block.{
  block_cases, repeat_if, move_once, move_repeat, compare_repeat, io_once, io_repeat,
}
use model_lib.Z80.Xy.{xy_op, xy_cases, exec_xy}
use model_lib.Z80.Xy.Memory.{Index, xy_word_cases, xy_memory_cases, alu_xy, exec_xycb}
use model_lib.Z80.Xy.Halves.{xy_half_cases, xy_alu_cases}
use model_lib.Z80.Main.{
  main_op, run_opcode, run_or_halt, vector_cases, take_vector, z80_step_impl, prefix_cases,
  main_cases,
}
use model_lib.Base.{Bool-cases, inl, inr, not, ◌&&◌}
use model_lib.Z80.Xy.Memory.{ix_reg, iy_reg}
use model_lib.Z80.Main.Accumulator.{accumulator_cases, relative_cases, jump_relative, djnz}
use model_lib.Z80.Main.Registers.{register_cases, alu_r, move_r}
use model_lib.Z80.Main.Flow.{stack_cases, flow_cases, return_if, restart, jump_if, call_if}
use model_lib.Z80.Main.Loads.{load_cases, count_cases}

module _ {C : Type 0} where
  -- A routine that reports from 4 to 25 cycles whatever the machine.
  abbrev pub Timed : M C ℕ → Type 0
  Timed m = (s : Machine C) → (4 ≤ (m s).0) × ((m s).0 ≤ 25)

  abbrev TimedCase : List ℕ × M C ℕ → Type 0
  TimedCase c = Timed c.1

  if-Timed : (b : Bool) (m n : M C ℕ) → Timed m → Timed n → Timed (if b then m else n)
  if-Timed true m n h k = h
  if-Timed false m n h k = k

  switch-Timed :
      (x : ℕ) (cases : List (List ℕ × M C ℕ)) (d : M C ℕ)
      → All TimedCase cases
      → Timed d
      → Timed (switch x cases d)
  switch-Timed x [] d h k = k
  switch-Timed x ((ls, m) ∷ cases) d h k =
      if-Timed (one_of x ls) m (switch x cases d) h.0 (switch-Timed x cases d h.1 k)

  All-append :
      (xs ys : List (List ℕ × M C ℕ))
      → All TimedCase xs
      → All TimedCase ys
      → All TimedCase (xs ++ ys)
  All-append [] ys h k = k
  All-append (x ∷ xs) ys h k = (h.0, All-append xs ys h.1 k)

module _ {C : Type 0} (bus : Bus C) where
  cb_op-Timed : (op v : ℕ) → Timed (cb_op bus op v)
  unfolding cb_op
  cb_op-Timed op v s = ground arith

  exec_cb-Timed : Timed (exec_cb bus)
  unfolding exec_cb
  exec_cb-Timed s = cb_op-Timed _ _ _

  port_cases-Timed : (op : ℕ) → All TimedCase (port_cases bus op)
  unfolding port_cases
  port_cases-Timed op = omega arith

  word_cases-Timed : (op : ℕ) → All TimedCase (word_cases bus op)
  unfolding word_cases
  word_cases-Timed op = omega arith

  mode_cases-Timed : All TimedCase (mode_cases bus)
  unfolding mode_cases
  mode_cases-Timed = omega arith

  block_cases-Timed : All TimedCase (block_cases bus)
  unfolding block_cases repeat_if move_once move_repeat compare_repeat io_once io_repeat
  block_cases-Timed = ground arith

  ed_op-Timed : (op : ℕ) → Timed (ed_op bus op)
  unfolding ed_op
  ed_op-Timed op = search (
    switch-Timed, All-append, port_cases-Timed, word_cases-Timed, mode_cases-Timed,
    block_cases-Timed, arith,
  )

  module _ (xy : Index) where
    xy_word_cases-Timed : All TimedCase (xy_word_cases bus xy)
    unfolding xy_word_cases
    xy_word_cases-Timed = omega arith

    xy_memory_cases-Timed : (op : ℕ) → All TimedCase (xy_memory_cases bus xy op)
    unfolding xy_memory_cases alu_xy exec_xycb
    xy_memory_cases-Timed op = omega arith

    xy_half_cases-Timed : (op : ℕ) → All TimedCase (xy_half_cases bus xy op)
    unfolding xy_half_cases
    xy_half_cases-Timed op = omega arith

    xy_alu_cases-Timed : All TimedCase (xy_alu_cases bus xy)
    unfolding xy_alu_cases
    xy_alu_cases-Timed = omega arith

    xy_op-Timed : (op : ℕ) → Timed (xy_op bus xy op)
    unfolding xy_op xy_cases
    xy_op-Timed op = search (
      switch-Timed, All-append, xy_word_cases-Timed, xy_memory_cases-Timed, xy_half_cases-Timed,
      xy_alu_cases-Timed, arith,
    )

    exec_xy-Timed : Timed (exec_xy bus xy)
    unfolding exec_xy
    exec_xy-Timed s = xy_op-Timed _ _

  exec_ed-Timed : Timed (exec_ed bus)
  unfolding exec_ed
  exec_ed-Timed s = ed_op-Timed _ _

  load_cases-Timed : All TimedCase (load_cases bus)
  unfolding load_cases
  load_cases-Timed = omega arith

  count_cases-Timed : All TimedCase (count_cases bus)
  unfolding count_cases
  count_cases-Timed = omega arith

  accumulator_cases-Timed : All TimedCase (accumulator_cases {C = C})
  unfolding accumulator_cases
  accumulator_cases-Timed = omega arith

  relative_cases-Timed : All TimedCase (relative_cases bus)
  unfolding relative_cases jump_relative djnz
  relative_cases-Timed = ground arith

  register_cases-Timed : (op : ℕ) → All TimedCase (register_cases bus op)
  unfolding register_cases alu_r move_r
  register_cases-Timed op = ground arith

  stack_cases-Timed : All TimedCase (stack_cases bus)
  unfolding stack_cases return_if restart
  stack_cases-Timed = ground arith

  flow_cases-Timed : All TimedCase (flow_cases bus)
  unfolding flow_cases jump_if call_if
  flow_cases-Timed = ground arith

  prefix_cases-Timed : All TimedCase (prefix_cases bus)
  unfolding prefix_cases
  prefix_cases-Timed = (
    λ s. exec_cb-Timed _,
    (λ s. exec_ed-Timed _, (λ s. exec_xy-Timed ix_reg _, (λ s. exec_xy-Timed iy_reg _, tt))),
  )

  main_cases-Timed : (op : ℕ) → All TimedCase (main_cases bus op)
  unfolding main_cases
  main_cases-Timed op =
      search
        (
          All-append, load_cases-Timed, count_cases-Timed, accumulator_cases-Timed,
          relative_cases-Timed, register_cases-Timed, stack_cases-Timed, flow_cases-Timed,
          prefix_cases-Timed, arith,
        )
        depth 12

  run_opcode-Timed : Timed (run_opcode bus)
  unfolding run_opcode main_op
  run_opcode-Timed s = switch-Timed _ _ (λ t. (4, t)) (main_cases-Timed _) (omega arith) _

  run_or_halt-Timed : Timed (run_or_halt bus)
  unfolding run_or_halt
  run_or_halt-Timed s = elim (Bool-cases s.cpu.halted) [
    | inl e ↦ rw e (omega arith)
    | inr e ↦ rw e (run_opcode-Timed _)
  ]

  vector_cases-Timed : All TimedCase (vector_cases bus)
  unfolding vector_cases
  vector_cases-Timed = omega arith

  take_vector-Timed : (im : ℕ) → Timed (take_vector bus im)
  unfolding take_vector
  take_vector-Timed im =
      switch-Timed im (vector_cases bus) (run_or_halt bus) vector_cases-Timed run_or_halt-Timed

  pub z80_step_impl-Timed : Timed (z80_step_impl bus)
  unfolding z80_step_impl
  z80_step_impl-Timed s =
      elim (Bool-cases (s.cpu.pending_irq && (s.cpu.iff1 && not s.cpu.ei_delay))) [
        | inl e ↦ rw e (take_vector-Timed _ _)
        | inr e ↦ rw e (run_or_halt-Timed _)
      ]

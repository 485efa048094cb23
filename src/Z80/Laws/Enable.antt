-- ===== src/Z80/Laws/Enable.antt =====
-- EI in src/z80.c: the instruction after it runs before a waiting interrupt is taken.
use model_lib.Base.{ℕ, ◌+◌, ◌/◌, ◌%◌, ◌<◌, ◌≡◌, refl, ap, ◌∙◌, arith, true, false, ◌||◌}
use model_lib.Base.{sub16, u16, ◌==◌}
use model_lib.Z80.Cpu.{Cpu, refresh}
use model_lib.Z80.Bus.{Bus, Machine}
use model_lib.Z80.Ram.{IsRam}
use model_lib.Z80.Main.{main_op, main_cases, prefix_cases, z80_step_impl}
use model_lib.Z80.Main.Loads.{load_cases, count_cases}
use model_lib.Z80.Main.Accumulator.{accumulator_cases, relative_cases}
use model_lib.Z80.Main.Registers.{register_cases}
use model_lib.Z80.Main.Flow.{stack_cases, flow_cases}
use model_lib.Z80.Laws.Dispatch.{accepts, cleared, fetched, z80_step_impl-ram}
use model_lib.Z80.Laws.Interrupts.{interrupt_mode_1}

-- The registers after EI, and after EI and NOP.
abbrev after_ei : Cpu → Cpu
after_ei s = record (fetched 0xfb (cleared s)) { iff1 = true; iff2 = true; ei_delay = true }

abbrev after_ei_nop : Cpu → Cpu
after_ei_nop s = fetched 0x00 (cleared (after_ei s))

not_yet : (s : Cpu) → accepts (after_ei s) ≡ false
not_yet s = ground arith

now : (s : Cpu) → s.pending_irq ≡ true → accepts (after_ei_nop s) ≡ true
unfolding refresh
now s h = rw h

module _ {C : Type 0} {bus : Bus C} (ram : IsRam bus) where
  open ram use {peek}

  main_op-0xfb :
      (s : Machine C)
      → main_op bus 0xfb s
        ≡ (4, record s { cpu = record s.cpu { iff1 = true; iff2 = true; ei_delay = true } })
  unfolding main_op main_cases load_cases count_cases accumulator_cases relative_cases
      register_cases stack_cases flow_cases prefix_cases
  main_op-0xfb s = refl

  main_op-0x00 : (s : Machine C) → main_op bus 0x00 s ≡ (4, s)
  unfolding main_op main_cases
  main_op-0x00 s = refl

  ei_step :
      (s : Machine C)
      → accepts s.cpu ≡ false
      → s.cpu.halted ≡ false
      → peek s.ctx (u16 s.cpu.pc) ≡ 0xfb
      → z80_step_impl bus s ≡ (4, record s { cpu = after_ei s.cpu })
  ei_step s quiet running op =
      z80_step_impl-ram ram s quiet running
      ∙ ap (λ o. main_op bus o (record s { cpu = fetched o (cleared s.cpu) })) op
      ∙ main_op-0xfb _

  nop_step :
      (s : Machine C)
      → accepts s.cpu ≡ false
      → s.cpu.halted ≡ false
      → peek s.ctx (u16 s.cpu.pc) ≡ 0x00
      → z80_step_impl bus s ≡ (4, record s { cpu = fetched 0x00 (cleared s.cpu) })
  nop_step s quiet running op =
      z80_step_impl-ram ram s quiet running
      ∙ ap (λ o. main_op bus o (record s { cpu = fetched o (cleared s.cpu) })) op
      ∙ main_op-0x00 _

  two_steps :
      (s : Machine C)
      → accepts s.cpu ≡ false
      → s.cpu.halted ≡ false
      → peek s.ctx (u16 s.cpu.pc) ≡ 0xfb
      → peek s.ctx (u16 (s.cpu.pc + 1)) ≡ 0x00
      → z80_step_impl bus (z80_step_impl bus s).1 ≡ (4, record s { cpu = after_ei_nop s.cpu })
  unfolding refresh
  two_steps s quiet running ei nop =
      let here : u16 (u16 (s.cpu.pc + 1)) ≡ u16 (s.cpu.pc + 1) = omega arith in
      ap (λ (q : ℕ × Machine C). z80_step_impl bus q.1) (ei_step s quiet running ei)
      ∙ nop_step (record s { cpu = after_ei s.cpu }) (not_yet s.cpu) running
          (ap (peek s.ctx) here ∙ nop)

  -- EI and NOP with an interrupt waiting, in mode 0 or 1: both instructions run, and the interrupt
  -- is taken after them, with the address behind NOP on the stack.
  pub ei_nop_interrupt :
      (s : Machine C)
      → s.cpu.pending_irq ≡ true
      → accepts s.cpu ≡ false
      → s.cpu.halted ≡ false
      → (s.cpu.im == 0) || (s.cpu.im == 1) ≡ true
      → s.cpu.pc < 65536
      → s.cpu.sp < 65536
      → peek s.ctx s.cpu.pc ≡ 0xfb
      → peek s.ctx (u16 (s.cpu.pc + 1)) ≡ 0x00
      → let t = (z80_step_impl bus s).1 in
        let u = (z80_step_impl bus t).1 in
        let v = (z80_step_impl bus u).1 in
        (t.cpu.pc ≡ u16 (s.cpu.pc + 1))
        × (u.cpu.pc ≡ u16 (s.cpu.pc + 2))
        × (v.cpu.pc ≡ 0x0038)
        × (peek v.ctx (sub16 s.cpu.sp 2) ≡ u16 (s.cpu.pc + 2) % 256)
        × (peek v.ctx (sub16 s.cpu.sp 1) ≡ u16 (s.cpu.pc + 2) / 256)
  unfolding refresh
  ei_nop_interrupt s waiting quiet running mode hp hs ei nop =
      let here : u16 s.cpu.pc ≡ s.cpu.pc = omega arith in
      let first = ap (peek s.ctx) here ∙ ei in
      let w : Machine C = record s { cpu = after_ei_nop s.cpu } in
      let past : u16 (u16 (s.cpu.pc + 1) + 1) ≡ u16 (s.cpu.pc + 2) = omega arith in
      let int = interrupt_mode_1 ram w (now s.cpu waiting) mode (omega arith) hs in
      rw (two_steps s quiet running first nop, ei_step s quiet running first)
        (refl, past, int.1, int.8 ∙ ap (λ p. p % 256) past, int.9 ∙ ap (λ p. p / 256) past)

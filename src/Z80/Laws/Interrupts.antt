-- ===== src/Z80/Laws/Interrupts.antt =====
-- The maskable interrupt: z80_interrupt and the head of z80_step_impl in src/z80.c.
use model_lib.Base.{ℕ, ◌/◌, ◌%◌, ◌<◌, ◌≡◌, refl, ap, ◌∙◌, arith, true, false, ◌||◌}
use model_lib.Base.{sub16, ◌==◌}
use model_lib.Z80.Cpu.{Cpu, refresh}
use model_lib.Z80.Bus.{Bus, Machine}
use model_lib.Z80.Ram.{IsRam, cpu-push16, peek-push16}
use model_lib.Z80.Main.{acknowledge, take_vector, vector_cases, z80_step_impl}
use model_lib.Z80.Laws.Dispatch.{accepts}

-- The registers of an acknowledged interrupt, before the vector is taken.
abbrev pub acknowledged : Cpu → Cpu
acknowledged s =
    let t = refresh (record s {
      last_xycb = false;
      last_prefix_ignored = false;
      pending_irq = false;
      halted = false;
      iff1 = false;
      iff2 = false;
      int_accepted = true;
    }) in
    record t { sp = sub16 t.sp 2; i_ws_adjust = 0 }

module _ {C : Type 0} {bus : Bus C} (ram : IsRam bus) where
  open ram use {peek}

  -- The machine when the interrupt has been acknowledged.
  abbrev pushed : Machine C → Machine C
  pushed s =
      (acknowledge bus
        (record s { cpu = record s.cpu { last_xycb = false; last_prefix_ignored = false } })).1

  cpu-acknowledge : (s : Machine C) → (pushed s).cpu ≡ acknowledged s.cpu
  unfolding acknowledge
  cpu-acknowledge s = ap {A = Cpu} (λ c. record c { i_ws_adjust = 0 }) (cpu-push16 ram _ _)

  peek-acknowledge :
      (s : Machine C)
      → s.cpu.pc < 65536
      → s.cpu.sp < 65536
      → (peek (pushed s).ctx (sub16 s.cpu.sp 2) ≡ s.cpu.pc % 256)
        × (peek (pushed s).ctx (sub16 s.cpu.sp 1) ≡ s.cpu.pc / 256)
  unfolding acknowledge refresh
  peek-acknowledge s hp hs =
      let at = λ (b : ℕ).
        peek-push16 ram s.cpu.pc b
          (record s {
            cpu = refresh (record s.cpu {
              last_xycb = false;
              last_prefix_ignored = false;
              pending_irq = false;
              halted = false;
              iff1 = false;
              iff2 = false;
              int_accepted = true;
            });
          })
          hp hs in
      (at (sub16 s.cpu.sp 2) ∙ ground arith, at (sub16 s.cpu.sp 1) ∙ ground arith)

  taken :
      (s : Machine C)
      → accepts s.cpu ≡ true
      → z80_step_impl bus s ≡ take_vector bus (acknowledged s.cpu).im (pushed s)
  unfolding z80_step_impl
  taken s h = rw h (ap (λ c. take_vector bus c.im (pushed s)) (cpu-acknowledge s))

  vector_mode_1 :
      (im : ℕ) (t : Machine C)
      → (im == 0) || (im == 1) ≡ true
      → take_vector bus im t ≡ (13, record t { cpu = record t.cpu { pc = 0x0038 } })
  unfolding take_vector vector_cases
  vector_mode_1 im t h =
      let listed : (im == 0) || ((im == 1) || false) ≡ true = ground arith in rw listed

  -- The machine with the interrupt taken in mode 0 or 1.
  in_mode_1 :
      (s : Machine C)
      → accepts s.cpu ≡ true
      → (s.cpu.im == 0) || (s.cpu.im == 1) ≡ true
      → z80_step_impl bus s
        ≡ (13, record (pushed s) { cpu = record (pushed s).cpu { pc = 0x0038 } })
  unfolding refresh
  in_mode_1 s h m = taken s h ∙ vector_mode_1 s.cpu.im (pushed s) m

  -- An interrupt that is pending, enabled and not held back by EI is taken before the next
  -- instruction in mode 0 or 1: it costs 13 cycles, clears the request and both enables, wakes a
  -- halted processor, and goes to 0x0038 with the old PC on the stack.
  pub interrupt_mode_1 :
      (s : Machine C)
      → accepts s.cpu ≡ true
      → (s.cpu.im == 0) || (s.cpu.im == 1) ≡ true
      → s.cpu.pc < 65536
      → s.cpu.sp < 65536
      → let (n, t) = z80_step_impl bus s in
        (n ≡ 13)
        × (t.cpu.pc ≡ 0x0038)
        × (t.cpu.sp ≡ sub16 s.cpu.sp 2)
        × (t.cpu.iff1 ≡ false)
        × (t.cpu.iff2 ≡ false)
        × (t.cpu.pending_irq ≡ false)
        × (t.cpu.halted ≡ false)
        × (t.cpu.int_accepted ≡ true)
        × (peek t.ctx (sub16 s.cpu.sp 2) ≡ s.cpu.pc % 256)
        × (peek t.ctx (sub16 s.cpu.sp 1) ≡ s.cpu.pc / 256)
  unfolding refresh
  interrupt_mode_1 s h m hp hs =
      rw (in_mode_1 s h m, cpu-acknowledge s)
        (
          refl,
          refl,
          refl,
          refl,
          refl,
          refl,
          refl,
          refl,
          (peek-acknowledge s hp hs).0,
          (peek-acknowledge s hp hs).1,
        )

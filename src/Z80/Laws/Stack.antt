-- ===== src/Z80/Laws/Stack.antt =====
-- PUSH and POP on memory: push16 and pop16 of src/z80.c.
use model_lib.Base.{ℕ, ◌+◌, ◌*◌, ◌<◌, ◌≡◌, ◌≢◌, arith, u16, sub16}
use model_lib.Z80.Bus.{Bus, Machine, ◌>>◌, push16, pop16}
use model_lib.Z80.Ram.{IsRam, cpu-push16, peek-push16, pop16-ram}

module _ {C : Type 0} {bus : Bus C} (ram : IsRam bus) where
  open ram use {peek}

  pushed_word :
      (v : ℕ) (s : Machine C)
      → v < 65536
      → s.cpu.sp < 65536
      → let c = (push16 bus v s).1.ctx in
        let sp = sub16 s.cpu.sp 2 in peek c (u16 (sp + 1)) * 256 + peek c (u16 sp) ≡ v
  pushed_word v s hv hs =
      let sp = sub16 s.cpu.sp 2 in
      ground (arith, peek-push16 ram v (u16 (sp + 1)) s, peek-push16 ram v (u16 sp) s)

  unchanged :
      (v b : ℕ) (s : Machine C)
      → v < 65536
      → s.cpu.sp < 65536
      → b ≢ sub16 s.cpu.sp 1
      → b ≢ sub16 s.cpu.sp 2
      → peek (push16 bus v s).1.ctx b ≡ peek s.ctx b
  unchanged v b s hv hs p q = ground (arith, peek-push16 ram v b s)

  -- A push and a pop on memory: the word comes back, the registers are as before, and of the
  -- memory only the two bytes below SP have changed.
  pub pop16-push16 :
      (v : ℕ) (s : Machine C)
      → v < 65536
      → s.cpu.sp < 65536
      → let t = (push16 bus v >> pop16 bus) s in
        (t.0 ≡ v)
        × (t.1.cpu ≡ s.cpu)
        × ((b : ℕ) → b ≢ sub16 s.cpu.sp 1 → b ≢ sub16 s.cpu.sp 2 → peek t.1.ctx b ≡ peek s.ctx b)
  pop16-push16 v s hv hs =
      let back : u16 (sub16 s.cpu.sp 2 + 2) ≡ s.cpu.sp = omega arith in
      rw (pop16-ram ram (push16 bus v s).1, cpu-push16 ram v s)
        (pushed_word v s hv hs, rw back, λ b p q. unchanged v b s hv hs p q)

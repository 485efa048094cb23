-- ===== src/Z80/Bus.antt =====
-- The bus callbacks of src/z80.h, and the accessors at the top of src/z80.c.
-- `C` stands for the machine behind `ctx`: every callback may change it, a read included. The
-- callbacks are parameters; `tick` and `ticked_in_step` may be absent, as the pointers may be null.
use model_lib.Base.{ℕ, ◌+◌, bit_and, bit_or, Option, none, some}
use model_lib.Base.{Bool, true, false}
use model_lib.Base.{u8, u16, sub16, ◌<<<◌, ◌>>>◌}
use model_lib.Z80.Cpu.{Cpu}

pub record Bus (C : Type 0) : Type 0 where
  pub mem_read : C → ℕ → ℕ × C
  pub mem_write : C → ℕ → ℕ → C
  pub io_read : C → ℕ → ℕ × C
  pub io_write : C → ℕ → ℕ → C
  pub tick : Option (C → ℕ → C)
  -- the store of 0 through `ticked_in_step`
  pub reset_ticked : Option (C → C)

-- The processor with the machine on its bus.
pub record Machine (C : Type 0) : Type 0 where
  pub cpu : Cpu
  pub ctx : C

-- A routine: it runs on the machine, returns a value and leaves a machine.
abbrev pub M : Type 0 → Type 0 → Type 0
M C A = Machine C → A × Machine C

infixl 5 ◌>>=◌ ◌>>◌
abbrev pub ◌>>=◌ : {C A B : Type 0} → M C A → (A → M C B) → M C B
◌>>=◌ m f s = let t = m s in f t.0 t.1

abbrev pub ◌>>◌ : {C A B : Type 0} → M C A → M C B → M C B
◌>>◌ m k s = let t = m s in k t.1

abbrev pub ret : {C A : Type 0} → A → M C A
ret x s = (x, s)

abbrev pub gets : {C A : Type 0} → (Cpu → A) → M C A
gets g s = (g s.cpu, s)

abbrev pub modify : {C : Type 0} → (Cpu → Cpu) → M C (Unit {0})
modify g s = (tt, record s { cpu = g s.cpu })

-- A helper of the program that changes registers and returns a value.
abbrev pub apply : {C A : Type 0} → (Cpu → A × Cpu) → M C A
apply g s = let t = g s.cpu in (t.0, record s { cpu = t.1 })

-- `m; return n;`
abbrev pub cost : {C A : Type 0} → ℕ → M C A → M C ℕ
cost n m = m >> ret n

-- `if (c) m;`
abbrev pub when : {C : Type 0} → Bool → M C (Unit {0}) → M C (Unit {0})
when true m = m
when false m = ret tt

module _ {C : Type 0} (bus : Bus C) where
  -- READ8: the callback returns a byte.
  unfoldable pub read8 : ℕ → M C ℕ
  read8 addr s = let t = bus.mem_read s.ctx (u16 addr) in (u8 t.0, record s { ctx = t.1 })

  -- WRITE8
  unfoldable pub write8 : ℕ → ℕ → M C (Unit {0})
  write8 addr v s = (tt, record s { ctx = bus.mem_write s.ctx (u16 addr) (u8 v) })

  -- IN
  unfoldable pub input : ℕ → M C ℕ
  input port s = let t = bus.io_read s.ctx (u16 port) in (u8 t.0, record s { ctx = t.1 })

  -- OUT
  unfoldable pub output : ℕ → ℕ → M C (Unit {0})
  output port v s = (tt, record s { ctx = bus.io_write s.ctx (u16 port) (u8 v) })

  -- `if (bus->tick) bus->tick(bus->ctx, n)`
  unfoldable pub tick : ℕ → M C (Unit {0})
  tick n s = elim bus.tick [ none ↦ (tt, s) | some t ↦ (tt, record s { ctx = t s.ctx n }) ]

  -- FETCH8: the address is `pc` before the increment.
  unfoldable pub fetch8 : M C ℕ
  fetch8 = do pc ← gets (λ s. s.pc); modify (λ s. record s { pc = u16 (s.pc + 1) }); read8 pc

  unfoldable pub fetch16 : M C ℕ
  fetch16 = do lo ← fetch8; hi ← fetch8; ret (u16 (bit_or lo (hi <<< 8)))

  unfoldable pub read16 : ℕ → M C ℕ
  read16 addr = do
    lo ← read8 addr
    hi ← read8 (u16 (addr + 1))
    ret (u16 (bit_or lo (u16 hi <<< 8)))

  unfoldable pub write16 : ℕ → ℕ → M C (Unit {0})
  write16 addr v = do write8 addr (bit_and v 0xff); write8 (u16 (addr + 1)) (v >>> 8)

  unfoldable pub push16 : ℕ → M C (Unit {0})
  push16 v = do modify (λ s. record s { sp = sub16 s.sp 2 }); sp ← gets (λ s. s.sp); write16 sp v

  unfoldable pub pop16 : M C ℕ
  pop16 = do
    sp ← gets (λ s. s.sp)
    v ← read16 sp
    modify (λ s. record s { sp = u16 (s.sp + 2) })
    ret v

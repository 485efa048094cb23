-- ===== src/Z80/Ram.antt =====
-- The bus as plain memory: what a program relies on when its code, its stack and its data lie in
-- RAM. Reads change nothing, and a write changes one byte.
use model_lib.Base.{ℕ, ◌+◌, ◌*◌, ◌/◌, ◌%◌, ◌<◌, ◌≡◌, refl, ap, ◌∙◌, bit_and, bit_or, arith, none}
use model_lib.Base.{◌==◌, if◌then◌else◌, u8, u16, sub16, ◌<<<◌, ◌>>>◌}
use model_lib.Base.Bits.{bit_and-mask, bit_or-fields, bit_or_comm}
use model_lib.Z80.Bus.{Bus, Machine, read8, write8, fetch8, read16, write16, push16, pop16}

pub record IsRam {C : Type 0} (bus : Bus C) : Type 0 where
  pub peek : C → ℕ → ℕ
  pub peek-lt : (c : C) (a : ℕ) → peek c a < 256
  pub mem_read_lem : (c : C) (a : ℕ) → bus.mem_read c a ≡ (peek c a, c)
  pub peek-mem_write :
      (c : C) (a v b : ℕ)
      → v < 256
      → peek (bus.mem_write c a v) b ≡ (if a == b then v else peek c b)

-- A memory of bytes.
abbrev pub flat_bus : Bus (ℕ → ℕ)
flat_bus = record {
  mem_read = λ c a. (u8 (c a), c);
  mem_write = λ c a v b. if a == b then v else c b;
  io_read = λ c p. (0xff, c);
  io_write = λ c p v. c;
  tick = none;
  reset_ticked = none;
}

pub flat_write :
    (c : ℕ → ℕ) (a v b : ℕ)
    → v < 256
    → u8 (if a == b then v else c b) ≡ (if a == b then v else u8 (c b))
flat_write c a v b h = ground arith

abbrev pub flat-IsRam : IsRam flat_bus
flat-IsRam = record {
  peek = λ c a. u8 (c a);
  peek-lt = λ c a. omega arith;
  mem_read_lem = λ c a. refl;
  peek-mem_write = flat_write;
}

pub u16-u16 : (n : ℕ) → u16 (u16 n) ≡ u16 n
u16-u16 n = omega arith

join : (lo hi : ℕ) → lo < 256 → hi < 256 → u16 (bit_or lo (u16 hi <<< 8)) ≡ hi * 256 + lo
join lo hi hl hh =
    let small : u16 hi ≡ hi = omega arith in
    rw (small, bit_or_comm lo (hi * 256)) (omega (arith, bit_or-fields 8 hi lo hl))

module _ {C : Type 0} {bus : Bus C} (ram : IsRam bus) where
  open ram use {peek, peek-lt, mem_read_lem, peek-mem_write}

  pub read8-ram : (a : ℕ) (s : Machine C) → read8 bus a s ≡ (peek s.ctx (u16 a), s)
  unfolding read8
  read8-ram a s =
      rw (mem_read_lem s.ctx (u16 a)) (ap (λ v. (v, s)) (omega (arith, peek-lt s.ctx (u16 a))))

  pub fetch8-ram :
      (s : Machine C)
      → fetch8 bus s
        ≡ (peek s.ctx (u16 s.cpu.pc), record s { cpu = record s.cpu { pc = u16 (s.cpu.pc + 1) } })
  unfolding fetch8
  fetch8-ram s = read8-ram s.cpu.pc _

  -- A word is read low byte first.
  pub read16-ram :
      (a : ℕ) (s : Machine C)
      → read16 bus a s ≡ (peek s.ctx (u16 (a + 1)) * 256 + peek s.ctx (u16 a), s)
  unfolding read16
  read16-ram a s = rw (read8-ram a s) (
      rw (read8-ram (u16 (a + 1)) s, u16-u16 (a + 1))
        (ap (λ v. (v, s))
          (join (peek s.ctx (u16 a)) (peek s.ctx (u16 (a + 1))) (peek-lt _ _) (peek-lt _ _))))

  pub pop16-ram :
      (s : Machine C)
      → pop16 bus s ≡ (
        peek s.ctx (u16 (s.cpu.sp + 1)) * 256 + peek s.ctx (u16 s.cpu.sp),
        record s { cpu = record s.cpu { sp = u16 (s.cpu.sp + 2) } },
      )
  unfolding pop16
  pop16-ram s = rw (read16-ram s.cpu.sp s)

  -- A word is written low byte first; nothing else changes.
  pub peek-write16 :
      (a v b : ℕ) (s : Machine C)
      → v < 65536
      → peek (write16 bus a v s).1.ctx b
        ≡ (if u16 (a + 1) == b then v / 256 else if u16 a == b then v % 256 else peek s.ctx b)
  unfolding write16 write8
  peek-write16 a v b s h =
      let low : u8 (bit_and v 0xff) ≡ v % 256 = omega (arith, bit_and-mask 8 v) in
      let high : u8 (v >>> 8) ≡ v / 256 = omega arith in
      let c = bus.mem_write s.ctx (u16 a) (v % 256) in
      rw (low, high, u16-u16 (a + 1))
        (peek-mem_write c (u16 (a + 1)) (v / 256) b (omega arith)
          ∙ ap (λ x. if u16 (a + 1) == b then v / 256 else x)
              (peek-mem_write s.ctx (u16 a) (v % 256) b (omega arith)))

  pub cpu-write16 : (a v : ℕ) (s : Machine C) → (write16 bus a v s).1.cpu ≡ s.cpu
  unfolding write16 write8
  cpu-write16 a v s = refl

  pub cpu-push16 :
      (v : ℕ) (s : Machine C) → (push16 bus v s).1.cpu ≡ record s.cpu { sp = sub16 s.cpu.sp 2 }
  unfolding push16 write16 write8
  cpu-push16 v s = refl

  pub peek-push16 :
      (v b : ℕ) (s : Machine C)
      → v < 65536
      → s.cpu.sp < 65536
      → peek (push16 bus v s).1.ctx b ≡ (
          if sub16 s.cpu.sp 1 == b
          then v / 256
          else if sub16 s.cpu.sp 2 == b
          then v % 256
          else peek s.ctx b)
  unfolding push16
  peek-push16 v b s hv hs =
      let next : u16 (sub16 s.cpu.sp 2 + 1) ≡ sub16 s.cpu.sp 1 = omega arith in
      let here : u16 (sub16 s.cpu.sp 2) ≡ sub16 s.cpu.sp 2 = omega arith in
      peek-write16 (sub16 s.cpu.sp 2) v b _ hv ∙ rw (next, here)

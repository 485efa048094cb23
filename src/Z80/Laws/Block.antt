-- ===== src/Z80/Laws/Block.antt =====
-- LDIR on memory: move_repeat of the ED opcodes in src/z80.c, run to its end.
use model_lib.Base.{ℕ, zero, suc, ◌+◌, ◌%◌, ◌<◌, ◌≤◌, ◌≡◌, refl, ap, ap₂, ◌∙◌, arith}
use model_lib.Base.{false, ◌&&◌, u8, u16, sub16, nonzero, ◌==◌, if◌then◌else◌}
use model_lib.Base.{bit_and, not8, Bool-cases, inl, inr}
use model_lib.Z80.Cpu.{Cpu, hl, de, bc, inc16, dec16, refresh, flag_pv}
use model_lib.Z80.Bus.{Bus, Machine, write8}
use model_lib.Z80.Ram.{IsRam, read8-ram, u16-u16}
use model_lib.Z80.Ed.{ed_op}
use model_lib.Z80.Ed.Registers.{port_cases, word_cases, mode_cases}
use model_lib.Z80.Ed.Block.{block_cases, move, move_repeat, repeat_if, move_step}
use model_lib.Z80.Main.{main_op, z80_step_impl}
use model_lib.Z80.Laws.Dispatch.{
  accepts, cleared, fetched, fetched_second, z80_step_impl-ram, main_op-ed, pc_fetched,
}

-- Every register that LDIR counts in is a byte.
pub record CountsInBytes (s : Cpu) : Type 0 where
  pub h : s.h < 256
  pub l : s.l < 256
  pub d : s.d < 256
  pub e : s.e < 256
  pub b : s.b < 256
  pub c : s.c < 256

-- Bytes copied upwards, one at a time: a later byte may be read where an earlier one was written.
unfoldable pub copy : ℕ → ℕ → ℕ → (ℕ → ℕ) → ℕ → ℕ
copy zero src dst m = m
copy (suc n) src dst m = copy n (inc16 src) (inc16 dst) (λ b. if dst == b then m src else m b)

-- The registers after one round, up to the test of BC.
abbrev pub counted : Cpu → Cpu
counted s = let t = move_step inc16 s in record t { f = bit_and t.f (not8 flag_pv) }

abbrev pub moved : Cpu → Cpu
moved s =
    if nonzero (bc (counted s))
    then record (counted s) { pc = sub16 (counted s).pc 2 }
    else counted s

-- The registers when both opcode bytes have been fetched.
abbrev pub at_ldir : Cpu → Cpu
at_ldir s = fetched_second 0xed 0xb0 (fetched 0xed (cleared s))

-- What one round does to the registers that it counts in.
pub record Counted (s t : Cpu) : Type 0 where
  pub bytes : CountsInBytes t
  pub hl_up : hl t ≡ inc16 (hl s)
  pub de_up : de t ≡ inc16 (de s)
  pub bc_down : bc t ≡ dec16 (bc s)
  pub pc_end : t.pc ≡ (if nonzero (dec16 (bc s)) then s.pc else u16 (s.pc + 2))
  pub quiet : t.pending_irq && t.iff1 ≡ s.pending_irq && s.iff1
  pub running : t.halted ≡ s.halted

at_ldir-de : (s : Cpu) → CountsInBytes s → u16 (de (at_ldir s)) ≡ de s
unfolding refresh
at_ldir-de s v = omega arith

at_ldir-hl : (s : Cpu) → CountsInBytes s → u16 (hl (at_ldir s)) ≡ hl s
unfolding refresh
at_ldir-hl s v = omega arith

pub moved-Counted : (s : Cpu) → CountsInBytes s → s.pc < 65536 → Counted s (moved (at_ldir s))
unfolding move_step refresh
moved-Counted s v h = ground arith

module _ {C : Type 0} {bus : Bus C} (ram : IsRam bus) where
  open ram use {peek, peek-lt, peek-mem_write}

  move_repeat-ram :
      (s : Machine C)
      → (move_repeat bus inc16 s).1 ≡ record {
        cpu = moved s.cpu;
        ctx = bus.mem_write s.ctx (u16 (de s.cpu)) (u8 (peek s.ctx (u16 (hl s.cpu))));
      }
  unfolding move_repeat move repeat_if write8
  move_repeat-ram s =
      rw (read8-ram ram (hl s.cpu) s) (elim (Bool-cases (nonzero (bc (counted s.cpu)))) [
        | inl e ↦ rw (e, if◌then◌else◌)
        | inr e ↦ rw (e, if◌then◌else◌)
      ])

  ed_op-0xb0 : (s : Machine C) → ed_op bus 0xb0 s ≡ move_repeat bus inc16 s
  unfolding ed_op port_cases word_cases mode_cases block_cases
  ed_op-0xb0 s = refl

  -- LDIR stands at PC, its operands are bytes, no interrupt is to be taken, and BC asks for `n`
  -- rounds (65536 if it is 0).
  pub record AtLdir (n : ℕ) (s : Machine C) : Type 0 where
    pub bytes : CountsInBytes s.cpu
    pub quiet : s.cpu.pending_irq && s.cpu.iff1 ≡ false
    pub running : s.cpu.halted ≡ false
    pub pc_lt : s.cpu.pc < 65536
    pub first : peek s.ctx s.cpu.pc ≡ 0xed
    pub second : peek s.ctx (u16 (s.cpu.pc + 1)) ≡ 0xb0
    pub rounds_pos : 0 < n
    pub rounds_le : n ≤ 65536
    pub count : bc s.cpu ≡ n % 65536

  not_accepted : (s : Cpu) → s.pending_irq && s.iff1 ≡ false → accepts s ≡ false
  not_accepted s h = ground arith

  reaches_move :
      {n : ℕ} (s : Machine C)
      → AtLdir n s
      → z80_step_impl bus s ≡ move_repeat bus inc16 (record s { cpu = at_ldir s.cpu })
  reaches_move s v =
      let here : u16 s.cpu.pc ≡ s.cpu.pc = omega (arith, v.pc_lt) in
      let first : peek s.ctx (u16 s.cpu.pc) ≡ 0xed = rw here v.first in
      let s1 : Machine C = record s { cpu = fetched 0xed (cleared s.cpu) } in
      let second : peek s.ctx (u16 s1.cpu.pc) ≡ 0xb0 =
        rw (pc_fetched 0xed (cleared s.cpu), u16-u16 (s.cpu.pc + 1)) v.second in
      z80_step_impl-ram ram s (not_accepted s.cpu v.quiet) v.running
      ∙ ap (λ op. main_op bus op (record s { cpu = fetched op (cleared s.cpu) })) first
      ∙ main_op-ed ram s1
      ∙ ap (λ op. ed_op bus op (record s { cpu = fetched_second 0xed op s1.cpu })) second
      ∙ ed_op-0xb0 _

  pub one_round :
      {n : ℕ} (s : Machine C)
      → AtLdir n s
      → (z80_step_impl bus s).1 ≡ record {
        cpu = moved (at_ldir s.cpu);
        ctx = bus.mem_write s.ctx (de s.cpu) (peek s.ctx (hl s.cpu));
      }
  one_round s v =
      let to : u16 (de (at_ldir s.cpu)) ≡ de s.cpu = at_ldir-de s.cpu v.bytes in
      let from : u16 (hl (at_ldir s.cpu)) ≡ hl s.cpu = at_ldir-hl s.cpu v.bytes in
      let byte : u8 (peek s.ctx (u16 (hl (at_ldir s.cpu)))) ≡ peek s.ctx (hl s.cpu) =
        rw from (omega (arith, peek-lt s.ctx (hl s.cpu))) in
      ap (λ t. t.1) (reaches_move s v)
      ∙ move_repeat-ram (record s { cpu = at_ldir s.cpu })
      ∙ ap₂ (λ d x. record { cpu = moved (at_ldir s.cpu); ctx = bus.mem_write s.ctx d x }) to byte

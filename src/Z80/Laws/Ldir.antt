-- ===== src/Z80/Laws/Ldir.antt =====
-- A whole LDIR is a copy: the rounds of Block.antt put together.
use model_lib.Base.{ℕ, zero, suc, ◌+◌, ◌<◌, ◌≡◌, ◌≢◌, ap, ◌∙◌, sym, arith}
use model_lib.Base.{u16, nonzero, ◌==◌, if◌then◌else◌}
use mathlib.Core.Path.{fun_ext}
use model_lib.Z80.Cpu.{Cpu, hl, de, bc, dec16}
use model_lib.Z80.Bus.{Bus, Machine}
use model_lib.Z80.Ram.{IsRam}
use model_lib.Z80.Main.{z80_step_impl}
use model_lib.Z80.Laws.Block.{CountsInBytes, Counted, AtLdir, copy, moved-Counted, one_round}

to_lt : (s : Cpu) → CountsInBytes s → u16 (de s + 0) ≡ de s
to_lt s v = omega arith

-- While BC is not 0, PC stays on the instruction.
stays :
    (s t : Cpu) (n : ℕ)
    → t.pc ≡ (if nonzero (dec16 (bc s)) then s.pc else u16 (s.pc + 2))
    → dec16 (bc s) ≡ suc n
    → t.pc ≡ s.pc
stays s t n h e = rw e at h

leaves :
    (s t : Cpu)
    → t.pc ≡ (if nonzero (dec16 (bc s)) then s.pc else u16 (s.pc + 2))
    → dec16 (bc s) ≡ 0
    → t.pc ≡ u16 (s.pc + 2)
leaves s t h e = rw e at h

module _ {C : Type 0} {bus : Bus C} (ram : IsRam bus) where
  open ram use {peek, peek-lt, peek-mem_write}

  -- `n` instructions.
  pub steps : ℕ → Machine C → Machine C
  steps zero s = s
  steps (suc n) s = steps n (z80_step_impl bus s).1

  -- No byte of the destination is a byte of the instruction.
  abbrev pub LeavesCode : ℕ → Machine C → Type 0
  LeavesCode n s =
      (i : ℕ) → i < n → (u16 (de s.cpu + i) ≢ s.cpu.pc) × (u16 (de s.cpu + i) ≢ u16 (s.cpu.pc + 1))

  -- The machine after one round.
  record Round (s t : Machine C) : Type 0 where
    regs : Counted s.cpu t.cpu
    memory :
        (b : ℕ) → peek t.ctx b ≡ (if de s.cpu == b then peek s.ctx (hl s.cpu) else peek s.ctx b)

  round_lem : {n : ℕ} (s : Machine C) → AtLdir ram n s → Round s (z80_step_impl bus s).1
  round_lem s v = rw (one_round ram s v) (record {
    regs = moved-Counted s.cpu v.bytes v.pc_lt;
    memory = λ b. peek-mem_write s.ctx (de s.cpu) (peek s.ctx (hl s.cpu)) b (peek-lt _ _);
  })

  count_after :
      (n : ℕ) (s t : Machine C) → AtLdir ram (suc (suc n)) s → Round s t → bc t.cpu ≡ suc n
  count_after n s t v r = omega (arith, r.regs.bc_down, v.count, v.rounds_le)

  pc_after :
      (n : ℕ) (s t : Machine C) → AtLdir ram (suc (suc n)) s → Round s t → t.cpu.pc ≡ s.cpu.pc
  pc_after n s t v r =
      stays s.cpu t.cpu n r.regs.pc_end (sym r.regs.bc_down ∙ count_after n s t v r)

  -- After a round that is not the last, LDIR stands at PC again.
  next-AtLdir :
      (n : ℕ) (s t : Machine C)
      → AtLdir ram (suc (suc n)) s
      → LeavesCode (suc (suc n)) s
      → Round s t
      → AtLdir ram (suc n) t
  next-AtLdir n s t v clear r =
      let left : bc t.cpu ≡ suc n = count_after n s t v r in
      let same : t.cpu.pc ≡ s.cpu.pc = pc_after n s t v r in
      record {
        bytes = r.regs.bytes;
        quiet = r.regs.quiet ∙ v.quiet;
        running = r.regs.running ∙ v.running;
        pc_lt = rw same v.pc_lt;
        first = rw same (ground (arith, r.memory s.cpu.pc, v.first, clear 0, to_lt s.cpu v.bytes));
        second =
            rw same (
              ground
                (arith, r.memory (u16 (s.cpu.pc + 1)), v.second, clear 0, to_lt s.cpu v.bytes));
        rounds_pos = omega arith;
        rounds_le = omega (arith, v.rounds_le);
        count = omega (arith, left, v.rounds_le);
      }

  next-LeavesCode :
      (n : ℕ) (s t : Machine C)
      → AtLdir ram (suc (suc n)) s
      → LeavesCode (suc (suc n)) s
      → Round s t
      → LeavesCode (suc n) t
  next-LeavesCode n s t v clear r i h =
      let same : t.cpu.pc ≡ s.cpu.pc = pc_after n s t v r in
      let next : u16 (de t.cpu + i) ≡ u16 (de s.cpu + suc i) = omega (arith, r.regs.de_up) in
      rw (same, next) (clear (suc i) (omega arith))

  memory_path :
      (s t : Machine C)
      → Round s t
      → peek t.ctx ≡ (λ b. if de s.cpu == b then peek s.ctx (hl s.cpu) else peek s.ctx b)
  memory_path s t r = fun_ext r.memory

  -- What LDIR leaves after `n` rounds from `s`.
  pub record Copied (n : ℕ) (s t : Machine C) : Type 0 where
    pub memory : peek t.ctx ≡ copy n (hl s.cpu) (de s.cpu) (peek s.ctx)
    pub hl_end : hl t.cpu ≡ u16 (hl s.cpu + n)
    pub de_end : de t.cpu ≡ u16 (de s.cpu + n)
    pub bc_end : bc t.cpu ≡ 0
    pub pc_end : t.cpu.pc ≡ u16 (s.cpu.pc + 2)

  final-Copied : (s t : Machine C) → AtLdir ram 1 s → Round s t → Copied 1 s t
  unfolding copy
  final-Copied s t v r = record {
    memory = memory_path s t r;
    hl_end = r.regs.hl_up;
    de_end = r.regs.de_up;
    bc_end = omega (arith, r.regs.bc_down, v.count);
    pc_end = leaves s.cpu t.cpu r.regs.pc_end (omega (arith, v.count));
  }

  further-Copied :
      (n : ℕ) (s t w : Machine C)
      → t.cpu.pc ≡ s.cpu.pc
      → Round s t
      → Copied (suc n) t w
      → Copied (suc (suc n)) s w
  unfolding copy
  further-Copied n s t w same r rest = record {
    memory =
        rest.memory ∙ (λ i. copy (suc n) (r.regs.hl_up i) (r.regs.de_up i) (memory_path s t r i));
    hl_end = omega (arith, rest.hl_end, r.regs.hl_up);
    de_end = omega (arith, rest.de_end, r.regs.de_up);
    bc_end = rest.bc_end;
    pc_end = rest.pc_end ∙ ap (λ p. u16 (p + 2)) same;
  }

  -- LDIR with `n` rounds to go, whose destination does not meet its own two bytes, and with no
  -- interrupt to be taken: after `n` instructions the memory is that of a copy upwards of `n`
  -- bytes from HL to DE, HL and DE stand behind the blocks, BC is 0 and PC is past the
  -- instruction.
  pub ldir_copies :
      (n : ℕ) (s : Machine C) → AtLdir ram n s → LeavesCode n s → Copied n s (steps n s)
  unfolding steps
  ldir_copies zero s v clear = absurd (omega (arith, v.rounds_pos))
  ldir_copies (suc zero) s v clear = final-Copied s _ v (round_lem s v)
  ldir_copies (suc (suc n)) s v clear =
      let r = round_lem s v in
      let t = (z80_step_impl bus s).1 in
      further-Copied n s t (steps (suc n) t) (pc_after n s t v r) r
        (ldir_copies (suc n) t (next-AtLdir n s t v clear r) (next-LeavesCode n s t v clear r))

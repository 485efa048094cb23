-- ===== src/Z80/Main/Flow.antt =====
-- Unprefixed opcodes 0xC0 to 0xFF: stack, jumps, calls, exchanges, interrupt enable and ports,
-- cases of z80_step_impl in src/z80.c.
use model_lib.Base.{ℕ, bit_or, Bool, not, List, [], ◌∷◌}
use model_lib.Base.{true, false, if◌then◌else◌}
use model_lib.Base.{◌<<<◌}
use model_lib.Z80.Cpu.{Cpu, af, bc, de, hl, set_af, set_bc, set_de, set_hl, flag}
use model_lib.Z80.Cpu.{set_a, set_sp, set_pc}
use model_lib.Z80.Cpu.{flag_c, flag_pv, flag_z, flag_s}
use model_lib.Z80.Bus.{Bus, M, ◌>>=◌, ◌>>◌, ret, gets, modify, cost, fetch8}
use model_lib.Z80.Bus.{fetch16, read16, write16, push16, pop16, input, output, tick}
use model_lib.Z80.Regs.{cc}

abbrev reg_a : Cpu → ℕ
reg_a s = s.a

-- EXX
unfoldable pub exchange_all : Cpu → Cpu
exchange_all s = record (set_hl s.hl' (set_de s.de' (set_bc s.bc' s))) {
  bc' = bc s;
  de' = de s;
  hl' = hl s;
}

module _ {C : Type 0} (bus : Bus C) where
  unfoldable pub return_if : ℕ → M C ℕ
  return_if k = do
    t ← gets (cc k)
    if t then cost 11 (pop16 bus >>= (λ v. modify (set_pc v))) else ret 5

  unfoldable pub restart : ℕ → M C ℕ
  restart addr = do pc ← gets (λ s. s.pc); push16 bus pc; modify (set_pc addr); ret 11

  unfoldable pub stack_cases : List (List ℕ × M C ℕ)
  stack_cases =
      (0xc1 ∷ [], cost 10 (pop16 bus >>= (λ v. modify (set_bc v))))
      ∷ (0xd1 ∷ [], cost 10 (pop16 bus >>= (λ v. modify (set_de v))))
      ∷ (0xe1 ∷ [], cost 10 (pop16 bus >>= (λ v. modify (set_hl v))))
      ∷ (0xf1 ∷ [], cost 10 (pop16 bus >>= (λ v. modify (set_af v))))
      ∷ (0xc5 ∷ [], cost 11 (gets bc >>= (λ v. push16 bus v)))
      ∷ (0xd5 ∷ [], cost 11 (gets de >>= (λ v. push16 bus v)))
      ∷ (0xe5 ∷ [], cost 11 (gets hl >>= (λ v. push16 bus v)))
      ∷ (0xf5 ∷ [], cost 11 (gets af >>= (λ v. push16 bus v)))
      ∷ (0xc9 ∷ [], cost 10 (pop16 bus >>= (λ v. modify (set_pc v))))
      ∷ (0xc0 ∷ [], return_if 0)
      ∷ (0xc8 ∷ [], return_if 1)
      ∷ (0xd0 ∷ [], return_if 2)
      ∷ (0xd8 ∷ [], return_if 3)
      ∷ (0xe0 ∷ [], return_if 4)
      ∷ (0xe8 ∷ [], return_if 5)
      ∷ (0xf0 ∷ [], return_if 6)
      ∷ (0xf8 ∷ [], return_if 7)
      ∷ (0xc7 ∷ [], restart 0x00)
      ∷ (0xcf ∷ [], restart 0x08)
      ∷ (0xd7 ∷ [], restart 0x10)
      ∷ (0xdf ∷ [], restart 0x18)
      ∷ (0xe7 ∷ [], restart 0x20)
      ∷ (0xef ∷ [], restart 0x28)
      ∷ (0xf7 ∷ [], restart 0x30)
      ∷ (0xff ∷ [], restart 0x38)
      ∷ (0xd9 ∷ [], cost 4 (modify exchange_all))
      ∷ (0xeb ∷ [], cost 4 (modify (λ s. let t = de s in set_hl t (set_de (hl s) s))))
      ∷ (
        0xe3 ∷ [],
        cost 19 (do
          sp ← gets (λ s. s.sp)
          t ← read16 bus sp
          v ← gets hl
          write16 bus sp v
          modify (set_hl t)),
      )
      ∷ (0xf9 ∷ [], cost 6 (modify (λ s. set_sp (hl s) s)))
      ∷ []

  -- JP cc,nn
  unfoldable pub jump_if : (Cpu → Bool) → M C ℕ
  jump_if test = do
    addr ← fetch16 bus
    t ← gets test
    if t then cost 10 (modify (set_pc addr)) else ret 10

  unfoldable pub call_if : ℕ → M C ℕ
  call_if k = do
    addr ← fetch16 bus
    t ← gets (cc k)
    pc ← gets (λ s. s.pc)
    if t then cost 17 (push16 bus pc >> modify (set_pc addr)) else ret 10

  unfoldable pub flow_cases : List (List ℕ × M C ℕ)
  flow_cases =
      (0xc3 ∷ [], cost 10 (fetch16 bus >>= (λ addr. modify (set_pc addr))))
      ∷ (0xc2 ∷ [], jump_if (λ s. not (flag flag_z s)))
      ∷ (0xca ∷ [], jump_if (λ s. flag flag_z s))
      ∷ (0xd2 ∷ [], jump_if (λ s. not (flag flag_c s)))
      ∷ (0xda ∷ [], jump_if (λ s. flag flag_c s))
      ∷ (0xe2 ∷ [], jump_if (λ s. not (flag flag_pv s)))
      ∷ (0xea ∷ [], jump_if (λ s. flag flag_pv s))
      ∷ (0xf2 ∷ [], jump_if (λ s. not (flag flag_s s)))
      ∷ (0xfa ∷ [], jump_if (λ s. flag flag_s s))
      ∷ (0xe9 ∷ [], cost 4 (modify (λ s. set_pc (hl s) s)))
      ∷ (
        0xcd ∷ [],
        cost 17 (do addr ← fetch16 bus; pc ← gets (λ s. s.pc); push16 bus pc; modify (set_pc addr)),
      )
      ∷ (0xc4 ∷ [], call_if 0)
      ∷ (0xcc ∷ [], call_if 1)
      ∷ (0xd4 ∷ [], call_if 2)
      ∷ (0xdc ∷ [], call_if 3)
      ∷ (0xe4 ∷ [], call_if 4)
      ∷ (0xec ∷ [], call_if 5)
      ∷ (0xf4 ∷ [], call_if 6)
      ∷ (0xfc ∷ [], call_if 7)
      ∷ (0xf3 ∷ [], cost 4 (modify (λ s. record s { iff1 = false; iff2 = false })))
      ∷ (0xfb ∷ [], cost 4 (modify (λ s. record s { iff1 = true; iff2 = true; ei_delay = true })))
      ∷ (
        0xdb ∷ [],
        cost 11 (do
          n ← fetch8 bus
          tick bus 8
          a ← gets reg_a
          v ← input bus (bit_or (a <<< 8) n)
          modify (set_a v)),
      )
      ∷ (
        0xd3 ∷ [],
        cost 11 (do n ← fetch8 bus; tick bus 8; a ← gets reg_a; output bus (bit_or (a <<< 8) n) a),
      )
      ∷ []

-- ===== src/Z80/Main/Registers.antt =====
-- Unprefixed opcodes 0x40 to 0xBF, moves, HALT and arithmetic with a register, and the immediate
-- forms: cases of z80_step_impl in src/z80.c.
use model_lib.Base.{ℕ, bit_and, List, [], ◌∷◌}
use model_lib.Base.{true, false, ◌==◌, ◌||◌, if◌then◌else◌}
use model_lib.Base.{◌>>>◌}
use model_lib.Z80.Cpu.{Cpu, hl, flag}
use model_lib.Z80.Cpu.{flag_c}
use model_lib.Z80.Bus.{Bus, M, ◌>>=◌, ◌>>◌, ret, gets, modify, cost, fetch8}
use model_lib.Z80.Alu.{do_add, do_sub, do_and, do_xor, do_or, do_cp}
use model_lib.Z80.Regs.{get_r, set_r}

module _ {C : Type 0} (bus : Bus C) where
  -- `do_…(cpu, get_r(cpu,bus,op&7,cpu->hl)…); return (op&7)==6?7:4;`
  unfoldable pub alu_r : ℕ → (ℕ → Cpu → Cpu) → M C ℕ
  alu_r op operate = do
    addr ← gets hl
    v ← get_r bus (bit_and op 7) addr
    modify (operate v)
    ret (if bit_and op 7 == 6 then 7 else 4)

  unfoldable pub move_r : ℕ → M C ℕ
  move_r op =
      let dst = bit_and (op >>> 3) 7 in
      let src = bit_and op 7 in
      cost (if (src == 6) || (dst == 6) then 7 else 4)
        (do addr ← gets hl; v ← get_r bus src addr; at ← gets hl; set_r bus dst at v)

  unfoldable pub register_cases : ℕ → List (List ℕ × M C ℕ)
  register_cases op =
      (
        0x40 ∷ 0x41 ∷ 0x42 ∷ 0x43 ∷ 0x44 ∷ 0x45 ∷ 0x46 ∷ 0x47 ∷ 0x48 ∷ 0x49 ∷ 0x4a ∷ 0x4b ∷ 0x4c
            ∷ 0x4d ∷ 0x4e ∷ 0x4f ∷ 0x50 ∷ 0x51 ∷ 0x52 ∷ 0x53 ∷ 0x54 ∷ 0x55 ∷ 0x56 ∷ 0x57 ∷ 0x58
            ∷ 0x59 ∷ 0x5a ∷ 0x5b ∷ 0x5c ∷ 0x5d ∷ 0x5e ∷ 0x5f ∷ 0x60 ∷ 0x61 ∷ 0x62 ∷ 0x63 ∷ 0x64
            ∷ 0x65 ∷ 0x66 ∷ 0x67 ∷ 0x68 ∷ 0x69 ∷ 0x6a ∷ 0x6b ∷ 0x6c ∷ 0x6d ∷ 0x6e ∷ 0x6f ∷ 0x70
            ∷ 0x71 ∷ 0x72 ∷ 0x73 ∷ 0x74 ∷ 0x75 ∷ 0x77 ∷ 0x78 ∷ 0x79 ∷ 0x7a ∷ 0x7b ∷ 0x7c ∷ 0x7d
            ∷ 0x7e ∷ 0x7f ∷ [],
        move_r op,
      )
      ∷ (0x76 ∷ [], cost 4 (modify (λ s. record s { halted = true })))
      ∷ (
        0x80 ∷ 0x81 ∷ 0x82 ∷ 0x83 ∷ 0x84 ∷ 0x85 ∷ 0x86 ∷ 0x87 ∷ [],
        alu_r op (λ v s. do_add v false s),
      )
      ∷ (
        0x88 ∷ 0x89 ∷ 0x8a ∷ 0x8b ∷ 0x8c ∷ 0x8d ∷ 0x8e ∷ 0x8f ∷ [],
        alu_r op (λ v s. do_add v (flag flag_c s) s),
      )
      ∷ (
        0x90 ∷ 0x91 ∷ 0x92 ∷ 0x93 ∷ 0x94 ∷ 0x95 ∷ 0x96 ∷ 0x97 ∷ [],
        alu_r op (λ v s. do_sub v false s),
      )
      ∷ (
        0x98 ∷ 0x99 ∷ 0x9a ∷ 0x9b ∷ 0x9c ∷ 0x9d ∷ 0x9e ∷ 0x9f ∷ [],
        alu_r op (λ v s. do_sub v (flag flag_c s) s),
      )
      ∷ (0xa0 ∷ 0xa1 ∷ 0xa2 ∷ 0xa3 ∷ 0xa4 ∷ 0xa5 ∷ 0xa6 ∷ 0xa7 ∷ [], alu_r op (λ v s. do_and v s))
      ∷ (0xa8 ∷ 0xa9 ∷ 0xaa ∷ 0xab ∷ 0xac ∷ 0xad ∷ 0xae ∷ 0xaf ∷ [], alu_r op (λ v s. do_xor v s))
      ∷ (0xb0 ∷ 0xb1 ∷ 0xb2 ∷ 0xb3 ∷ 0xb4 ∷ 0xb5 ∷ 0xb6 ∷ 0xb7 ∷ [], alu_r op (λ v s. do_or v s))
      ∷ (0xb8 ∷ 0xb9 ∷ 0xba ∷ 0xbb ∷ 0xbc ∷ 0xbd ∷ 0xbe ∷ 0xbf ∷ [], alu_r op (λ v s. do_cp v s))
      ∷ (0xc6 ∷ [], cost 7 (fetch8 bus >>= (λ v. modify (λ s. do_add v false s))))
      ∷ (0xce ∷ [], cost 7 (fetch8 bus >>= (λ v. modify (λ s. do_add v (flag flag_c s) s))))
      ∷ (0xd6 ∷ [], cost 7 (fetch8 bus >>= (λ v. modify (λ s. do_sub v false s))))
      ∷ (0xde ∷ [], cost 7 (fetch8 bus >>= (λ v. modify (λ s. do_sub v (flag flag_c s) s))))
      ∷ (0xe6 ∷ [], cost 7 (fetch8 bus >>= (λ v. modify (λ s. do_and v s))))
      ∷ (0xee ∷ [], cost 7 (fetch8 bus >>= (λ v. modify (λ s. do_xor v s))))
      ∷ (0xf6 ∷ [], cost 7 (fetch8 bus >>= (λ v. modify (λ s. do_or v s))))
      ∷ (0xfe ∷ [], cost 7 (fetch8 bus >>= (λ v. modify (λ s. do_cp v s))))
      ∷ []

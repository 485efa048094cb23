-- ===== src/Z80/Xy/Halves.antt =====
-- Undocumented DD and FD opcodes on the halves of IX or IY: cases of exec_xy in src/z80.c.
use model_lib.Base.{ℕ, bit_and, bit_or, List, [], ◌∷◌}
use model_lib.Base.{false, ◌==◌, if◌then◌else◌, u8, u16, ◌<<<◌, ◌>>>◌}
use model_lib.Z80.Cpu.{Cpu, hl, flag, flag_c}
use model_lib.Z80.Bus.{Bus, M, ◌>>=◌, gets, modify, apply, cost, fetch8}
use model_lib.Z80.Alu.{do_add, do_sub, do_and, do_xor, do_or, do_cp, do_inc, do_dec}
use model_lib.Z80.Regs.{get_r, set_r}
use model_lib.Z80.Xy.Memory.{Index}

abbrev pub high : Index → Cpu → ℕ
high xy s = u8 (xy.get s >>> 8)

abbrev pub low : Index → Cpu → ℕ
low xy s = u8 (bit_and (xy.get s) 0xff)

unfoldable pub set_high : Index → ℕ → Cpu → Cpu
set_high xy v s = xy.put (u16 (bit_or (bit_and (xy.get s) 0x00ff) (u16 v <<< 8))) s

unfoldable pub set_low : Index → ℕ → Cpu → Cpu
set_low xy v s = xy.put (u16 (bit_or (bit_and (xy.get s) 0xff00) v)) s

module _ {C : Type 0} (bus : Bus C) (xy : Index) where
  -- GETRXY and SETRXY: registers 4 and 5 are the halves.
  unfoldable pub get_rxy : ℕ → M C ℕ
  get_rxy r =
      if r == 4
      then gets (high xy)
      else if r == 5
      then gets (low xy)
      else (gets hl >>= (λ addr. get_r bus r addr))

  unfoldable pub set_rxy : ℕ → ℕ → M C (Unit {0})
  set_rxy r v =
      if r == 4
      then modify (set_high xy v)
      else if r == 5
      then modify (set_low xy v)
      else (gets hl >>= (λ addr. set_r bus r addr v))

  unfoldable pub xy_half_cases : ℕ → List (List ℕ × M C ℕ)
  xy_half_cases op =
      (0x24 ∷ [], cost 8 (do h ← gets (high xy); v ← apply (do_inc h); modify (set_high xy v)))
      ∷ (0x25 ∷ [], cost 8 (do h ← gets (high xy); v ← apply (do_dec h); modify (set_high xy v)))
      ∷ (0x26 ∷ [], cost 11 (fetch8 bus >>= (λ v. modify (set_high xy v))))
      ∷ (0x2c ∷ [], cost 8 (do l ← gets (low xy); v ← apply (do_inc l); modify (set_low xy v)))
      ∷ (0x2d ∷ [], cost 8 (do l ← gets (low xy); v ← apply (do_dec l); modify (set_low xy v)))
      ∷ (0x2e ∷ [], cost 11 (fetch8 bus >>= (λ v. modify (set_low xy v))))
      ∷ (
        0x40 ∷ 0x41 ∷ 0x42 ∷ 0x43 ∷ 0x44 ∷ 0x45 ∷ 0x47 ∷ 0x48 ∷ 0x49 ∷ 0x4a ∷ 0x4b ∷ 0x4c ∷ 0x4d
            ∷ 0x4f ∷ 0x50 ∷ 0x51 ∷ 0x52 ∷ 0x53 ∷ 0x54 ∷ 0x55 ∷ 0x57 ∷ 0x58 ∷ 0x59 ∷ 0x5a ∷ 0x5b
            ∷ 0x5c ∷ 0x5d ∷ 0x5f ∷ 0x60 ∷ 0x61 ∷ 0x62 ∷ 0x63 ∷ 0x64 ∷ 0x65 ∷ 0x67 ∷ 0x68 ∷ 0x69
            ∷ 0x6a ∷ 0x6b ∷ 0x6c ∷ 0x6d ∷ 0x6f ∷ 0x78 ∷ 0x79 ∷ 0x7a ∷ 0x7b ∷ 0x7c ∷ 0x7d ∷ 0x7f
            ∷ [],
        cost 8 (do v ← get_rxy (bit_and op 7); set_rxy (bit_and (op >>> 3) 7) v),
      )
      ∷ []

  unfoldable pub xy_alu_cases : List (List ℕ × M C ℕ)
  xy_alu_cases =
      (0x84 ∷ [], cost 8 (modify (λ s. do_add (high xy s) false s)))
      ∷ (0x85 ∷ [], cost 8 (modify (λ s. do_add (low xy s) false s)))
      ∷ (0x8c ∷ [], cost 8 (modify (λ s. do_add (high xy s) (flag flag_c s) s)))
      ∷ (0x8d ∷ [], cost 8 (modify (λ s. do_add (low xy s) (flag flag_c s) s)))
      ∷ (0x94 ∷ [], cost 8 (modify (λ s. do_sub (high xy s) false s)))
      ∷ (0x95 ∷ [], cost 8 (modify (λ s. do_sub (low xy s) false s)))
      ∷ (0x9c ∷ [], cost 8 (modify (λ s. do_sub (high xy s) (flag flag_c s) s)))
      ∷ (0x9d ∷ [], cost 8 (modify (λ s. do_sub (low xy s) (flag flag_c s) s)))
      ∷ (0xa4 ∷ [], cost 8 (modify (λ s. do_and (high xy s) s)))
      ∷ (0xa5 ∷ [], cost 8 (modify (λ s. do_and (low xy s) s)))
      ∷ (0xac ∷ [], cost 8 (modify (λ s. do_xor (high xy s) s)))
      ∷ (0xad ∷ [], cost 8 (modify (λ s. do_xor (low xy s) s)))
      ∷ (0xb4 ∷ [], cost 8 (modify (λ s. do_or (high xy s) s)))
      ∷ (0xb5 ∷ [], cost 8 (modify (λ s. do_or (low xy s) s)))
      ∷ (0xbc ∷ [], cost 8 (modify (λ s. do_cp (high xy s) s)))
      ∷ (0xbd ∷ [], cost 8 (modify (λ s. do_cp (low xy s) s)))
      ∷ []

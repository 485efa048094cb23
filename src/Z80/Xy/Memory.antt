-- ===== src/Z80/Xy/Memory.antt =====
-- DD and FD opcodes that work on IX or IY as a word, or through (IX+d): cases of exec_xy in
-- src/z80.c.
use model_lib.Base.{ℕ, ◌+◌, bit_and, bit_or, bit_xor, not, List, [], ◌∷◌}
use model_lib.Base.{true, false, ltb, if◌then◌else◌, nonzero, u16, not8, add_s8, ◌<<<◌, ◌>>>◌}
use model_lib.Z80.Cpu.{Cpu, bc, de, hl, inc16, dec16, set_pc, set_sp, flag}
use model_lib.Z80.Cpu.{flag_c, flag_pv, flag_h, flag_z, flag_s}
use model_lib.Z80.Bus.{Bus, M, ◌>>=◌, ◌>>◌, ret, gets, modify, apply, cost, read8, write8, fetch8}
use model_lib.Z80.Bus.{fetch16, read16, write16, push16, pop16}
use model_lib.Z80.Alu.{◌∣◌, on, do_add, do_sub, do_and, do_xor, do_or, do_cp, do_inc, do_dec}
use model_lib.Z80.Regs.{get_r, set_r}
use model_lib.Z80.ExecCb.{rotate}

-- The pointer `xy`, which is `&cpu->ix` or `&cpu->iy`.
pub record Index : Type 0 where
  pub get : Cpu → ℕ
  pub put : ℕ → Cpu → Cpu

abbrev pub ix_reg : Index
ix_reg = record { get = λ s. s.ix; put = λ v s. record s { ix = v } }

abbrev pub iy_reg : Index
iy_reg = record { get = λ s. s.iy; put = λ v s. record s { iy = v } }

-- ADD IX,rr with the half carry.
unfoldable pub add_xy : Index → ℕ → Cpu → Cpu
add_xy xy val s =
    let r = xy.get s + val in
    xy.put (u16 r) (record s {
      f =
          bit_and s.f (flag_s ∣ flag_z ∣ flag_pv)
          ∣ on (ltb 0xffff r) flag_c
          ∣ on (nonzero (bit_and (bit_xor (bit_xor (xy.get s) val) (u16 r)) 0x1000)) flag_h;
    })

-- ADD IX,IX, which the program writes without a half carry.
unfoldable pub double_xy : Index → Cpu → Cpu
double_xy xy s =
    let r = xy.get s + xy.get s in
    xy.put (u16 r)
      (record s { f = bit_and s.f (flag_s ∣ flag_z ∣ flag_pv) ∣ on (ltb 0xffff r) flag_c })

-- The flags of BIT b,(IX+d).
unfoldable pub test_bit_xy : ℕ → ℕ → Cpu → Cpu
test_bit_xy b v s = record s {
  f = bit_and s.f flag_c ∣ flag_h ∣ on (not (nonzero (bit_and v (1 <<< b)))) (flag_z ∣ flag_pv);
}

module _ {C : Type 0} (bus : Bus C) (xy : Index) where
  -- `(u16)(*xy + d)` for a displacement fetched from the program.
  unfoldable pub displaced : M C ℕ
  displaced = do d ← fetch8 bus; base ← gets xy.get; ret (add_s8 base d)

  unfoldable pub alu_xy : (ℕ → Cpu → Cpu) → M C ℕ
  alu_xy operate = do addr ← displaced; v ← read8 bus addr; modify (operate v); ret 19

  -- The operation of the DD CB d op form on the byte `v` at `addr`.
  unfoldable pub xycb_op : ℕ → ℕ → ℕ → M C (Unit {0})
  xycb_op cb addr v =
      let b = bit_and (cb >>> 3) 7 in
      if ltb cb 0x40
      then (apply (rotate b v) >>= (λ w. write8 bus addr w))
      else if ltb cb 0x80
      then modify (test_bit_xy b v)
      else if ltb cb 0xc0
      then write8 bus addr (bit_and v (not8 (1 <<< b)))
      else write8 bus addr (bit_or v (1 <<< b))

  -- The displacement stands before the opcode.
  unfoldable pub exec_xycb : M C ℕ
  exec_xycb = do
    d ← fetch8 bus
    cb ← fetch8 bus
    modify (λ s. record s { last_op = cb; last_xycb = true })
    base ← gets xy.get
    let addr = add_s8 base d
    v ← read8 bus addr
    xycb_op cb addr v
    ret 23

  unfoldable pub xy_word_cases : List (List ℕ × M C ℕ)
  xy_word_cases =
      (0x09 ∷ [], cost 15 (modify (λ s. add_xy xy (bc s) s)))
      ∷ (0x19 ∷ [], cost 15 (modify (λ s. add_xy xy (de s) s)))
      ∷ (0x29 ∷ [], cost 15 (modify (double_xy xy)))
      ∷ (0x39 ∷ [], cost 15 (modify (λ s. add_xy xy s.sp s)))
      ∷ (0x21 ∷ [], cost 14 (fetch16 bus >>= (λ v. modify (xy.put v))))
      ∷ (0x22 ∷ [], cost 20 (do addr ← fetch16 bus; v ← gets xy.get; write16 bus addr v))
      ∷ (0x2a ∷ [], cost 20 (do addr ← fetch16 bus; v ← read16 bus addr; modify (xy.put v)))
      ∷ (0x23 ∷ [], cost 10 (modify (λ s. xy.put (inc16 (xy.get s)) s)))
      ∷ (0x2b ∷ [], cost 10 (modify (λ s. xy.put (dec16 (xy.get s)) s)))
      ∷ (0xe1 ∷ [], cost 14 (pop16 bus >>= (λ v. modify (xy.put v))))
      ∷ (0xe5 ∷ [], cost 15 (gets xy.get >>= (λ v. push16 bus v)))
      ∷ (0xe9 ∷ [], cost 8 (modify (λ s. set_pc (xy.get s) s)))
      ∷ (0xf9 ∷ [], cost 10 (modify (λ s. set_sp (xy.get s) s)))
      ∷ (
        0xe3 ∷ [],
        cost 23 (do
          sp ← gets (λ s. s.sp)
          t ← read16 bus sp
          v ← gets xy.get
          write16 bus sp v
          modify (xy.put t)),
      )
      ∷ []

  unfoldable pub xy_memory_cases : ℕ → List (List ℕ × M C ℕ)
  xy_memory_cases op =
      (
        0x34 ∷ [],
        cost 23 (do addr ← displaced; v ← read8 bus addr; w ← apply (do_inc v); write8 bus addr w),
      )
      ∷ (
        0x35 ∷ [],
        cost 23 (do addr ← displaced; v ← read8 bus addr; w ← apply (do_dec v); write8 bus addr w),
      )
      ∷ (0x36 ∷ [], cost 19 (do addr ← displaced; n ← fetch8 bus; write8 bus addr n))
      ∷ (
        0x46 ∷ 0x4e ∷ 0x56 ∷ 0x5e ∷ 0x66 ∷ 0x6e ∷ 0x7e ∷ [],
        cost 19 (do
          addr ← displaced
          v ← read8 bus addr
          at ← gets hl
          set_r bus (bit_and (op >>> 3) 7) at v),
      )
      ∷ (
        0x70 ∷ 0x71 ∷ 0x72 ∷ 0x73 ∷ 0x74 ∷ 0x75 ∷ 0x77 ∷ [],
        cost 19
            (do addr ← displaced; at ← gets hl; v ← get_r bus (bit_and op 7) at; write8 bus addr v),
      )
      ∷ (0x86 ∷ [], alu_xy (λ v. do_add v false))
      ∷ (0x8e ∷ [], alu_xy (λ v s. do_add v (flag flag_c s) s))
      ∷ (0x96 ∷ [], alu_xy (λ v. do_sub v false))
      ∷ (0x9e ∷ [], alu_xy (λ v s. do_sub v (flag flag_c s) s))
      ∷ (0xa6 ∷ [], alu_xy do_and)
      ∷ (0xae ∷ [], alu_xy do_xor)
      ∷ (0xb6 ∷ [], alu_xy do_or)
      ∷ (0xbe ∷ [], alu_xy do_cp)
      ∷ (0xcb ∷ [], exec_xycb)
      ∷ []

-- ===== src/Z80/ExecCb.antt =====
-- The CB prefix: rotates and shifts, BIT, RES and SET, `exec_cb` of src/z80.c.
use model_lib.Base.{ℕ, bit_and, bit_or, not, [], ◌∷◌, switch, ◌&&◌}
use model_lib.Base.{ltb, ◌==◌, if◌then◌else◌, nonzero, u8, not8, ◌<<<◌, ◌>>>◌}
use model_lib.Z80.Cpu.{Cpu, hl, refresh, flag_c, flag_pv, flag_h, flag_z, flag_s}
use model_lib.Z80.Bus.{Bus, M, ◌>>=◌, ◌>>◌, gets, modify, apply, cost, fetch8}
use model_lib.Z80.Alu.{◌∣◌, on, do_rlc, do_rrc, do_rl, do_rr, do_sla, do_sra, do_sll, do_srl}
use model_lib.Z80.Regs.{get_r, set_r}

-- The inner `switch (b)`, which exec_xy repeats.
unfoldable pub rotate : ℕ → ℕ → Cpu → ℕ × Cpu
unfolding do_rlc do_rrc do_rl do_rr do_sla do_sra do_sll do_srl
rotate b v s =
    switch b
      ((0 ∷ [], do_rlc v s)
        ∷ (1 ∷ [], do_rrc v s)
        ∷ (2 ∷ [], do_rl v s)
        ∷ (3 ∷ [], do_rr v s)
        ∷ (4 ∷ [], do_sla v s)
        ∷ (5 ∷ [], do_sra v s)
        ∷ (6 ∷ [], do_sll v s)
        ∷ (7 ∷ [], do_srl v s)
        ∷ [])
      (v, s)

-- The flags of BIT b,v.
unfoldable pub test_bit : ℕ → ℕ → Cpu → Cpu
test_bit b v s =
    let mask = u8 (1 <<< b) in
    record s {
      f =
          bit_and s.f flag_c
          ∣ flag_h
          ∣ on (not (nonzero (bit_and v mask))) (flag_z ∣ flag_pv)
          ∣ on ((b == 7) && nonzero (bit_and v mask)) flag_s;
    }

module _ {C : Type 0} (bus : Bus C) where
  -- The instruction with opcode `op`, whose operand `v` has been read.
  unfoldable pub cb_op : ℕ → ℕ → M C ℕ
  cb_op op v =
      let ri = bit_and op 7 in
      let b = bit_and (op >>> 3) 7 in
      let cyc = if ri == 6 then 15 else 8 in
      let store = λ (w : ℕ). gets hl >>= (λ addr. cost cyc (set_r bus ri addr w)) in
      if ltb op 0x40
      then (apply (rotate b v) >>= store)
      else if ltb op 0x80
      then cost (if ri == 6 then 12 else 8) (modify (test_bit b v))
      else if ltb op 0xc0
      then store (bit_and v (not8 (u8 (1 <<< b))))
      else store (bit_or v (u8 (1 <<< b)))

  unfoldable pub exec_cb : M C ℕ
  exec_cb = do
    op ← fetch8 bus
    modify (λ s. record s { last_op = op })
    modify refresh
    addr ← gets hl
    v ← get_r bus (bit_and op 7) addr
    cb_op op v

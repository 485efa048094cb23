-- ===== src/Z80/Ed/Block.antt =====
-- The block instructions of exec_ed in src/z80.c, opcodes 0xA0 to 0xBB. `next` is the step of HL
-- (and DE), up or down. A repeating one rolls PC back over its two opcode bytes.
use model_lib.Base.{ℕ, bit_and, bit_xor, Bool, List, [], ◌∷◌}
use model_lib.Base.{if◌then◌else◌, nonzero, sub8, sub16, not8, ◌&&◌}
use model_lib.Z80.Cpu.{Cpu, bc, de, hl, set_bc, set_de, set_hl, inc16, dec16}
use model_lib.Z80.Cpu.{flag_c, flag_n, flag_pv, flag_h, flag_z, flag_s}
use model_lib.Z80.Bus.{Bus, M, ◌>>=◌, ◌>>◌, ret, gets, modify, cost, read8, write8, input, output}
use model_lib.Z80.Bus.{tick}
use model_lib.Z80.Alu.{◌∣◌, on, sz}

-- HL and DE step, BC counts down.
unfoldable pub move_step : (ℕ → ℕ) → Cpu → Cpu
move_step next s =
    let s1 = set_hl (next (hl s)) s in
    let s2 = set_de (next (de s1)) s1 in set_bc (dec16 (bc s2)) s2

-- The flags of CPI and the like, for the byte `v`.
unfoldable pub compare_flags : ℕ → Cpu → Cpu
unfolding sz
compare_flags v s =
    let r = sub8 s.a v in
    record s {
      f =
          bit_and s.f flag_c
          ∣ flag_n
          ∣ sz r
          ∣ on (nonzero (bit_and (bit_xor (bit_xor s.a v) r) 0x10)) flag_h
          ∣ on (nonzero (bc s)) flag_pv;
    }

unfoldable pub count_b : Cpu → Cpu
count_b s = record s { b = sub8 s.b 1 }

-- `if (test) { cpu->pc -= 2; return n; } return m;`
unfoldable pub repeat_if : {C : Type 0} → Bool → ℕ → ℕ → M C ℕ
repeat_if test n m = if test then cost n (modify (λ s. record s { pc = sub16 s.pc 2 })) else ret m

module _ {C : Type 0} (bus : Bus C) where
  unfoldable pub move : (ℕ → ℕ) → M C (Unit {0})
  move next = do
    from ← gets hl
    v ← read8 bus from
    to ← gets de
    write8 bus to v
    modify (move_step next)

  unfoldable pub move_once : (ℕ → ℕ) → M C ℕ
  move_once next = do
    move next
    modify
        (λ s. record s { f = bit_and s.f (flag_s ∣ flag_z ∣ flag_c) ∣ on (nonzero (bc s)) flag_pv })
    ret 16

  unfoldable pub move_repeat : (ℕ → ℕ) → M C ℕ
  move_repeat next = do
    move next
    modify (λ s. record s { f = bit_and s.f (not8 flag_pv) })
    left ← gets bc
    repeat_if (nonzero left) 21 16

  -- One comparison; the value is the difference.
  unfoldable pub compare_step : (ℕ → ℕ) → M C ℕ
  compare_step next = do
    addr ← gets hl
    modify (λ s. set_hl (next (hl s)) s)
    v ← read8 bus addr
    a ← gets (λ s. s.a)
    modify (λ s. set_bc (dec16 (bc s)) s)
    modify (compare_flags v)
    ret (sub8 a v)

  unfoldable pub compare_repeat : (ℕ → ℕ) → M C ℕ
  compare_repeat next = do
    r ← compare_step next
    left ← gets bc
    repeat_if (nonzero left && nonzero r) 21 16

  -- Port to memory.
  unfoldable pub in_step : (ℕ → ℕ) → M C (Unit {0})
  in_step next = do
    tick bus 20
    port ← gets bc
    v ← input bus port
    addr ← gets hl
    modify (λ s. set_hl (next (hl s)) s)
    write8 bus addr v
    modify count_b

  -- Memory to port: B is counted before the port address is formed.
  unfoldable pub out_step : (ℕ → ℕ) → M C (Unit {0})
  out_step next = do
    addr ← gets hl
    modify (λ s. set_hl (next (hl s)) s)
    v ← read8 bus addr
    modify count_b
    tick bus 16
    port ← gets bc
    output bus port v

  unfoldable pub io_once : M C (Unit {0}) → M C ℕ
  io_once step = do step; modify (λ s. record s { f = sz s.b ∣ flag_n }); ret 20

  unfoldable pub io_repeat : M C (Unit {0}) → ℕ → M C ℕ
  io_repeat step n = do
    step
    modify (λ s. record s { f = flag_z ∣ flag_n })
    left ← gets (λ s. s.b)
    repeat_if (nonzero left) n 20

  unfoldable pub block_cases : List (List ℕ × M C ℕ)
  block_cases =
      (0xa0 ∷ [], move_once inc16)
      ∷ (0xa8 ∷ [], move_once dec16)
      ∷ (0xb0 ∷ [], move_repeat inc16)
      ∷ (0xb8 ∷ [], move_repeat dec16)
      ∷ (0xa1 ∷ [], cost 16 (compare_step inc16))
      ∷ (0xa9 ∷ [], cost 16 (compare_step dec16))
      ∷ (0xb1 ∷ [], compare_repeat inc16)
      ∷ (0xb9 ∷ [], compare_repeat dec16)
      ∷ (0xa2 ∷ [], io_once (in_step inc16))
      ∷ (0xaa ∷ [], io_once (in_step dec16))
      ∷ (0xb2 ∷ [], io_repeat (in_step inc16) 24)
      ∷ (0xba ∷ [], io_repeat (in_step dec16) 24)
      ∷ (0xa3 ∷ [], io_once (out_step inc16))
      ∷ (0xab ∷ [], io_once (out_step dec16))
      ∷ (0xb3 ∷ [], io_repeat (out_step inc16) 25)
      ∷ (0xbb ∷ [], io_repeat (out_step dec16) 25)
      ∷ []

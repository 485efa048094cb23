-- ===== src/Z80/Ed/Registers.antt =====
-- ED opcodes 0x40 to 0x7F: port access, 16-bit arithmetic, interrupt modes and the registers I and
-- R. Each list holds cases of the `switch` of exec_ed in src/z80.c.
use model_lib.Base.{ℕ, ◌+◌, ◌-◌, bit_and, bit_or, bit_xor, not, List, [], ◌∷◌}
use model_lib.Base.{ltb, ◌==◌, if◌then◌else◌, nonzero, from_bool, u16, u32, not16, ◌<<<◌, ◌>>>◌}
use model_lib.Base.{false}
use model_lib.Z80.Cpu.{Cpu, bc, hl, set_hl, set_a, set_pc, flag}
use model_lib.Z80.Cpu.{flag_c, flag_n, flag_pv, flag_h, flag_z, flag_s}
use model_lib.Z80.Bus.{Bus, M, ◌>>=◌, ◌>>◌, ret, gets, modify, cost, when, read8, write8, input}
use model_lib.Z80.Bus.{output, tick, fetch16, read16, write16, pop16}
use model_lib.Z80.Alu.{◌∣◌, on, sz, par, do_sub}
use model_lib.Z80.Regs.{get_r, set_r, get_rr, set_rr}

-- SBC HL,rr: the difference is a `u32`, so a borrow leaves it above 0xffff.
unfoldable pub sbc_hl : ℕ → Cpu → Cpu
sbc_hl val s =
    let r = u32 (hl s + 4294967296 - val - from_bool (flag flag_c s)) in
    let s' = record s {
      f =
          flag_n
          ∣ on (ltb 0xffff r) flag_c
          ∣ on (not (nonzero (u16 r))) flag_z
          ∣ on (nonzero (bit_and (u16 r) 0x8000)) flag_s
          ∣ on (nonzero (bit_and (bit_xor (bit_xor (hl s) val) (u16 r)) 0x1000)) flag_h
          ∣ on
              (nonzero (bit_and (bit_and (bit_xor (hl s) val) (bit_xor (hl s) (u16 r)) >>> 8) 0x80))
              flag_pv;
    } in
    set_hl (u16 r) s'

-- ADC HL,rr
unfoldable pub adc_hl : ℕ → Cpu → Cpu
adc_hl val s =
    let r = u32 (hl s + val + from_bool (flag flag_c s)) in
    let s' = record s {
      f =
          on (ltb 0xffff r) flag_c
          ∣ on (not (nonzero (u16 r))) flag_z
          ∣ on (nonzero (bit_and (u16 r) 0x8000)) flag_s
          ∣ on (nonzero (bit_and (bit_xor (bit_xor (hl s) val) (u16 r)) 0x1000)) flag_h
          ∣ on
              (nonzero
                (bit_and (bit_and (not16 (bit_xor (hl s) val)) (bit_xor val (u16 r))) 0x8000))
              flag_pv;
    } in
    set_hl (u16 r) s'

-- NEG
unfoldable pub negate : Cpu → Cpu
unfolding do_sub
negate s = do_sub s.a false (set_a 0 s)

-- LD A,I and LD A,R
unfoldable pub load_special : ℕ → Cpu → Cpu
unfolding sz
load_special v s = record s { a = v; f = bit_and s.f flag_c ∣ sz v ∣ on s.iff2 flag_pv }

-- The flags of IN r,(C), RRD and RLD.
unfoldable pub keep_carry : ℕ → Cpu → Cpu
unfolding sz par
keep_carry v s = record s { f = bit_and s.f flag_c ∣ sz v ∣ par v }

module _ {C : Type 0} (bus : Bus C) where
  unfoldable pub port_cases : ℕ → List (List ℕ × M C ℕ)
  port_cases op =
      let ri = bit_and (op >>> 3) 7 in
      (
        0x40 ∷ 0x48 ∷ 0x50 ∷ 0x58 ∷ 0x60 ∷ 0x68 ∷ 0x70 ∷ 0x78 ∷ [],
        cost 16 (do
          tick bus 16
          port ← gets bc
          v ← input bus port
          addr ← gets hl
          when (not (ri == 6)) (set_r bus ri addr v)
          modify (keep_carry v)),
      )
      ∷ (
        0x41 ∷ 0x49 ∷ 0x51 ∷ 0x59 ∷ 0x61 ∷ 0x69 ∷ 0x71 ∷ 0x79 ∷ [],
        cost 16 (do
          addr ← gets hl
          v ← (if ri == 6 then ret 0 else get_r bus ri addr)
          tick bus 12
          port ← gets bc
          output bus port v),
      )
      ∷ []

  unfoldable pub word_cases : ℕ → List (List ℕ × M C ℕ)
  word_cases op =
      let rr = bit_and (op >>> 4) 3 in
      (0x42 ∷ 0x52 ∷ 0x62 ∷ 0x72 ∷ [], cost 15 (modify (λ s. sbc_hl (get_rr rr s) s)))
      ∷ (0x4a ∷ 0x5a ∷ 0x6a ∷ 0x7a ∷ [], cost 15 (modify (λ s. adc_hl (get_rr rr s) s)))
      ∷ (
        0x43 ∷ 0x53 ∷ 0x63 ∷ 0x73 ∷ [],
        cost 20 (do addr ← fetch16 bus; v ← gets (get_rr rr); write16 bus addr v),
      )
      ∷ (
        0x4b ∷ 0x5b ∷ 0x6b ∷ 0x7b ∷ [],
        cost 20 (do addr ← fetch16 bus; v ← read16 bus addr; modify (set_rr rr v)),
      )
      ∷ (0x44 ∷ 0x4c ∷ 0x54 ∷ 0x5c ∷ 0x64 ∷ 0x6c ∷ 0x74 ∷ 0x7c ∷ [], cost 8 (modify negate))
      -- RETN, then RETI, which also restores IFF1
      ∷ (
        0x45 ∷ 0x55 ∷ 0x65 ∷ 0x75 ∷ [],
        cost 14 (do modify (λ s. record s { iff1 = s.iff2 }); pc ← pop16 bus; modify (set_pc pc)),
      )
      ∷ (
        0x4d ∷ [],
        cost 14 (do modify (λ s. record s { iff1 = s.iff2 }); pc ← pop16 bus; modify (set_pc pc)),
      )
      ∷ []

  unfoldable pub mode_cases : List (List ℕ × M C ℕ)
  mode_cases =
      (0x46 ∷ 0x4e ∷ 0x66 ∷ 0x6e ∷ [], cost 8 (modify (λ s. record s { im = 0 })))
      ∷ (0x56 ∷ 0x76 ∷ [], cost 8 (modify (λ s. record s { im = 1 })))
      ∷ (0x5e ∷ 0x7e ∷ [], cost 8 (modify (λ s. record s { im = 2 })))
      ∷ (0x47 ∷ [], cost 9 (modify (λ s. record s { i = s.a })))
      ∷ (0x4f ∷ [], cost 9 (modify (λ s. record s { r = s.a })))
      ∷ (0x57 ∷ [], cost 9 (modify (λ s. load_special s.i s)))
      ∷ (0x5f ∷ [], cost 9 (modify (λ s. load_special s.r s)))
      -- RRD
      ∷ (
        0x67 ∷ [],
        cost 18 (do
          addr ← gets hl
          m ← read8 bus addr
          a ← gets (λ s. s.a)
          write8 bus addr (bit_or (m >>> 4) (a <<< 4))
          let a' = bit_or (bit_and a 0xf0) (bit_and m 0x0f)
          modify (λ s. keep_carry a' (set_a a' s))),
      )
      -- RLD
      ∷ (
        0x6f ∷ [],
        cost 18 (do
          addr ← gets hl
          m ← read8 bus addr
          a ← gets (λ s. s.a)
          write8 bus addr (bit_or (m <<< 4) (bit_and a 0x0f))
          let a' = bit_or (bit_and a 0xf0) (m >>> 4)
          modify (λ s. keep_carry a' (set_a a' s))),
      )
      ∷ []

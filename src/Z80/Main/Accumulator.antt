-- ===== src/Z80/Main/Accumulator.antt =====
-- Unprefixed opcodes on the accumulator and the flags, and the relative jumps: cases of
-- z80_step_impl in src/z80.c.
use model_lib.Base.{ℕ, ◌+◌, bit_and, bit_or, bit_xor, Bool, not, List, [], ◌∷◌}
use model_lib.Base.{true, ltb, ◌||◌, if◌then◌else◌, nonzero, u8}
use model_lib.Base.{sub8, not8, add_s8, ◌<<<◌, ◌>>>◌}
use model_lib.Z80.Cpu.{Cpu, bc, de, hl, flag}
use model_lib.Z80.Cpu.{set_b, set_pc}
use model_lib.Z80.Cpu.{flag_c, flag_n, flag_pv, flag_h, flag_z, flag_s}
use model_lib.Z80.Bus.{Bus, M, ◌>>=◌, ◌>>◌, ret, gets, modify, cost, fetch8}
use model_lib.Z80.Alu.{◌∣◌, on, sz, par}
use model_lib.Z80.Alu.{do_addhl}

-- The flags of the four rotates of A, with the bit `c` that leaves A.
abbrev carry_out : ℕ → Cpu → ℕ
carry_out c s = bit_and s.f (flag_s ∣ flag_z ∣ flag_pv) ∣ on (nonzero c) flag_c

unfoldable pub rlca : Cpu → Cpu
rlca s = let c = s.a >>> 7 in record s { a = u8 (bit_or (s.a <<< 1) c); f = carry_out c s }

unfoldable pub rrca : Cpu → Cpu
rrca s =
    let c = bit_and s.a 1 in record s { a = u8 (bit_or (s.a >>> 1) (c <<< 7)); f = carry_out c s }

unfoldable pub rla : Cpu → Cpu
rla s =
    let cin = if flag flag_c s then 1 else 0 in
    let c = s.a >>> 7 in record s { a = u8 (bit_or (s.a <<< 1) cin); f = carry_out c s }

unfoldable pub rra : Cpu → Cpu
rra s =
    let cin = if flag flag_c s then 0x80 else 0 in
    let c = bit_and s.a 1 in record s { a = u8 (bit_or (s.a >>> 1) cin); f = carry_out c s }

-- Both adjustments are decided from the original A.
unfoldable pub daa : Cpu → Cpu
unfolding sz par
daa s =
    let n = flag flag_n s in
    let h = flag flag_h s in
    let c = flag flag_c s in
    let low = h || ltb 9 (bit_and s.a 0x0f) in
    let high = c || ltb 0x99 s.a in
    let diff = bit_or (on low 0x06) (on high 0x60) in
    let new_c = if high then true else c in
    let a = if n then sub8 s.a diff else u8 (s.a + diff) in
    let new_h = nonzero (bit_and (bit_xor s.a a) 0x10) in
    record s { a = a; f = bit_and s.f flag_n ∣ sz a ∣ par a ∣ on new_h flag_h ∣ on new_c flag_c }

unfoldable pub cpl : Cpu → Cpu
cpl s = record s { a = not8 s.a; f = bit_or s.f (bit_or flag_h flag_n) }

unfoldable pub scf : Cpu → Cpu
scf s = record s { f = bit_and s.f (flag_s ∣ flag_z ∣ flag_pv) ∣ flag_c }

unfoldable pub ccf : Cpu → Cpu
ccf s = record s {
  f = bit_and s.f (flag_s ∣ flag_z ∣ flag_pv) ∣ (if flag flag_c s then flag_h else flag_c);
}

module _ {C : Type 0} where
  unfoldable pub accumulator_cases : List (List ℕ × M C ℕ)
  accumulator_cases =
      (0x07 ∷ [], cost 4 (modify rlca))
      ∷ (0x0f ∷ [], cost 4 (modify rrca))
      ∷ (0x17 ∷ [], cost 4 (modify rla))
      ∷ (0x1f ∷ [], cost 4 (modify rra))
      ∷ (0x09 ∷ [], cost 11 (modify (λ s. do_addhl (bc s) s)))
      ∷ (0x19 ∷ [], cost 11 (modify (λ s. do_addhl (de s) s)))
      ∷ (0x29 ∷ [], cost 11 (modify (λ s. do_addhl (hl s) s)))
      ∷ (0x39 ∷ [], cost 11 (modify (λ s. do_addhl s.sp s)))
      ∷ (0x27 ∷ [], cost 4 (modify daa))
      ∷ (0x2f ∷ [], cost 4 (modify cpl))
      ∷ (0x37 ∷ [], cost 4 (modify scf))
      ∷ (0x3f ∷ [], cost 4 (modify ccf))
      ∷ []

module _ {C : Type 0} (bus : Bus C) where
  -- JR: the displacement is fetched before the test.
  unfoldable pub jump_relative : (Cpu → Bool) → ℕ → ℕ → M C ℕ
  jump_relative test taken skipped = do
    d ← fetch8 bus
    t ← gets test
    if t then cost taken (modify (λ s. set_pc (add_s8 s.pc d) s)) else ret skipped

  unfoldable pub djnz : M C ℕ
  djnz = do
    d ← fetch8 bus
    modify (λ s. set_b (sub8 s.b 1) s)
    b ← gets (λ s. s.b)
    if nonzero b then cost 13 (modify (λ s. set_pc (add_s8 s.pc d) s)) else ret 8

  unfoldable pub relative_cases : List (List ℕ × M C ℕ)
  relative_cases =
      (0x18 ∷ [], jump_relative (λ s. true) 12 7)
      ∷ (0x20 ∷ [], jump_relative (λ s. not (flag flag_z s)) 12 7)
      ∷ (0x28 ∷ [], jump_relative (λ s. flag flag_z s) 12 7)
      ∷ (0x30 ∷ [], jump_relative (λ s. not (flag flag_c s)) 12 7)
      ∷ (0x38 ∷ [], jump_relative (λ s. flag flag_c s) 12 7)
      ∷ (0x10 ∷ [], djnz)
      ∷ []

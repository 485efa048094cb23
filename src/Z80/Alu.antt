-- ===== src/Z80/Alu.antt =====
-- Flags, arithmetic, and the rotate and shift helpers of src/z80.c. Each returns the registers
-- that it leaves, with its value where it has one.
use model_lib.Base.{ℕ, ◌+◌, ◌-◌, bit_and, bit_or, bit_xor, Bool, not}
use model_lib.Base.{false, ltb, ◌==◌, if◌then◌else◌, nonzero, from_bool}
use model_lib.Base.{u8, u16, sub8, not8, ◌<<<◌, ◌>>>◌}
use model_lib.Z80.Cpu.{Cpu, hl, set_hl, flag}
use model_lib.Z80.Cpu.{flag_c, flag_n, flag_pv, flag_h, flag_z, flag_s}

-- The bitwise or of two flag expressions, read from left to right.
infixl 45 ◌∣◌
abbrev pub ◌∣◌ : ℕ → ℕ → ℕ
a ∣ b = bit_or a b

-- `(test ? m : 0)`
abbrev pub on : Bool → ℕ → ℕ
on test m = if test then m else 0

unfoldable pub sz : ℕ → ℕ
sz v = bit_and v 0x80 ∣ on (not (nonzero v)) flag_z

unfoldable pub par : ℕ → ℕ
par v =
    let v4 = bit_xor v (v >>> 4) in
    let v2 = bit_xor v4 (v4 >>> 2) in
    let v1 = bit_xor v2 (v2 >>> 1) in on (nonzero (bit_and (not8 v1) 1)) flag_pv

unfoldable pub do_add : ℕ → Bool → Cpu → Cpu
do_add val c s =
    let r = u16 (s.a + val + from_bool c) in
    record s {
      f =
          on (ltb 0xff r) flag_c
          ∣ on (not (nonzero (u8 r))) flag_z
          ∣ on (nonzero (bit_and (u8 r) 0x80)) flag_s
          ∣ on (nonzero (bit_and (bit_xor (bit_xor s.a val) (u8 r)) 0x10)) flag_h
          ∣ on (nonzero (bit_and (bit_and (not8 (bit_xor s.a val)) (bit_xor s.a (u8 r))) 0x80))
              flag_pv;
      a = u8 r;
    }

-- The difference is a `u16`, so a borrow leaves it above 0xff.
unfoldable pub do_sub : ℕ → Bool → Cpu → Cpu
do_sub val c s =
    let r = u16 (s.a + 65536 - val - from_bool c) in
    record s {
      f =
          flag_n
          ∣ on (ltb 0xff r) flag_c
          ∣ on (not (nonzero (u8 r))) flag_z
          ∣ on (nonzero (bit_and (u8 r) 0x80)) flag_s
          ∣ on (nonzero (bit_and (bit_xor (bit_xor s.a val) (u8 r)) 0x10)) flag_h
          ∣ on (nonzero (bit_and (bit_and (bit_xor s.a val) (bit_xor s.a (u8 r))) 0x80)) flag_pv;
      a = u8 r;
    }

unfoldable pub do_and : ℕ → Cpu → Cpu
unfolding sz par
do_and v s = let a = bit_and s.a v in record s { a = a; f = sz a ∣ par a ∣ flag_h }

unfoldable pub do_xor : ℕ → Cpu → Cpu
unfolding sz par
do_xor v s = let a = bit_xor s.a v in record s { a = a; f = sz a ∣ par a }

unfoldable pub do_or : ℕ → Cpu → Cpu
unfolding sz par
do_or v s = let a = bit_or s.a v in record s { a = a; f = sz a ∣ par a }

-- A comparison is a subtraction that keeps A.
unfoldable pub do_cp : ℕ → Cpu → Cpu
unfolding do_sub
do_cp v s = let t = do_sub v false s in record t { a = s.a }

unfoldable pub do_inc : ℕ → Cpu → ℕ × Cpu
unfolding sz
do_inc v s =
    let r = u8 (v + 1) in
    (
      r,
      record s {
        f = bit_and s.f flag_c ∣ sz r ∣ on (bit_and v 0x0f == 0x0f) flag_h ∣ on (v == 0x7f) flag_pv;
      },
    )

unfoldable pub do_dec : ℕ → Cpu → ℕ × Cpu
unfolding sz
do_dec v s =
    let r = sub8 v 1 in
    (
      r,
      record s {
        f =
            bit_and s.f flag_c
            ∣ flag_n
            ∣ sz r
            ∣ on (bit_and v 0x0f == 0x00) flag_h
            ∣ on (v == 0x80) flag_pv;
      },
    )

-- The sum of 16-bit words is a `u32`: bit 16 is the carry. Also the body of `ADD IX,rr`.
unfoldable pub do_addhl : ℕ → Cpu → Cpu
do_addhl val s =
    let r = hl s + val in
    let s' = record s {
      f =
          bit_and s.f (flag_s ∣ flag_z ∣ flag_pv)
          ∣ on (ltb 0xffff r) flag_c
          ∣ on (nonzero (bit_and (bit_xor (bit_xor (hl s) val) (u16 r)) 0x1000)) flag_h;
    } in
    set_hl (u16 r) s'

-- `f = sz(r) | par(r) | (test ? C : 0)` and the result.
abbrev rotated : ℕ → Bool → Cpu → ℕ × Cpu
rotated r test s = (r, record s { f = sz r ∣ par r ∣ on test flag_c })

unfoldable pub do_rlc : ℕ → Cpu → ℕ × Cpu
unfolding sz par
do_rlc v s = rotated (u8 (bit_or (v <<< 1) (v >>> 7))) (nonzero (v >>> 7)) s

unfoldable pub do_rrc : ℕ → Cpu → ℕ × Cpu
unfolding sz par
do_rrc v s = rotated (u8 (bit_or (v >>> 1) (v <<< 7))) (nonzero (bit_and v 1)) s

unfoldable pub do_rl : ℕ → Cpu → ℕ × Cpu
unfolding sz par
do_rl v s =
    let c = if flag flag_c s then 1 else 0 in
    rotated (u8 (bit_or (v <<< 1) c)) (nonzero (v >>> 7)) s

unfoldable pub do_rr : ℕ → Cpu → ℕ × Cpu
unfolding sz par
do_rr v s =
    let c = if flag flag_c s then 0x80 else 0 in
    rotated (u8 (bit_or (v >>> 1) c)) (nonzero (bit_and v 1)) s

unfoldable pub do_sla : ℕ → Cpu → ℕ × Cpu
unfolding sz par
do_sla v s = rotated (u8 (v <<< 1)) (nonzero (v >>> 7)) s

unfoldable pub do_sra : ℕ → Cpu → ℕ × Cpu
unfolding sz par
do_sra v s = rotated (u8 (bit_or (v >>> 1) (bit_and v 0x80))) (nonzero (bit_and v 1)) s

unfoldable pub do_srl : ℕ → Cpu → ℕ × Cpu
unfolding sz par
do_srl v s = rotated (u8 (v >>> 1)) (nonzero (bit_and v 1)) s

unfoldable pub do_sll : ℕ → Cpu → ℕ × Cpu
unfolding sz par
do_sll v s = rotated (u8 (bit_or (v <<< 1) 1)) (nonzero (v >>> 7)) s

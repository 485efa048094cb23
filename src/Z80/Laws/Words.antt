-- ===== src/Z80/Laws/Words.antt =====
-- Sixteen-bit arithmetic against arithmetic on numbers: do_addhl of src/z80.c, ADC HL,rr and
-- SBC HL,rr of its ED opcodes, and ADD IX,rr.
use model_lib.Base.{ℕ, ◌+◌, ◌-◌, ◌*◌, ◌/◌, ◌%◌, ◌≤◌, ◌<◌, ◌≡◌, ◌∙◌, arith, Bool, true, false, not}
use model_lib.Base.{◌&&◌, bit_and, bit_xor, leb, ltb, ◌==◌, nonzero, from_bool}
use model_lib.Base.{u16, u32, not16, ◌>>>◌}
use model_lib.Base.Bits.{bit, bit-bit_and, bit-bit_xor, bit_and-pow, bit_xor-lt}
use model_lib.Z80.Cpu.{Cpu, hl, flag, flag_c, flag_n, flag_pv, flag_h, flag_z, flag_s}
use model_lib.Z80.Ed.Registers.{adc_hl, sbc_hl}
use model_lib.Z80.Laws.Alu.{add_flags, sub_flags, from_bool-le}

-- The number that a word stands for in two's complement, plus 32768.
abbrev pub biased16 : ℕ → ℕ
biased16 x = (x + 32768) % 65536

half_carry16 :
    (a v c : ℕ)
    → c ≤ 1
    → a < 65536
    → v < 65536
    → nonzero (bit_and (bit_xor (bit_xor a v) (u16 (u32 (a + v + c)))) 0x1000)
      ≡ leb 4096 (a % 4096 + v % 4096 + c)
half_carry16 a v c hc ha hv =
    let r = u16 (u32 (a + v + c)) in
    ground (
      arith,
      bit_and-pow 12 (bit_xor (bit_xor a v) r),
      bit-bit_xor 12 (bit_xor a v) r,
      bit-bit_xor 12 a v,
    )

add_overflow16 :
    (a v c : ℕ)
    → c ≤ 1
    → a < 65536
    → v < 65536
    → let r = u16 (u32 (a + v + c)) in
      nonzero (bit_and (bit_and (not16 (bit_xor a v)) (bit_xor v r)) 0x8000)
      ≡ not (leb 32768 (biased16 a + biased16 v + c) && leb (biased16 a + biased16 v + c) 98303)
add_overflow16 a v c hc ha hv =
    let r = u16 (u32 (a + v + c)) in
    ground (
      arith,
      bit_and-pow 15 (bit_and (not16 (bit_xor a v)) (bit_xor v r)),
      bit-bit_and 15 (not16 (bit_xor a v)) (bit_xor v r),
      bit-bit_xor 15 v r,
      bit-bit_xor 15 a v,
      bit_xor-lt 16 a v,
    )

sign_bit16 : (r : ℕ) → nonzero (bit_and (u16 r) 0x8000) ≡ leb 32768 (u16 r)
sign_bit16 r = ground (arith, bit_and-pow 15 (u16 r))

sum_carry16 :
    (f : Bool) (n : ℕ)
    → n < 131072
    → f ≡ ltb 0xffff (u32 n)
    → u16 (u32 n) / 256 % 256 * 256 + u16 (u32 n) % 256 + 65536 * from_bool f ≡ n
sum_carry16 f n h e = rw e (ground arith)

-- ADC HL,rr: the sum with its carry, and every flag as a fact about the operands; the overflow
-- compares the sum of the signed values, plus 65536.
pub adc_hl_lem :
    (v : ℕ) (s : Cpu)
    → hl s < 65536
    → v < 65536
    → let t = adc_hl v s in
      let k = from_bool (flag flag_c s) in
      let m = biased16 (hl s) + biased16 v + k in
      (hl t + 65536 * from_bool (flag flag_c t) ≡ hl s + v + k)
      × (flag flag_z t ≡ (hl t == 0))
      × (flag flag_s t ≡ leb 32768 (hl t))
      × (flag flag_h t ≡ leb 4096 (hl s % 4096 + v % 4096 + k))
      × (flag flag_pv t ≡ not (leb 32768 m && leb m 98303))
      × (flag flag_n t ≡ false)
unfolding adc_hl
adc_hl_lem v s ha hv =
    let k = from_bool (flag flag_c s) in
    let k1 = from_bool-le (flag flag_c s) in
    let r = u32 (hl s + v + k) in
    let flags =
      add_flags (ltb 0xffff r) (not (nonzero (u16 r))) (nonzero (bit_and (u16 r) 0x8000))
        (nonzero (bit_and (bit_xor (bit_xor (hl s) v) (u16 r)) 0x1000))
        (nonzero (bit_and (bit_and (not16 (bit_xor (hl s) v)) (bit_xor v (u16 r))) 0x8000)) in
    let whole : u16 r / 256 % 256 * 256 + u16 r % 256 ≡ u16 r = omega arith in
    (
      sum_carry16 (flag flag_c (adc_hl v s)) (hl s + v + k) (omega (arith, k1)) flags.0,
      flags.1 ∙ rw whole (ground arith),
      flags.2 ∙ rw whole (sign_bit16 r),
      flags.3 ∙ half_carry16 (hl s) v k k1 ha hv,
      flags.4 ∙ add_overflow16 (hl s) v k k1 ha hv,
      flags.5,
    )

abbrev difference16 : ℕ → ℕ → ℕ → ℕ
difference16 a v c = (a + 4294967296 - v - c) % 4294967296

half_borrow16 :
    (a v c : ℕ)
    → c ≤ 1
    → a < 65536
    → v < 65536
    → nonzero (bit_and (bit_xor (bit_xor a v) (u16 (difference16 a v c))) 0x1000)
      ≡ ltb (a % 4096) (v % 4096 + c)
half_borrow16 a v c hc ha hv =
    let r = u16 (difference16 a v c) in
    ground (
      arith,
      bit_and-pow 12 (bit_xor (bit_xor a v) r),
      bit-bit_xor 12 (bit_xor a v) r,
      bit-bit_xor 12 a v,
    )

sub_overflow16 :
    (a v c : ℕ)
    → c ≤ 1
    → a < 65536
    → v < 65536
    → let r = u16 (difference16 a v c) in
      nonzero (bit_and (bit_and (bit_xor a v) (bit_xor a r) >>> 8) 0x80)
      ≡ not (
          leb (biased16 v + c) (biased16 a + 32768)
          && leb (biased16 a + 32768) (biased16 v + c + 65535))
sub_overflow16 a v c hc ha hv =
    let r = u16 (difference16 a v c) in
    let x = bit_and (bit_xor a v) (bit_xor a r) in
    let shifted : bit 7 (x >>> 8) ≡ bit 15 x = omega arith in
    ground (
      arith,
      shifted,
      bit_and-pow 7 (x >>> 8),
      bit-bit_and 15 (bit_xor a v) (bit_xor a r),
      bit-bit_xor 15 a r,
      bit-bit_xor 15 a v,
    )

borrow16 :
    (f : Bool) (a v c : ℕ)
    → c ≤ 1
    → a < 65536
    → v < 65536
    → f ≡ ltb 0xffff (difference16 a v c)
    → let r = u16 (difference16 a v c) in
      r / 256 % 256 * 256 + r % 256 + v + c ≡ a + 65536 * from_bool f
borrow16 f a v c hc ha hv e = rw e (ground arith)

-- SBC HL,rr: the difference with its borrow, and every flag as a fact about the operands; the
-- overflow compares the signed values, each plus 32768.
pub sbc_hl_lem :
    (v : ℕ) (s : Cpu)
    → hl s < 65536
    → v < 65536
    → let t = sbc_hl v s in
      let k = from_bool (flag flag_c s) in
      (hl t + v + k ≡ hl s + 65536 * from_bool (flag flag_c t))
      × (flag flag_z t ≡ (hl t == 0))
      × (flag flag_s t ≡ leb 32768 (hl t))
      × (flag flag_h t ≡ ltb (hl s % 4096) (v % 4096 + k))
      × (flag flag_pv t
          ≡ not (
              leb (biased16 v + k) (biased16 (hl s) + 32768)
              && leb (biased16 (hl s) + 32768) (biased16 v + k + 65535)))
      × (flag flag_n t ≡ true)
unfolding sbc_hl
sbc_hl_lem v s ha hv =
    let k = from_bool (flag flag_c s) in
    let k1 = from_bool-le (flag flag_c s) in
    let r = difference16 (hl s) v k in
    let flags =
      sub_flags (ltb 0xffff r) (not (nonzero (u16 r))) (nonzero (bit_and (u16 r) 0x8000))
        (nonzero (bit_and (bit_xor (bit_xor (hl s) v) (u16 r)) 0x1000))
        (nonzero (bit_and (bit_and (bit_xor (hl s) v) (bit_xor (hl s) (u16 r)) >>> 8) 0x80)) in
    let whole : u16 r / 256 % 256 * 256 + u16 r % 256 ≡ u16 r = omega arith in
    (
      borrow16 (flag flag_c (sbc_hl v s)) (hl s) v k k1 ha hv flags.0,
      flags.1 ∙ rw whole (ground arith),
      flags.2 ∙ rw whole (sign_bit16 r),
      flags.3 ∙ half_borrow16 (hl s) v k k1 ha hv,
      flags.4 ∙ sub_overflow16 (hl s) v k k1 ha hv,
      flags.5,
    )

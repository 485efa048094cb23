-- ===== src/Z80/Laws/Index.antt =====
-- Where the IX and IY forms of src/z80.c differ from the plain ones: ADD IX,IX has no half carry,
-- and BIT b,(IX+d) has no sign.
use model_lib.Base.{ℕ, ◌+◌, ◌*◌, ◌/◌, ◌%◌, ◌<◌, ◌≡◌, refl, ◌∙◌, arith, Bool, false}
use model_lib.Base.{bit_and, bit_xor, ltb, leb, nonzero, u16, from_bool, sym}
use model_lib.Z80.Cpu.{hl}
use model_lib.Z80.Alu.{do_addhl}
use model_lib.Base.Bits.{bit-bit_and, bit-bit_or, bit-bit_xor, bit_and-pow}
use model_lib.Z80.Cpu.{Cpu, flag, flag_h, flag_c, flag_s, flag_z, flag_pv}
use model_lib.Z80.Alu.{◌∣◌, on}
use model_lib.Z80.Xy.Memory.{add_xy, double_xy, ix_reg}

word_carry :
    (f : Bool) (n : ℕ)
    → n < 131072
    → f ≡ ltb 0xffff n
    → u16 n / 256 % 256 * 256 + u16 n % 256 + 65536 * from_bool f ≡ n
word_carry f n h e = rw e (ground arith)

-- The bits kept of F by the word additions leave room for C and H.
kept_flags :
    (f : ℕ) (c h : Bool)
    → let f' = bit_and f (flag_s ∣ flag_z ∣ flag_pv) ∣ on c flag_c ∣ on h flag_h in
      (nonzero (bit_and f' flag_c) ≡ c) × (nonzero (bit_and f' flag_h) ≡ h)
kept_flags f c h =
    let k = bit_and f 0xc4 in
    let x = on c flag_c in
    let y = on h flag_h in
    let z = k ∣ x ∣ y in
    (
      ground
          (arith, bit_and-pow 0 z, bit-bit_or 0 (k ∣ x) y, bit-bit_or 0 k x, bit-bit_and 0 f 0xc4),
      ground
          (arith, bit_and-pow 4 z, bit-bit_or 4 (k ∣ x) y, bit-bit_or 4 k x, bit-bit_and 4 f 0xc4),
    )

kept_flags_no_half :
    (f : ℕ) (c : Bool)
    → let f' = bit_and f (flag_s ∣ flag_z ∣ flag_pv) ∣ on c flag_c in
      (nonzero (bit_and f' flag_c) ≡ c) × (nonzero (bit_and f' flag_h) ≡ false)
kept_flags_no_half f c =
    let k = bit_and f 0xc4 in
    let x = on c flag_c in
    (
      ground (arith, bit_and-pow 0 (k ∣ x), bit-bit_or 0 k x, bit-bit_and 0 f 0xc4),
      ground (arith, bit_and-pow 4 (k ∣ x), bit-bit_or 4 k x, bit-bit_and 4 f 0xc4),
    )

half_carry_word :
    (a v : ℕ)
    → a < 65536
    → v < 65536
    → nonzero (bit_and (bit_xor (bit_xor a v) (u16 (a + v))) 0x1000)
      ≡ leb 4096 (a % 4096 + v % 4096)
half_carry_word a v ha hv =
    let r = u16 (a + v) in
    ground (
      arith,
      bit_and-pow 12 (bit_xor (bit_xor a v) r),
      bit-bit_xor 12 (bit_xor a v) r,
      bit-bit_xor 12 a v,
    )

-- ADD HL,rr: the sum with its carry, and the half carry out of bit 11.
pub do_addhl_lem :
    (v : ℕ) (s : Cpu)
    → hl s < 65536
    → v < 65536
    → let t = do_addhl v s in
      (hl t + 65536 * from_bool (flag flag_c t) ≡ hl s + v)
      × (flag flag_h t ≡ leb 4096 (hl s % 4096 + v % 4096))
unfolding do_addhl
do_addhl_lem v s ha hv =
    let r = hl s + v in
    let kept =
      kept_flags s.f (ltb 0xffff r)
        (nonzero (bit_and (bit_xor (bit_xor (hl s) v) (u16 r)) 0x1000)) in
    (
      word_carry (flag flag_c (do_addhl v s)) r (omega arith) kept.0,
      kept.1 ∙ half_carry_word (hl s) v ha hv,
    )

-- ADD IX,IX leaves H clear, while the same sum by the form for another operand sets it whenever
-- the low twelve bits carry; IX and the carry agree.
pub double_xy-half_carry :
    (s : Cpu)
    → s.ix < 65536
    → let t = double_xy ix_reg s in
      let u = add_xy ix_reg s.ix s in
      (t.ix ≡ u.ix)
      × (flag flag_c t ≡ flag flag_c u)
      × (flag flag_h t ≡ false)
      × (flag flag_h u ≡ leb 2048 (s.ix % 4096))
unfolding double_xy add_xy
double_xy-half_carry s h =
    let r = s.ix + s.ix in
    let with_half =
      kept_flags s.f (ltb 0xffff r)
        (nonzero (bit_and (bit_xor (bit_xor s.ix s.ix) (u16 r)) 0x1000)) in
    let without = kept_flags_no_half s.f (ltb 0xffff r) in
    (
      refl,
      without.0 ∙ sym with_half.0,
      without.1,
      with_half.1 ∙ half_carry_word s.ix s.ix h h ∙ ground arith,
    )

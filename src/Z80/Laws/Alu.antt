-- ===== src/Z80/Laws/Alu.antt =====
-- Eight-bit addition and subtraction against arithmetic on numbers: do_add and do_sub of
-- src/z80.c.
use model_lib.Base.{ℕ, ◌+◌, ◌-◌, ◌*◌, ◌%◌, ◌≤◌, ◌<◌, ◌≡◌, ap, ◌∙◌, arith}
use model_lib.Base.{Bool, true, false, not, ◌&&◌, bit_and, bit_xor, leb, ltb, ◌==◌}
use model_lib.Base.{nonzero, from_bool, u8, u16, not8}
use model_lib.Base.Bits.{bit-bit_and, bit-bit_xor, bit_and-pow, bit_xor-lt}
use model_lib.Z80.Cpu.{Cpu, flag, flag_c, flag_n, flag_pv, flag_h, flag_z, flag_s}
use model_lib.Z80.Alu.{◌∣◌, on, do_add, do_sub}

-- The number that a byte stands for in two's complement, plus 128.
abbrev pub biased : ℕ → ℕ
biased x = (x + 128) % 256

pub add_flags :
    (c z s h p : Bool)
    → let f = on c flag_c ∣ on z flag_z ∣ on s flag_s ∣ on h flag_h ∣ on p flag_pv in
      (nonzero (bit_and f flag_c) ≡ c)
      × (nonzero (bit_and f flag_z) ≡ z)
      × (nonzero (bit_and f flag_s) ≡ s)
      × (nonzero (bit_and f flag_h) ≡ h)
      × (nonzero (bit_and f flag_pv) ≡ p)
      × (nonzero (bit_and f flag_n) ≡ false)
add_flags c z s h p = ground arith

half_carry :
    (a v c : ℕ)
    → c ≤ 1
    → a < 256
    → v < 256
    → nonzero (bit_and (bit_xor (bit_xor a v) ((a + v + c) % 256)) 0x10)
      ≡ leb 16 (a % 16 + v % 16 + c)
half_carry a v c hc ha hv = ground (
  arith,
  bit_and-pow 4 (bit_xor (bit_xor a v) ((a + v + c) % 256)),
  bit-bit_xor 4 (bit_xor a v) ((a + v + c) % 256),
  bit-bit_xor 4 a v,
)

sign_bit : (x : ℕ) → nonzero (bit_and (x % 256) 0x80) ≡ leb 128 (x % 256)
sign_bit x = ground (arith, bit_and-pow 7 (x % 256))

-- Bit 7 of the test for an overflow of a sum.
add_overflow :
    (a v c : ℕ)
    → c ≤ 1
    → a < 256
    → v < 256
    → let r = (a + v + c) % 256 in
      nonzero (bit_and (bit_and (not8 (bit_xor a v)) (bit_xor a r)) 0x80)
      ≡ not (leb 128 (biased a + biased v + c) && leb (biased a + biased v + c) 383)
add_overflow a v c hc ha hv =
    let r = (a + v + c) % 256 in
    ground (
      arith,
      bit_and-pow 7 (bit_and (not8 (bit_xor a v)) (bit_xor a r)),
      bit-bit_and 7 (not8 (bit_xor a v)) (bit_xor a r),
      bit-bit_xor 7 a r,
      bit-bit_xor 7 a v,
      bit_xor-lt 8 a v,
    )

pub from_bool-le : (c : Bool) → from_bool c ≤ 1
from_bool-le true = omega arith
from_bool-le false = omega arith

sum_carry : (f : Bool) (n : ℕ) → n < 512 → f ≡ ltb 0xff (u16 n) → u8 (u16 n) + 256 * from_bool f ≡ n
sum_carry f n h e = rw e (ground arith)

-- What an addition leaves: the sum with its carry, and every flag as a fact about the operands.
-- `n` is the exact sum, and `m` the exact sum of the signed values plus 256.
pub do_add_lem :
    (v : ℕ) (c : Bool) (s : Cpu)
    → s.a < 256
    → v < 256
    → let t = do_add v c s in
      let n = s.a + v + from_bool c in
      let m = biased s.a + biased v + from_bool c in
      (t.a + 256 * from_bool (flag flag_c t) ≡ n)
      × (flag flag_z t ≡ (t.a == 0))
      × (flag flag_s t ≡ leb 128 t.a)
      × (flag flag_h t ≡ leb 16 (s.a % 16 + v % 16 + from_bool c))
      × (flag flag_pv t ≡ not (leb 128 m && leb m 383))
      × (flag flag_n t ≡ false)
unfolding do_add
do_add_lem v c s ha hv =
    let k = from_bool c in
    let n = s.a + v + k in
    let cut : u8 (u16 n) ≡ n % 256 = omega arith in
    let flags =
      add_flags (ltb 0xff (u16 n)) (not (nonzero (u8 (u16 n))))
        (nonzero (bit_and (u8 (u16 n)) 0x80))
        (nonzero (bit_and (bit_xor (bit_xor s.a v) (u8 (u16 n))) 0x10))
        (nonzero (bit_and (bit_and (not8 (bit_xor s.a v)) (bit_xor s.a (u8 (u16 n)))) 0x80)) in
    (
      sum_carry (flag flag_c (do_add v c s)) n (omega (arith, from_bool-le c)) flags.0,
      flags.1 ∙ ground arith,
      flags.2 ∙ sign_bit (u16 n),
      flags.3
          ∙ ap (λ r. nonzero (bit_and (bit_xor (bit_xor s.a v) r) 0x10)) cut
          ∙ half_carry s.a v k (from_bool-le c) ha hv,
      flags.4
          ∙ ap (λ r. nonzero (bit_and (bit_and (not8 (bit_xor s.a v)) (bit_xor s.a r)) 0x80)) cut
          ∙ add_overflow s.a v k (from_bool-le c) ha hv,
      flags.5,
    )

pub sub_flags :
    (c z s h p : Bool)
    → let f = flag_n ∣ on c flag_c ∣ on z flag_z ∣ on s flag_s ∣ on h flag_h ∣ on p flag_pv in
      (nonzero (bit_and f flag_c) ≡ c)
      × (nonzero (bit_and f flag_z) ≡ z)
      × (nonzero (bit_and f flag_s) ≡ s)
      × (nonzero (bit_and f flag_h) ≡ h)
      × (nonzero (bit_and f flag_pv) ≡ p)
      × (nonzero (bit_and f flag_n) ≡ true)
sub_flags c z s h p = ground arith

-- The difference as the code cuts it to a byte.
abbrev difference : ℕ → ℕ → ℕ → ℕ
difference a v c = (a + 65536 - v - c) % 65536

half_borrow :
    (a v c : ℕ)
    → c ≤ 1
    → a < 256
    → v < 256
    → nonzero (bit_and (bit_xor (bit_xor a v) (difference a v c % 256)) 0x10)
      ≡ ltb (a % 16) (v % 16 + c)
half_borrow a v c hc ha hv =
    let r = difference a v c % 256 in
    ground (
      arith,
      bit_and-pow 4 (bit_xor (bit_xor a v) r),
      bit-bit_xor 4 (bit_xor a v) r,
      bit-bit_xor 4 a v,
    )

sub_overflow :
    (a v c : ℕ)
    → c ≤ 1
    → a < 256
    → v < 256
    → let r = difference a v c % 256 in
      nonzero (bit_and (bit_and (bit_xor a v) (bit_xor a r)) 0x80)
      ≡ not (leb (biased v + c) (biased a + 128) && leb (biased a + 128) (biased v + c + 255))
sub_overflow a v c hc ha hv =
    let r = difference a v c % 256 in
    ground (
      arith,
      bit_and-pow 7 (bit_and (bit_xor a v) (bit_xor a r)),
      bit-bit_and 7 (bit_xor a v) (bit_xor a r),
      bit-bit_xor 7 a r,
      bit-bit_xor 7 a v,
    )

borrow :
    (f : Bool) (a v c : ℕ)
    → c ≤ 1
    → a < 256
    → v < 256
    → f ≡ ltb 0xff (difference a v c)
    → difference a v c % 256 + v + c ≡ a + 256 * from_bool f
borrow f a v c hc ha hv e = rw e (ground arith)

-- What a subtraction leaves: the difference with its borrow, and every flag as a fact about the
-- operands. The overflow compares the signed values, each plus 128.
pub do_sub_lem :
    (v : ℕ) (c : Bool) (s : Cpu)
    → s.a < 256
    → v < 256
    → let t = do_sub v c s in
      let k = from_bool c in
      (t.a + v + k ≡ s.a + 256 * from_bool (flag flag_c t))
      × (flag flag_z t ≡ (t.a == 0))
      × (flag flag_s t ≡ leb 128 t.a)
      × (flag flag_h t ≡ ltb (s.a % 16) (v % 16 + k))
      × (flag flag_pv t
          ≡ not (
              leb (biased v + k) (biased s.a + 128) && leb (biased s.a + 128) (biased v + k + 255)))
      × (flag flag_n t ≡ true)
unfolding do_sub
do_sub_lem v c s ha hv =
    let k = from_bool c in
    let r = difference s.a v k in
    let flags =
      sub_flags (ltb 0xff r) (not (nonzero (u8 r))) (nonzero (bit_and (u8 r) 0x80))
        (nonzero (bit_and (bit_xor (bit_xor s.a v) (u8 r)) 0x10))
        (nonzero (bit_and (bit_and (bit_xor s.a v) (bit_xor s.a (u8 r))) 0x80)) in
    (
      borrow (flag flag_c (do_sub v c s)) s.a v k (from_bool-le c) ha hv flags.0,
      flags.1 ∙ ground arith,
      flags.2 ∙ sign_bit r,
      flags.3 ∙ half_borrow s.a v k (from_bool-le c) ha hv,
      flags.4 ∙ sub_overflow s.a v k (from_bool-le c) ha hv,
      flags.5,
    )

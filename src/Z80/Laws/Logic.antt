-- ===== src/Z80/Laws/Logic.antt =====
-- The logical operations, the counting of a byte and the rotates of src/z80.c, against
-- descriptions that do not mention its flag expressions.
use model_lib.Base.{ℕ, ◌+◌, ◌%◌, ◌<◌, ◌≡◌, refl, ◌∙◌, arith, Bool, true, false, not}
use model_lib.Base.{◌&&◌, bit_and, bit_or, bit_xor, leb, ◌==◌, ==_iff, if◌then◌else◌, nonzero}
use model_lib.Base.{all_below, all_below_sound, u8, ◌<<<◌, ◌>>>◌}
use model_lib.Base.Bits.{bit, bit_and-le, bit_or-lt, bit_xor-lt}
use model_lib.Z80.Cpu.{Cpu, flag, flag_c, flag_n, flag_pv, flag_h, flag_z, flag_s}
use model_lib.Z80.Alu.{◌∣◌, on, sz, par, do_and, do_xor, do_or}
use model_lib.Z80.Alu.{do_rl, do_rr}

-- An even number of ones in a byte.
abbrev pub even_ones : ℕ → Bool
even_ones v =
    (bit 0 v + bit 1 v + bit 2 v + bit 3 v + bit 4 v + bit 5 v + bit 6 v + bit 7 v) % 2 == 0

-- The flags of a result `r` after a logical operation, with `h` for the half carry.
abbrev pub LogicFlags : ℕ → Bool → ℕ → Type 0
LogicFlags r h f =
    (nonzero (bit_and f flag_s) ≡ leb 128 r)
    × (nonzero (bit_and f flag_z) ≡ (r == 0))
    × (nonzero (bit_and f flag_h) ≡ h)
    × (nonzero (bit_and f flag_pv) ≡ even_ones r)
    × (nonzero (bit_and f flag_n) ≡ false)
    × (nonzero (bit_and f flag_c) ≡ false)

abbrev same : Bool → Bool → Bool
same true b = b
same false b = not b

same_eq : (a b : Bool) → same a b ≡ true → a ≡ b
same_eq a b h = ground arith

all_six :
    (a b c d e f : Bool)
    → a && b && c && d && e && f ≡ true
    → (a ≡ true) × (b ≡ true) × (c ≡ true) × (d ≡ true) × (e ≡ true) × (f ≡ true)
all_six a b c d e f h = ground arith

abbrev logic_fits : Bool → ℕ → ℕ → Bool
logic_fits h r f =
    same (nonzero (bit_and f flag_s)) (leb 128 r)
    && same (nonzero (bit_and f flag_z)) (r == 0)
    && same (nonzero (bit_and f flag_h)) h
    && same (nonzero (bit_and f flag_pv)) (even_ones r)
    && same (nonzero (bit_and f flag_n)) false
    && same (nonzero (bit_and f flag_c)) false

logic_fits_sound : (h : Bool) (r f : ℕ) → logic_fits h r f ≡ true → LogicFlags r h f
logic_fits_sound h r f e =
    let s_fits = same (nonzero (bit_and f flag_s)) (leb 128 r) in
    let z_fits = same (nonzero (bit_and f flag_z)) (r == 0) in
    let h_fits = same (nonzero (bit_and f flag_h)) h in
    let pv_fits = same (nonzero (bit_and f flag_pv)) (even_ones r) in
    let n_fits = same (nonzero (bit_and f flag_n)) false in
    let c_fits = same (nonzero (bit_and f flag_c)) false in
    let six = all_six s_fits z_fits h_fits pv_fits n_fits c_fits e in
    (
      same_eq (nonzero (bit_and f flag_s)) (leb 128 r) six.0,
      same_eq (nonzero (bit_and f flag_z)) (r == 0) six.1,
      same_eq (nonzero (bit_and f flag_h)) h six.2,
      same_eq (nonzero (bit_and f flag_pv)) (even_ones r) six.3,
      same_eq (nonzero (bit_and f flag_n)) false six.4,
      same_eq (nonzero (bit_and f flag_c)) false six.5,
    )

with_h_table : all_below 256 (λ r. logic_fits true r (sz r ∣ par r ∣ flag_h)) ≡ true
unfolding all_below sz par
with_h_table = refl

without_h_table : all_below 256 (λ r. logic_fits false r (sz r ∣ par r)) ≡ true
unfolding all_below sz par
without_h_table = refl

-- AND, XOR and OR of two bytes: A is the bitwise result; S is its top bit, Z says that it is 0 and
-- PV that it has an even number of ones; N and C are clear, and H is set by AND alone.
pub logic_lem :
    (v : ℕ) (s : Cpu)
    → s.a < 256
    → v < 256
    → ((do_and v s).a ≡ bit_and s.a v)
      × LogicFlags (bit_and s.a v) true (do_and v s).f
      × ((do_xor v s).a ≡ bit_xor s.a v)
      × LogicFlags (bit_xor s.a v) false (do_xor v s).f
      × ((do_or v s).a ≡ bit_or s.a v)
      × LogicFlags (bit_or s.a v) false (do_or v s).f
unfolding do_and do_xor do_or
logic_lem v s ha hv =
    let plain = λ (r : ℕ) (h : r < 256).
      logic_fits_sound false r _ (all_below_sound 256 _ without_h_table r h) in
    (
      refl,
      logic_fits_sound true _ _ (
          all_below_sound 256 _ with_h_table (bit_and s.a v)
            (omega (arith, bit_and-le s.a s.a v (omega arith)))),
      refl,
      plain (bit_xor s.a v) (bit_xor-lt 8 s.a v ha hv),
      refl,
      plain (bit_or s.a v) (bit_or-lt 8 s.a v ha hv),
    )

-- The flags of a rotate give its carry back.
rotated_carry_table :
    all_below 256 (λ r.
      same (nonzero (bit_and (sz r ∣ par r ∣ on true flag_c) flag_c)) true
      && same (nonzero (bit_and (sz r ∣ par r ∣ on false flag_c) flag_c)) false)
    ≡ true
unfolding all_below sz par
rotated_carry_table = refl

both_true : (a b : Bool) → a && b ≡ true → (a ≡ true) × (b ≡ true)
both_true a b h = ground arith

rotated_carry :
    (r : ℕ) (c : Bool) → r < 256 → nonzero (bit_and (sz r ∣ par r ∣ on c flag_c) flag_c) ≡ c
rotated_carry r true h =
    same_eq _ true (both_true _ _ (all_below_sound 256 _ rotated_carry_table r h)).0
rotated_carry r false h =
    same_eq _ false (both_true _ _ (all_below_sound 256 _ rotated_carry_table r h)).1

abbrev ring_fits : ℕ → Bool → Bool
ring_fits v c =
    let r = u8 (bit_or (v <<< 1) (if c then 1 else 0)) in
    (u8 (bit_or (r >>> 1) (if nonzero (v >>> 7) then 0x80 else 0)) == v)
    && same (nonzero (bit_and r 1)) c

ring_table : all_below 256 (λ v. ring_fits v true && ring_fits v false) ≡ true
unfolding all_below
ring_table = refl

ring :
    (v : ℕ) (c : Bool)
    → v < 256
    → let r = u8 (bit_or (v <<< 1) (if c then 1 else 0)) in
      (u8 (bit_or (r >>> 1) (if nonzero (v >>> 7) then 0x80 else 0)) ≡ v)
      × (nonzero (bit_and r 1) ≡ c)
ring v true h =
    let t =
      both_true (ring_fits v true) (ring_fits v false) (all_below_sound 256 _ ring_table v h) in
    let p = both_true _ _ t.0 in ((==_iff _ v).0 p.0, same_eq _ true p.1)
ring v false h =
    let t =
      both_true (ring_fits v true) (ring_fits v false) (all_below_sound 256 _ ring_table v h) in
    let p = both_true _ _ t.1 in ((==_iff _ v).0 p.0, same_eq _ false p.1)

-- RL and then RR turn the nine bits of the byte and the carry flag one way and back: both are as
-- before.
pub do_rr-do_rl :
    (v : ℕ) (s : Cpu)
    → v < 256
    → let (r, t) = do_rl v s in let (w, u) = do_rr r t in (w ≡ v) × (flag flag_c u ≡ flag flag_c s)
unfolding do_rl do_rr
do_rr-do_rl v s h =
    let c = flag flag_c s in
    let r = u8 (bit_or (v <<< 1) (if c then 1 else 0)) in
    let w = u8 (bit_or (r >>> 1) (if nonzero (v >>> 7) then 0x80 else 0)) in
    let there = rotated_carry r (nonzero (v >>> 7)) (omega arith) in
    let back = rotated_carry w (nonzero (bit_and r 1)) (omega arith) in
    rw there ((ring v c h).0, back ∙ (ring v c h).1)

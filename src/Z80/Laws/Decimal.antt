-- ===== src/Z80/Laws/Decimal.antt =====
-- DAA corrects a binary sum or difference of decimal operands.
use model_lib.Base.{ℕ, ◌+◌, ◌-◌, ◌*◌, ◌/◌, ◌%◌, ◌<◌, ◌≡◌, refl, Bool, true, false, ◌&&◌, arith}
use model_lib.Base.{◌==◌, from_bool, nonzero, bit_and, ap, ◌∙◌, all_below, all_below_sound}
use model_lib.Z80.Cpu.{Cpu, flag, flag_c}
use model_lib.Z80.Alu.{do_add, do_sub}
use model_lib.Z80.Main.Accumulator.{daa}
use model_lib.Z80.Step.{z80_init}

-- Two decimal digits in a byte.
abbrev pub to_bcd : ℕ → ℕ
to_bcd n = n / 10 * 16 + n % 10

abbrev start : ℕ → Cpu
start a = record z80_init { a = a }

-- A table over the two operands of two decimal digits, for both carries.
abbrev over_decimals : (ℕ → ℕ → Bool → Bool) → Bool
over_decimals p = all_below 100 (λ x. all_below 100 (λ y. p x y false && p x y true))

over_decimals_sound :
    (p : ℕ → ℕ → Bool → Bool) (x y : ℕ) (c : Bool)
    → over_decimals p ≡ true
    → x < 100
    → y < 100
    → p x y c ≡ true
over_decimals_sound p x y c h hx hy =
    split c (all_below_sound 100 _ (all_below_sound 100 _ h x hx) y hy)
  where
    split : (c : Bool) → (p x y false && p x y true) ≡ true → p x y c ≡ true
    split true k = ground arith
    split false k = ground arith

abbrev sum_fits : ℕ → ℕ → Bool → Bool
sum_fits x y c =
    let t = daa (do_add (to_bcd y) c (start (to_bcd x))) in
    let n = x + y + from_bool c in
    (t.a == to_bcd (n % 100)) && (from_bool (flag flag_c t) == n / 100)

sum_table : over_decimals sum_fits ≡ true
unfolding all_below daa do_add z80_init
sum_table = refl

abbrev difference_fits : ℕ → ℕ → Bool → Bool
difference_fits x y c =
    let t = daa (do_sub (to_bcd y) c (start (to_bcd x))) in
    let n = x + 100 - y - from_bool c in
    (t.a == to_bcd (n % 100)) && (from_bool (flag flag_c t) == 1 - n / 100)

difference_table : over_decimals difference_fits ≡ true
unfolding all_below daa do_sub z80_init
difference_table = refl

-- A and the flags after the two instructions depend on A alone.
sum_from_a :
    (v : ℕ) (c : Bool) (s : Cpu)
    → let t = daa (do_add v c s) in
      let t' = daa (do_add v c (start s.a)) in (t.a ≡ t'.a) × (t.f ≡ t'.f)
unfolding daa do_add
sum_from_a v c s = (refl, refl)

difference_from_a :
    (v : ℕ) (c : Bool) (s : Cpu)
    → let t = daa (do_sub v c s) in
      let t' = daa (do_sub v c (start s.a)) in (t.a ≡ t'.a) × (t.f ≡ t'.f)
unfolding daa do_sub
difference_from_a v c s = (refl, refl)

both : (a b n m : ℕ) → (a == b) && (n == m) ≡ true → (a ≡ b) × (n ≡ m)
both a b n m h = ground arith

-- ADD or ADC of two decimal bytes and then DAA: A holds the last two decimal digits of the sum,
-- the carry in counted, and the carry flag its hundreds digit.
pub daa-do_add :
    (x y : ℕ) (c : Bool) (s : Cpu)
    → x < 100
    → y < 100
    → s.a ≡ to_bcd x
    → let t = daa (do_add (to_bcd y) c s) in
      let n = x + y + from_bool c in
      (t.a ≡ to_bcd (n % 100)) × (from_bool (flag flag_c t) ≡ n / 100)
daa-do_add x y c s hx hy e =
    let at = λ (a : ℕ). daa (do_add (to_bcd y) c (start a)) in
    let n = x + y + from_bool c in
    let same = sum_from_a (to_bcd y) c s in
    let fits =
      both (at (to_bcd x)).a (to_bcd (n % 100)) (from_bool (flag flag_c (at (to_bcd x)))) (n / 100)
        (over_decimals_sound sum_fits x y c sum_table hx hy) in
    (
      same.0 ∙ ap (λ a. (at a).a) e ∙ fits.0,
      ap (λ f. from_bool (nonzero (bit_and f flag_c))) (same.1 ∙ ap (λ a. (at a).f) e) ∙ fits.1,
    )

-- SUB or SBC of two decimal bytes and then DAA: A holds the decimal difference, borrowed from 100
-- when the subtrahend with its borrow is greater, and the carry flag says whether it was.
pub daa-do_sub :
    (x y : ℕ) (c : Bool) (s : Cpu)
    → x < 100
    → y < 100
    → s.a ≡ to_bcd x
    → let t = daa (do_sub (to_bcd y) c s) in
      let n = x + 100 - y - from_bool c in
      (t.a ≡ to_bcd (n % 100)) × (from_bool (flag flag_c t) ≡ 1 - n / 100)
daa-do_sub x y c s hx hy e =
    let at = λ (a : ℕ). daa (do_sub (to_bcd y) c (start a)) in
    let n = x + 100 - y - from_bool c in
    let same = difference_from_a (to_bcd y) c s in
    let fits =
      both (at (to_bcd x)).a (to_bcd (n % 100)) (from_bool (flag flag_c (at (to_bcd x))))
        (1 - n / 100) (over_decimals_sound difference_fits x y c difference_table hx hy) in
    (
      same.0 ∙ ap (λ a. (at a).a) e ∙ fits.0,
      ap (λ f. from_bool (nonzero (bit_and f flag_c))) (same.1 ∙ ap (λ a. (at a).f) e) ∙ fits.1,
    )

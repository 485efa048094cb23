-- ===== src/Base/Bits.antt =====
-- The bit operations at variables: one equation for the lowest digit of each, and from it the
-- value of a single bit, which is arithmetic that the tactics read.
use Prim.Native.Nat.{min, max, digits, bitwise, differ}
use Prim.Native.Nat.{bit_and-bitwise, bit_or-bitwise, bit_xor-bitwise}
use Prim.Native.Nat.{ℕ, zero, suc, ◌+◌, ◌-◌, ◌*◌, ◌/◌, ◌%◌, ◌^◌, ◌≤◌, ◌<◌}
use Prim.Native.Nat.{bit_and, bit_or, bit_xor}
use native.Mathlib.Nat.{one-le-pow, mod-eq-sub-div-mul}
use native.Mathlib.Nat.{le_refl, pow-suc, mul_comm, div-div-eq-div-mul}
use native.Mathlib.Omega.{arith}
use mathlib.Core.Path.{◌≡◌, refl, sym, ap, ap₂, ◌∙◌}
use mathlib.Core.Logic.{◌⊎◌, inl, inr}

-- `digits` at a number no greater than its fuel does not depend on the fuel.
module _ (rest : ℕ → ℕ) (op : ℕ → ℕ → ℕ) where
  one_more : (n x y : ℕ) → x ≤ n → digits rest op (suc n) x y ≡ digits rest op n x y
  one_more zero zero y h = refl
  one_more (suc n) zero y h = refl
  one_more zero (suc x) y h = absurd (omega arith)
  one_more (suc n) (suc x) y h =
      ap (λ d. d * 2 + op (suc x % 2) (y % 2)) (one_more n (suc x / 2) (y / 2) (omega arith))

  any_more : (k n x y : ℕ) → x ≤ n → digits rest op (n + k) x y ≡ digits rest op n x y
  any_more zero n x y h = ap (λ m. digits rest op m x y) (omega arith)
  any_more (suc k) n x y h =
      let next : n + suc k ≡ suc (n + k) = omega arith in
      ap (λ m. digits rest op m x y) next ∙ one_more (n + k) x y (omega arith) ∙ any_more k n x y h

  lowest :
      (x y : ℕ)
      → bitwise rest op (suc x) y ≡ bitwise rest op (suc x / 2) (y / 2) * 2 + op (suc x % 2) (y % 2)
  lowest x y =
      let half = suc x / 2 in
      let fuel : x ≡ half + (x - half) = omega arith in
      ap (λ d. d * 2 + op (suc x % 2) (y % 2))
        (ap (λ m. digits rest op m half (y / 2)) fuel
          ∙ any_more (x - half) half half (y / 2) (omega arith))

pub bit_and_step : (x y : ℕ) → bit_and x y ≡ bit_and (x / 2) (y / 2) * 2 + min (x % 2) (y % 2)
bit_and_step x y =
    elim x as (λ n. bit_and n y ≡ bit_and (n / 2) (y / 2) * 2 + min (n % 2) (y % 2)) [
      | zero ↦ simp bit_and-bitwise (omega arith)
      | suc k ↦ simp bit_and-bitwise (lowest (λ d. 0) min k y)
    ]

pub bit_or_step : (x y : ℕ) → bit_or x y ≡ bit_or (x / 2) (y / 2) * 2 + max (x % 2) (y % 2)
bit_or_step x y = elim x as (λ n. bit_or n y ≡ bit_or (n / 2) (y / 2) * 2 + max (n % 2) (y % 2)) [
  | zero ↦ simp bit_or-bitwise (omega arith)
  | suc k ↦ simp bit_or-bitwise (lowest (λ d. d) max k y)
]

-- The digit of an exclusive or, as a sum.
differ_sum : (a b : ℕ) → differ (a % 2) (b % 2) ≡ (a + b) % 2
differ_sum a b = elim (two a) [
  | inl p ↦ elim (two b) [ inl q ↦ rw (p, q) (omega arith) | inr q ↦ rw (p, q) (omega arith) ]
  | inr p ↦ elim (two b) [ inl q ↦ rw (p, q) (omega arith) | inr q ↦ rw (p, q) (omega arith) ]
]
  where
    two : (n : ℕ) → (n % 2 ≡ 0) ⊎ (n % 2 ≡ 1)
    two n = omega arith

pub bit_xor_step : (a b : ℕ) → bit_xor a b ≡ bit_xor (a / 2) (b / 2) * 2 + (a + b) % 2
bit_xor_step zero b = simp bit_xor-bitwise (omega arith)
bit_xor_step (suc a) b =
    rw (← differ_sum (suc a) b) (simp bit_xor-bitwise (lowest (λ d. d) differ a b))

-- The value of bit `k`.
abbrev pub bit : ℕ → ℕ → ℕ
bit k x = x / 2 ^ k % 2

half-bit : (k x : ℕ) → bit (suc k) x ≡ bit k (x / 2)
half-bit k x = rw (pow-suc 2 k, mul_comm (2 ^ k) 2, div-div-eq-div-mul x 2 (2 ^ k))

pub bit-bit_and : (k a b : ℕ) → bit k (bit_and a b) ≡ min (bit k a) (bit k b)
bit-bit_and zero a b = omega (arith, bit_and_step a b)
bit-bit_and (suc k) a b =
    half-bit k (bit_and a b)
    ∙ ap (bit k) (omega (arith, bit_and_step a b))
    ∙ bit-bit_and k (a / 2) (b / 2)
    ∙ ap₂ min (sym (half-bit k a)) (sym (half-bit k b))

pub bit-bit_or : (k a b : ℕ) → bit k (bit_or a b) ≡ max (bit k a) (bit k b)
bit-bit_or zero a b = omega (arith, bit_or_step a b)
bit-bit_or (suc k) a b =
    half-bit k (bit_or a b)
    ∙ ap (bit k) (omega (arith, bit_or_step a b))
    ∙ bit-bit_or k (a / 2) (b / 2)
    ∙ ap₂ max (sym (half-bit k a)) (sym (half-bit k b))

pub bit-bit_xor : (k a b : ℕ) → bit k (bit_xor a b) ≡ (bit k a + bit k b) % 2
bit-bit_xor zero a b = omega (arith, bit_xor_step a b)
bit-bit_xor (suc k) a b =
    half-bit k (bit_xor a b)
    ∙ ap (bit k) (omega (arith, bit_xor_step a b))
    ∙ bit-bit_xor k (a / 2) (b / 2)
    ∙ ap₂ (λ x y. (x + y) % 2) (sym (half-bit k a)) (sym (half-bit k b))

pub bit_or-lt : (k a b : ℕ) → a < 2 ^ k → b < 2 ^ k → bit_or a b < 2 ^ k
bit_or-lt zero a b p q =
    let a_zero : a ≡ 0 = omega arith in
    let b_zero : b ≡ 0 = omega arith in rw (a_zero, b_zero) (omega arith)
bit_or-lt (suc k) a b p q =
    let half =
      bit_or-lt k (a / 2) (b / 2) (omega (arith, pow-suc 2 k)) (omega (arith, pow-suc 2 k)) in
    omega (arith, bit_or_step a b, pow-suc 2 k, half)

pub bit_xor-lt : (k a b : ℕ) → a < 2 ^ k → b < 2 ^ k → bit_xor a b < 2 ^ k
bit_xor-lt zero a b p q =
    let a_zero : a ≡ 0 = omega arith in
    let b_zero : b ≡ 0 = omega arith in rw (a_zero, b_zero) (omega arith)
bit_xor-lt (suc k) a b p q =
    let half =
      bit_xor-lt k (a / 2) (b / 2) (omega (arith, pow-suc 2 k)) (omega (arith, pow-suc 2 k)) in
    omega (arith, bit_xor_step a b, pow-suc 2 k, half)

bit_and-zero : (x : ℕ) → bit_and x 0 ≡ 0
bit_and-zero x = nothing_left x x (omega arith)
  where
    nothing_left : (fuel n : ℕ) → n ≤ fuel → bit_and n 0 ≡ 0
    nothing_left fuel zero h = refl
    nothing_left zero (suc n) h = absurd (omega arith)
    nothing_left (suc fuel) (suc n) h =
        bit_and_step (suc n) 0 ∙ rw (nothing_left fuel (suc n / 2) (omega arith)) (omega arith)

pub bit_and-le : (n a b : ℕ) → a ≤ n → bit_and a b ≤ a
bit_and-le n zero b h = rw (bit_and-bitwise 0 b) (omega arith)
bit_and-le zero (suc a) b h = absurd (omega arith)
bit_and-le (suc n) (suc a) b h =
    omega (arith, bit_and_step (suc a) b, bit_and-le n (suc a / 2) (b / 2) (omega arith))

-- A mask that is applied twice.
bit_and_again_fuel : (n a b : ℕ) → a ≤ n → bit_and (bit_and a b) b ≡ bit_and a b
bit_and_again_fuel n zero b h = rw (bit_and-bitwise 0 b) (rw (bit_and-bitwise 0 b) refl)
bit_and_again_fuel zero (suc a) b h = absurd (omega arith)
bit_and_again_fuel (suc n) (suc a) b h =
    let half : bit_and (suc a) b / 2 ≡ bit_and (suc a / 2) (b / 2) =
      omega (arith, bit_and_step (suc a) b) in
    bit_and_step (bit_and (suc a) b) b
    ∙ ap (λ m. bit_and m (b / 2) * 2 + min (bit_and (suc a) b % 2) (b % 2)) half
    ∙ omega (arith, bit_and_again_fuel n (suc a / 2) (b / 2) (omega arith), bit_and_step (suc a) b)

pub bit_and_again : (a b : ℕ) → bit_and (bit_and a b) b ≡ bit_and a b
bit_and_again a b = bit_and_again_fuel a a b (le_refl a)

-- A mask of one bit.
pub bit_and-pow : (k a : ℕ) → bit_and a (2 ^ k) ≡ bit k a * 2 ^ k
bit_and-pow zero a = omega (arith, bit_and_step a 1, bit_and-zero (a / 2))
bit_and-pow (suc k) a =
    let power : 2 ^ suc k ≡ 2 * 2 ^ k = omega (arith, pow-suc 2 k) in
    let half : 2 ^ suc k / 2 ≡ 2 ^ k = omega (arith, power) in
    bit_and_step a (2 ^ suc k)
    ∙ ap (λ m. bit_and (a / 2) m * 2 + min (a % 2) (2 ^ suc k % 2)) half
    ∙ ap (λ m. m * 2 + min (a % 2) (2 ^ suc k % 2)) (bit_and-pow k (a / 2))
    ∙ rw (half-bit k a, power) (omega arith)

mod_double : (m a : ℕ) → a / 2 % m * 2 + min (a % 2) 1 ≡ a % (2 * m)
mod_double m a = omega (
  arith,
  mod-eq-sub-div-mul a (2 * m),
  mod-eq-sub-div-mul (a / 2) m,
  div-div-eq-div-mul a 2 m,
  ap (λ (q : ℕ). q * m) (div-div-eq-div-mul a 2 m),
)

-- A mask of `k` low bits is the remainder by `2 ^ k`.
pub bit_and-mask : (k a : ℕ) → bit_and a (2 ^ k - 1) ≡ a % 2 ^ k
bit_and-mask zero a = rw bit_and-zero (omega arith)
bit_and-mask (suc k) a =
    let power : 2 ^ suc k ≡ 2 * 2 ^ k = omega (arith, pow-suc 2 k) in
    let half : (2 ^ suc k - 1) / 2 ≡ 2 ^ k - 1 = omega (arith, power, one-le-pow k 2) in
    let odd : (2 ^ suc k - 1) % 2 ≡ 1 = omega (arith, power, one-le-pow k 2) in
    bit_and_step a (2 ^ suc k - 1)
    ∙ ap₂ (λ m d. bit_and (a / 2) m * 2 + min (a % 2) d) half odd
    ∙ ap (λ m. m * 2 + min (a % 2) 1) (bit_and-mask k (a / 2))
    ∙ rw power (mod_double (2 ^ k) a)

bit_or-zero_fuel : (n a : ℕ) → a ≤ n → bit_or a 0 ≡ a
bit_or-zero_fuel n zero h = refl
bit_or-zero_fuel zero (suc a) h = absurd (omega arith)
bit_or-zero_fuel (suc n) (suc a) h =
    omega (arith, bit_or_step (suc a) 0, bit_or-zero_fuel n (suc a / 2) (omega arith))

-- A low field joined to a high one, in either order, is their sum.
pub bit_or-fields : (k q r : ℕ) → r < 2 ^ k → bit_or (q * 2 ^ k) r ≡ q * 2 ^ k + r
bit_or-fields zero q r h =
    let none_left : r ≡ 0 = omega arith in
    rw none_left (omega (arith, bit_or-zero_fuel (q * 1) (q * 1) (le_refl _)))
bit_or-fields (suc k) q r h =
    let power : 2 ^ suc k ≡ 2 * 2 ^ k = omega (arith, pow-suc 2 k) in
    let half : q * 2 ^ suc k / 2 ≡ q * 2 ^ k = rw power (omega arith) in
    let even : q * 2 ^ suc k % 2 ≡ 0 = rw power (omega arith) in
    bit_or_step (q * 2 ^ suc k) r
    ∙ ap₂ (λ m d. bit_or m (r / 2) * 2 + max d (r % 2)) half even
    ∙ ap (λ m. m * 2 + max 0 (r % 2)) (bit_or-fields k q (r / 2) (omega (arith, power)))
    ∙ rw power (omega arith)

bit_or_comm_fuel : (n a b : ℕ) → a ≤ n → b ≤ n → bit_or a b ≡ bit_or b a
bit_or_comm_fuel zero a b h k =
    let left : a ≡ 0 = omega arith in let right : b ≡ 0 = omega arith in rw (left, right)
bit_or_comm_fuel (suc n) a b h k = omega (
  arith,
  bit_or_step a b,
  bit_or_step b a,
  bit_or_comm_fuel n (a / 2) (b / 2) (omega arith) (omega arith),
)

pub bit_or_comm : (a b : ℕ) → bit_or a b ≡ bit_or b a
bit_or_comm a b = bit_or_comm_fuel (a + b) a b (omega arith) (omega arith)

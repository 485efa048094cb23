-- ===== src/Cartridge/Laws/Banks.antt =====
-- The selection of a bank in src/cartridge.c.
use model_lib.Base.{
  ℕ, zero, suc, ◌+◌, ◌-◌, ◌*◌, ◌%◌, ◌^◌, ◌<◌, ◌≤◌, ◌≡◌, inl, inr, ap, sym, ◌∙◌, arith, true, false,
  none, some,
}
use model_lib.Base.{ltb, leb, if◌then◌else◌, bit_and, Bool-cases}
use model_lib.Base.Bits.{bit_and-mask}
use native.Mathlib.Nat.{pow-suc, one-le-pow, pow-le-pow_right, mod-eq_of_lt, mod-lt}
use model_lib.Cartridge.Slot.{MsxCartridge}
use model_lib.Cartridge.Access.{bank_count, double_until, bank_mask, is_konami, selected_bank}

-- The doubling ends by its test, at the first power from `mask` on that reaches the count.
double_until_lem :
    (fuel mask count : ℕ)
    → 0 < mask
    → count ≤ mask + fuel
    → mask < 2 * count
    → (count ≤ double_until fuel mask count) × (double_until fuel mask count < 2 * count)
unfolding double_until
double_until_lem zero mask count hp h hl = (omega arith, hl)
double_until_lem (suc n) mask count hp h hl = elim (Bool-cases (ltb mask count)) [
  | inl e ↦ rw e (double_until_lem n (mask * 2) count (omega arith) (omega arith) (ground arith))
  | inr e ↦ rw e (ground arith, hl)
]

-- For a count that is not 0 the mask covers every bank and is below twice the count: the fuel is
-- enough for the loop to end by its own test.
pub bank_mask_lem :
    (count : ℕ) → 0 < count → (count ≤ bank_mask count + 1) × (bank_mask count + 1 < 2 * count)
unfolding bank_mask
bank_mask_lem count h =
    omega (arith, double_until_lem count 1 count (omega arith) (omega arith) (omega arith))

-- From a power of two the doubling reaches a greater one exactly.
double_until-pow : (fuel j d : ℕ) → d ≤ fuel → double_until fuel (2 ^ j) (2 ^ (d + j)) ≡ 2 ^ (d + j)
unfolding double_until
double_until-pow zero j d h = ap (λ n. 2 ^ n) (omega arith)
double_until-pow (suc n) j zero h =
    let there : ltb (2 ^ j) (2 ^ (0 + j)) ≡ false = ground arith in
    let same : j ≡ 0 + j = omega arith in rw there (ap (λ n. 2 ^ n) same)
double_until-pow (suc n) j (suc d) h =
    let up : suc d + j ≡ suc (d + j) = omega arith in
    let power : 2 ^ (suc d + j) ≡ 2 * 2 ^ (d + j) =
      omega (arith, ap (λ n. 2 ^ n) up, pow-suc 2 (d + j)) in
    let rises : 2 ^ j ≤ 2 ^ (d + j) =
      pow-le-pow_right {n = 2} (omega arith) {i = j} {j = d + j} (omega arith) in
    let below : ltb (2 ^ j) (2 ^ (suc d + j)) ≡ true = ground (arith, one-le-pow j 2) in
    let twice : 2 ^ j * 2 ≡ 2 ^ suc j = omega (arith, pow-suc 2 j) in
    let sum : suc d + j ≡ d + suc j = omega arith in
    rw (below, twice, sum) (double_until-pow n (suc j) d (omega arith))

below_pow : (k : ℕ) → k ≤ 2 ^ k
below_pow zero = omega arith
below_pow (suc k) = omega (arith, pow-suc 2 k, below_pow k, one-le-pow k 2)

bank_mask-pow : (k : ℕ) → bank_mask (2 ^ k) ≡ 2 ^ k - 1
unfolding bank_mask
bank_mask-pow k =
    let same : k + 0 ≡ k = omega arith in
    ap (λ n. n - 1)
      (ap (λ m. double_until (2 ^ k) 1 (2 ^ m)) (sym same)
        ∙ double_until-pow (2 ^ k) 0 k (below_pow k)
        ∙ ap (λ m. 2 ^ m) same)

picked : (n x b : ℕ) → (if ltb x n then some x else none) ≡ some b → b < n
picked n x b h = elim (Bool-cases (ltb x n)) [
  | inl e ↦
      let same : x ≡ b = ap (λ o. elim o [ none ↦ x | some z ↦ z ]) (rw e at h) in ground arith
  | inr e ↦ let nothing : none ≡ some b = rw e at h in ground arith
]

remainder : (k value : ℕ) → value < 2 ^ k → value % 2 ^ k ≡ value
remainder k value h = mod-eq_of_lt h

-- What bank a number selects: a bank that the data has, or none; the bank of that number where
-- there is one; and, for another mapper than Konami's on a number of banks that is a power of two,
-- always a bank, the remainder.
pub selected_bank_lem :
    (s : MsxCartridge) (value bank_size : ℕ)
    → let count = bank_count s bank_size in
      let selected = selected_bank s value bank_size in
      ((b : ℕ) → selected ≡ some b → b < count)
      × (value < count → selected ≡ some value)
      × ((k : ℕ) → count ≡ 2 ^ k → is_konami s.mapper ≡ false → selected ≡ some (value % 2 ^ k))
unfolding selected_bank
selected_bank_lem s value bank_size =
    let count = bank_count s bank_size in
    (
      λ b h. picked count _ b h,
      λ h.
          let direct : leb count value ≡ false = ground arith in
          let inside : ltb value count ≡ true = ground arith in rw (direct, inside),
      λ k e other. elim (Bool-cases (leb count value)) [
        | inl f ↦
            let mask : bit_and value (bank_mask (2 ^ k)) ≡ value % 2 ^ k =
              ap (bit_and value) (bank_mask-pow k) ∙ bit_and-mask k value in
            let inside : ltb (value % 2 ^ k) (2 ^ k) ≡ true =
              ground (arith, mod-lt value {m = 2 ^ k} (one-le-pow k 2 (omega arith))) in
            let over : leb (2 ^ k) value ≡ true = rw e at f in rw (e, over, other, mask, inside)
        | inr f ↦
            let under : leb (2 ^ k) value ≡ false = rw e at f in
            let inside : ltb value (2 ^ k) ≡ true = ground arith in
            rw (e, under, inside) (ap some (sym (remainder k value (ground arith))))
      ],
    )

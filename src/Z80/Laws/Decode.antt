-- ===== src/Z80/Laws/Decode.antt =====
-- Which opcodes the `switch` statements of src/z80.c cover.
use model_lib.Base.{
  ℕ, ◌+◌, ◌<◌, ◌≡◌, refl, ◌∙◌, sym, Bool, true, false, ◌||◌, List, [], ◌∷◌, ◌++◌, arith,
}
use model_lib.Base.{
  switch, one_of, ◌==◌, ==_iff, if◌then◌else◌, all_below, all_below_sound, Bool-cases, inl, inr,
}
use model_lib.Z80.Bus.{Bus, M}
use model_lib.Z80.Main.{main_op, main_cases, prefix_cases}
use model_lib.Z80.Main.Loads.{load_cases, count_cases}
use model_lib.Z80.Main.Accumulator.{accumulator_cases, relative_cases}
use model_lib.Z80.Main.Registers.{register_cases}
use model_lib.Z80.Main.Flow.{stack_cases, flow_cases}

-- The labels of a `switch`.
abbrev pub labels {ℓ} : {A : Type ℓ} → List (List ℕ × A) → List ℕ
labels [] = []
labels ((ls, m) ∷ cases) = ls ++ labels cases

abbrev pub occurrences : ℕ → List ℕ → ℕ
occurrences x [] = 0
occurrences x (l ∷ ls) = (if x == l then 1 else 0) + occurrences x ls

one_of-append : (x : ℕ) (ls ks : List ℕ) → one_of x (ls ++ ks) ≡ one_of x ls || one_of x ks
one_of-append x [] ks = refl
one_of-append x (l ∷ ls) ks = ground (arith, one_of-append x ls ks)

or-false : (a b : Bool) → a || b ≡ false → (a ≡ false) × (b ≡ false)
or-false a b h = ground arith

or-true : (a b : Bool) → a ≡ false → a || b ≡ true → b ≡ true
or-true a b e h = ground arith

one_of-occurrences : (x : ℕ) (ls : List ℕ) → occurrences x ls ≡ 1 → one_of x ls ≡ true
one_of-occurrences x [] h = absurd (omega arith)
one_of-occurrences x (l ∷ ls) h = ground (arith, one_of-occurrences x ls)

-- A value that no label names takes the default.
pub switch_default {ℓ} :
    {A : Type ℓ} (x : ℕ) (cases : List (List ℕ × A)) (d : A)
    → one_of x (labels cases) ≡ false
    → switch x cases d ≡ d
switch_default x [] d h = refl
switch_default x ((ls, m) ∷ cases) d h =
    let parts =
      or-false (one_of x ls) (one_of x (labels cases))
        (sym (one_of-append x ls (labels cases)) ∙ h) in
    rw parts.0 (switch_default x cases d parts.1)

-- A value that a label names does not reach the default.
pub switch_covered {ℓ} :
    {A : Type ℓ} (x : ℕ) (cases : List (List ℕ × A)) (d e : A)
    → one_of x (labels cases) ≡ true
    → switch x cases d ≡ switch x cases e
switch_covered x [] d e h = cc
switch_covered x ((ls, m) ∷ cases) d e h = elim (Bool-cases (one_of x ls)) [
  | inl listed ↦ rw listed
  | inr other ↦ rw other (
      switch_covered x cases d e (
        or-true (one_of x ls) (one_of x (labels cases)) other
          (sym (one_of-append x ls (labels cases)) ∙ h)))
]

module _ {C : Type 0} (bus : Bus C) where
  main_labels : List ℕ
  unfolding main_cases load_cases count_cases accumulator_cases relative_cases register_cases
      stack_cases flow_cases prefix_cases
  main_labels = labels (main_cases bus 0)

  main_labels_lem : (op : ℕ) → labels (main_cases bus op) ≡ main_labels
  unfolding main_labels
  main_labels_lem op = refl

  main_table : all_below 256 (λ x. occurrences x main_labels == 1) ≡ true
  unfolding main_labels all_below
  main_table = refl

  -- Every byte is the label of exactly one case of the main `switch`.
  pub main_cases_cover : (op : ℕ) → op < 256 → occurrences op (labels (main_cases bus op)) ≡ 1
  main_cases_cover op h =
      rw (main_labels_lem op) ((==_iff _ _).0 (all_below_sound 256 _ main_table op h))

  -- Of any two routines as `default`, the main `switch` runs neither for a byte: no opcode is
  -- unimplemented.
  pub main_op_complete :
      (op : ℕ) (unimplemented : M C ℕ)
      → op < 256
      → switch op (main_cases bus op) unimplemented ≡ main_op bus op
  unfolding main_op
  main_op_complete op unimplemented h =
      switch_covered op (main_cases bus op) unimplemented _
        (one_of-occurrences op _ (main_cases_cover op h))

-- ===== src/Keyboard/Laws/Text.antt =====
-- The characters of a text that the queue types, and the loop over the others.
use mathlib.Core.Path.{subst}
use model_lib.Base.{
  ℕ, zero, suc, ◌+◌, ◌<◌, ◌≡◌, inl, inr, refl, sym, ap, ◌∙◌, Bool, true, false, some, List, [], ◌∷◌,
  arith, if◌then◌else◌, Bool-cases, length, get_or,
}
use model_lib.Keyboard.Paste.{typable, skip_loop}

-- The characters of a text that the keyboard has.
unfoldable pub typed : List ℕ → List ℕ
typed [] = []
typed (c ∷ cs) = let rest = typed cs in if typable c then c ∷ rest else rest

unfoldable pub drop : ℕ → List ℕ → List ℕ
drop zero cs = cs
drop (suc n) [] = []
drop (suc n) (c ∷ cs) = drop n cs

drop_step :
    (cs : List ℕ) (off : ℕ) → off < length cs → drop off cs ≡ get_or cs off 0 ∷ drop (suc off) cs
unfolding drop
drop_step [] off lt = absurd (omega arith)
drop_step (c ∷ cs) zero lt = refl
drop_step (c ∷ cs) (suc off) lt = drop_step cs off (omega arith)

drop_all : (cs : List ℕ) → drop (length cs) cs ≡ []
unfolding drop
drop_all [] = refl
drop_all (c ∷ cs) = drop_all cs

module _ {A : Type 0} where
  pub taken : (b : Bool) (x y : A) → b ≡ true → (if b then x else y) ≡ x
  taken b x y e = rw e refl

  pub passed : (b : Bool) (x y : A) → b ≡ false → (if b then x else y) ≡ y
  passed b x y e = rw e refl

typed-typable :
    (cs : List ℕ) (off : ℕ)
    → off < length cs
    → typable (get_or cs off 0) ≡ true
    → typed (drop off cs) ≡ get_or cs off 0 ∷ typed (drop (suc off) cs)
unfolding typed
typed-typable cs off lt e = ap typed (drop_step cs off lt) ∙ taken (typable (get_or cs off 0)) _ _ e

typed-untypable :
    (cs : List ℕ) (off : ℕ)
    → off < length cs
    → typable (get_or cs off 0) ≡ false
    → typed (drop off cs) ≡ typed (drop (suc off) cs)
unfolding typed
typed-untypable cs off lt e =
    ap typed (drop_step cs off lt) ∙ passed (typable (get_or cs off 0)) _ _ e

-- Where the loop over other characters stops.
pub data Skipped (cs : List ℕ) (off to : ℕ) : Type 0 where
  found :
      to < length cs
      → typable (get_or cs to 0) ≡ true
      → typed (drop off cs) ≡ get_or cs to 0 ∷ typed (drop (suc to) cs)
      → Skipped cs off to
  ended : to ≡ length cs → typed (drop off cs) ≡ [] → Skipped cs off to

further :
    (cs : List ℕ) (off to : ℕ)
    → typed (drop off cs) ≡ typed (drop (suc off) cs)
    → Skipped cs (suc off) to
    → Skipped cs off to
further cs off to e (found lt t f) = found lt t (e ∙ f)
further cs off to e (ended end f) = ended end (e ∙ f)

pub typed_all : (cs : List ℕ) → typed (drop (length cs) cs) ≡ []
unfolding typed
typed_all cs = ap typed (drop_all cs)

pub skip_lem :
    (n : ℕ) (cs : List ℕ) (off : ℕ)
    → off + n ≡ length cs
    → Skipped cs off (skip_loop n (some cs) off)
unfolding skip_loop
skip_lem zero cs off e =
    let here : off ≡ length cs = omega arith in
    ended here (ap (λ k. typed (drop k cs)) here ∙ typed_all cs)
skip_lem (suc n) cs off e = elim (Bool-cases (typable (get_or cs off 0))) [
  | inl t ↦
      subst (Skipped cs off) (sym (taken (typable (get_or cs off 0)) _ _ t))
        (found (omega arith) t (typed-typable cs off (omega arith) t))
  | inr t ↦ subst (Skipped cs off) (sym (passed (typable (get_or cs off 0)) _ _ t)) (
      further cs off _ (typed-untypable cs off (omega arith) t)
        (skip_lem n cs (suc off) (omega arith)))
]

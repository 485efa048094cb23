-- ===== src/Cartridge/Laws/Names.antt =====
-- The names of the mappers in src/cartridge.c.
use model_lib.Base.{
  ℕ, ◌≡◌, ◌↔◌, inl, inr, refl, ap, ap₂, sym, ◌∙◌, arith, true, false, List, [], ◌∷◌, none, some,
}
use model_lib.Base.{◌==◌, ==_iff, Bool-cases}
use model_lib.Cartridge.Mapper.{
  MsxCartridgeMapper, mapper_auto, mapper_linear, mapper_ascii8, mapper_ascii16, mapper_konami,
  mapper_konami_scc, all_mappers,
}
use model_lib.Cartridge.Mapper.{
  msx_cartridge_mapper_name, to_lower, names_equal, named, msx_cartridge_mapper_from_name,
}

abbrev pub lowered : List ℕ → List ℕ
lowered [] = []
lowered (c ∷ cs) = to_lower c ∷ lowered cs

to_lower_twice : (c : ℕ) → to_lower (to_lower c) ≡ to_lower c
to_lower_twice c = ground arith

-- Only the lower-case form of the name counts.
names_equal-lowered : (l r : List ℕ) → names_equal (lowered l) r ≡ names_equal l r
unfolding names_equal
names_equal-lowered [] [] = refl
names_equal-lowered [] (r ∷ rs) = refl
names_equal-lowered (l ∷ ls) [] = refl
names_equal-lowered (l ∷ ls) (r ∷ rs) = rw (to_lower_twice l, names_equal-lowered ls rs)

names_equal_sound : (l r : List ℕ) → names_equal l r ≡ true → lowered l ≡ lowered r
unfolding names_equal
names_equal_sound [] [] h = refl
names_equal_sound [] (r ∷ rs) h = ground arith
names_equal_sound (l ∷ ls) [] h = ground arith
names_equal_sound (l ∷ ls) (r ∷ rs) h = elim (Bool-cases (to_lower l == to_lower r)) [
  | inl e ↦ ap₂ (λ x xs. x ∷ xs) ((==_iff _ _).0 e) (names_equal_sound ls rs (rw e at h))
  | inr e ↦ let absurd_equal : false ≡ true = rw e at h in ground arith
]

named-lowered : (n : List ℕ) (ms : List MsxCartridgeMapper) → named (lowered n) ms ≡ named n ms
named-lowered n [] = refl
named-lowered n (m ∷ ms) =
    rw (names_equal-lowered n (msx_cartridge_mapper_name m), named-lowered n ms)

some_inj : {A : Type 0} (x y d : A) → some x ≡ some y → x ≡ y
some_inj x y d h = ap (λ o. elim o [ none ↦ d | some z ↦ z ]) h

named_sound :
    (n : List ℕ) (ms : List MsxCartridgeMapper) (m : MsxCartridgeMapper)
    → named n ms ≡ some m
    → lowered n ≡ lowered (msx_cartridge_mapper_name m)
named_sound n [] m h = ground arith
named_sound n (x ∷ ms) m h = elim (Bool-cases (names_equal n (msx_cartridge_mapper_name x))) [
  | inl e ↦
      let same : x ≡ m = some_inj x m x (rw e at h) in
      names_equal_sound n (msx_cartridge_mapper_name x) e
      ∙ ap (λ k. lowered (msx_cartridge_mapper_name k)) same
  | inr e ↦ named_sound n ms m (rw e at h)
]

lowered-name :
    (m : MsxCartridgeMapper) → lowered (msx_cartridge_mapper_name m) ≡ msx_cartridge_mapper_name m
unfolding msx_cartridge_mapper_name
lowered-name mapper_auto = refl
lowered-name mapper_linear = refl
lowered-name mapper_ascii8 = refl
lowered-name mapper_ascii16 = refl
lowered-name mapper_konami = refl
lowered-name mapper_konami_scc = refl

from_name-name : (m : MsxCartridgeMapper) → named (msx_cartridge_mapper_name m) all_mappers ≡ some m
unfolding msx_cartridge_mapper_name names_equal
from_name-name mapper_auto = refl
from_name-name mapper_linear = refl
from_name-name mapper_ascii8 = refl
from_name-name mapper_ascii16 = refl
from_name-name mapper_konami = refl
from_name-name mapper_konami_scc = refl

-- A string names a mapper just when its lower-case form is that mapper's name, so that every name
-- reads back and no other string is taken.
pub msx_cartridge_mapper_from_name_lem :
    (n : List ℕ) (m : MsxCartridgeMapper)
    → (msx_cartridge_mapper_from_name n ≡ some m) ↔ (lowered n ≡ msx_cartridge_mapper_name m)
unfolding msx_cartridge_mapper_from_name
msx_cartridge_mapper_from_name_lem n m = (
  λ h. named_sound n all_mappers m h ∙ lowered-name m,
  λ h. sym (named-lowered n all_mappers) ∙ ap (λ x. named x all_mappers) h ∙ from_name-name m,
)

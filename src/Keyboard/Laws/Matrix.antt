-- ===== src/Keyboard/Laws/Matrix.antt =====
-- A key that is pressed and released leaves the matrix as it was.
use model_lib.Base.{
  ℕ, zero, suc, ◌-◌, ◌<◌, ◌≡◌, inl, inr, refl, sym, ap, ap₂, ◌∙◌, Bool, true, false, not, arith,
  ◌==◌, if◌then◌else◌, nonzero, ==_iff, Bool-cases, all_below, all_below_sound, u8, ◌<<<◌, bit_and,
  bit_or, not8,
}
use model_lib.Base.Bits.{bit}
use model_lib.Keyboard.Laws.Text.{taken, passed}
use model_lib.Keyboard.Matrix.{
  Keyboard, msx_keyboard_rows, msx_keyboard_columns, off_matrix, at_row, at_key, msx_keyboard_press,
  msx_keyboard_release,
}

-- A key's bit is clear if the key is pressed at least once, and set if not.
unfoldable pub IsAgreed : ℕ → ℕ → ℕ → Type 0
IsAgreed zero column bits = bit column bits ≡ 1
IsAgreed (suc n) column bits = bit column bits ≡ 0

abbrev restores : ℕ → ℕ → Bool
restores column x =
    let cleared = bit_and x (not8 (1 <<< column)) in
    if bit column x == 1 then bit_or cleared (u8 (1 <<< column)) == x else cleared == x

restores_table : all_below 8 (λ column. all_below 256 (restores column)) ≡ true
unfolding all_below
restores_table = refl

restored : (column x : ℕ) → column < 8 → x < 256 → restores column x ≡ true
restored column x c b =
    all_below_sound 256 (restores column)
      (all_below_sound 8 (λ k. all_below 256 (restores k)) restores_table column c) x b

-- What a press and a release make of a row of bits.
row_restored :
    (n column x : ℕ)
    → column < 8
    → x < 256
    → IsAgreed n column x
    → (if not (nonzero n)
        then bit_or (bit_and x (not8 (1 <<< column))) (u8 (1 <<< column))
        else bit_and x (not8 (1 <<< column)))
      ≡ x
unfolding IsAgreed
row_restored zero column x c b agreed =
    let test = (==_iff (bit column x) 1).1 agreed in
    (==_iff _ x).0 (sym (taken (bit column x == 1) _ _ test) ∙ restored column x c b)
row_restored (suc n) column x c b agreed =
    let test : (bit column x == 1) ≡ false = ap (λ v. v == 1) agreed in
    (==_iff _ x).0 (sym (passed (bit column x == 1) _ _ test) ∙ restored column x c b)

at_row-at_row :
    (row a v : ℕ) (rows : ℕ → ℕ) (r : ℕ)
    → v ≡ rows row
    → at_row row v (at_row row a rows) r ≡ rows r
at_row-at_row row a v rows r e = elim (Bool-cases (r == row)) [
  | inl f ↦ simp f (e ∙ ap rows (sym ((==_iff r row).0 f)))
  | inr f ↦ simp f refl
]

at_key-at_key :
    (row column a v : ℕ) (refs : ℕ → ℕ → ℕ) (r c : ℕ)
    → v ≡ refs row column
    → at_key row column v (at_key row column a refs) r c ≡ refs r c
at_key-at_key row column a v refs r c e = elim (Bool-cases (r == row)) [
  | inl f ↦ elim (Bool-cases (c == column)) [
    | inl g ↦ simp (f, g) (e ∙ ap₂ refs (sym ((==_iff r row).0 f)) (sym ((==_iff c column).0 g)))
    | inr g ↦ simp (f, g) refl
  ]
  | inr f ↦ simp f refl
]

pub inside :
    (row column : ℕ)
    → row < msx_keyboard_rows
    → column < msx_keyboard_columns
    → off_matrix row column ≡ false
unfolding off_matrix
inside row column r c = ground arith

-- A key of the matrix that is not pressed 255 times or more, where the bits agree with the counts.
pub record IsKey (msx : Keyboard) (row column : ℕ) : Type 0 where
  pub row_to : row < msx_keyboard_rows
  pub column_to : column < msx_keyboard_columns
  pub refs_to : msx.keyboard_refs row column < 255
  pub byte : msx.keyboard_rows row < 256
  pub agreed : IsAgreed (msx.keyboard_refs row column) column (msx.keyboard_rows row)

-- A key that is pressed and then released leaves every row and every count of presses as it was,
-- if its row's bit agrees with its count, which is below 255.
pub msx_keyboard_release-msx_keyboard_press :
    (msx : Keyboard) (row column r c : ℕ)
    → IsKey msx row column
    → let msx' = msx_keyboard_release (msx_keyboard_press msx row column) row column in
      (msx'.keyboard_rows r ≡ msx.keyboard_rows r)
      × (msx'.keyboard_refs r c ≡ msx.keyboard_refs r c)
unfolding msx_keyboard_press msx_keyboard_release
msx_keyboard_release-msx_keyboard_press msx row column r c k =
    let row_to = k.row_to in
    let column_to = k.column_to in
    let on : off_matrix row column ≡ false = inside row column row_to column_to in
    let row_self = (==_iff row row).1 refl in
    let column_self = (==_iff column column).1 refl in
    let refs_to = k.refs_to in
    let count = msx.keyboard_refs row column in
    let back : suc count - 1 ≡ count = omega arith in
    let unsaturated : (msx.keyboard_refs row column == 0xff) ≡ false = ground arith in
    (
      simp (on, row_self, column_self, unsaturated, back)
          (at_row-at_row row _ _ msx.keyboard_rows r (
            row_restored (msx.keyboard_refs row column) column (msx.keyboard_rows row) column_to
              k.byte k.agreed)),
      simp (on, row_self, column_self, unsaturated, back)
          (at_key-at_key row column _ _ msx.keyboard_refs r c refl),
    )

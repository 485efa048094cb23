-- ===== src/Keyboard/Laws/Keys.antt =====
-- The key of a character on the matrix, with the shift key where it needs one.
use model_lib.Base.{
  ℕ, ◌<◌, ◌≡◌, inl, inr, refl, ap, ◌∙◌, Bool, true, false, not, ◌&&◌, ◌||◌, arith, ltb, ◌==◌,
  if◌then◌else◌, ==_iff, Bool-cases, all_below, all_below_sound, ◌<<<◌, not8,
}
use model_lib.Base.Bits.{bit, bit-bit_and}
use model_lib.Keyboard.Matrix.{
  Keyboard, msx_keyboard_rows, msx_keyboard_columns, off_matrix, msx_keyboard_press,
  msx_keyboard_release,
}
use model_lib.Keyboard.Keymap.{PasteKey, keymap}
use model_lib.Keyboard.Paste.{shift_row, shift_column, typable, lift_shift}
use model_lib.Keyboard.Laws.Matrix.{IsKey, inside, msx_keyboard_release-msx_keyboard_press}

-- The bits of the matrix agree with the counts of presses, and no key has 255 presses.
abbrev pub IsQuiet : Keyboard → Type 0
IsQuiet msx =
    (row column : ℕ)
    → row < msx_keyboard_rows
    → column < msx_keyboard_columns
    → IsKey msx row column

-- The matrix with the key of a character down.
unfoldable pub with_key : PasteKey → Keyboard → Keyboard
with_key k msx =
    msx_keyboard_press (if k.shift then msx_keyboard_press msx shift_row shift_column else msx)
      k.row k.column

-- The bits of the key, and of the shift key if it needs that, read 0.
pub record IsDown (k : PasteKey) (msx : Keyboard) : Type 0 where
  pub key_bit : bit k.column (msx.keyboard_rows k.row) ≡ 0
  pub shift_bit : k.shift ≡ true → bit shift_column (msx.keyboard_rows shift_row) ≡ 0

-- A key of the matrix, outside the row of the shift key.
pub record IsPlain (k : PasteKey) : Type 0 where
  pub row_to : k.row < msx_keyboard_rows
  pub column_to : k.column < msx_keyboard_columns
  pub apart : (k.row == shift_row) ≡ false

abbrev plain : ℕ → Bool
plain c =
    let k = keymap c in
    not k.valid
    || (ltb k.row msx_keyboard_rows
        && ltb k.column msx_keyboard_columns
        && not (k.row == shift_row))

plain_table : all_below 128 plain ≡ true
unfolding all_below keymap
plain_table = refl

plain_key :
    (k : PasteKey)
    → k.valid ≡ true
    → (not k.valid
        || (ltb k.row msx_keyboard_rows
            && ltb k.column msx_keyboard_columns
            && not (k.row == shift_row)))
      ≡ true
    → IsPlain k
plain_key k v h = record { row_to = ground arith; column_to = ground arith; apart = ground arith }

pub typable-IsPlain : (c : ℕ) → typable c ≡ true → IsPlain (keymap c)
unfolding typable
typable-IsPlain c t =
    plain_key (keymap c) (ground arith) (all_below_sound 128 plain plain_table c (ground arith))

pub released_key :
    (msx : Keyboard) (row column : ℕ)
    → IsKey msx row column
    → msx_keyboard_release (msx_keyboard_press msx row column) row column ≡ msx
released_key msx row column k = λ i. record {
  keyboard_rows = λ r. (msx_keyboard_release-msx_keyboard_press msx row column r 0 k).0 i;
  keyboard_refs = λ r c. (msx_keyboard_release-msx_keyboard_press msx row column r c k).1 i;
}

-- A key in another row than the one that is pressed.
other_row :
    (msx : Keyboard) (row column r c : ℕ)
    → (r == row) ≡ false
    → IsKey msx r c
    → IsKey (msx_keyboard_press msx row column) r c
unfolding msx_keyboard_press
other_row msx row column r c e k = elim (Bool-cases (off_matrix row column)) [
  | inl f ↦ simp f k
  | inr f ↦ simp f (record {
    row_to = k.row_to;
    column_to = k.column_to;
    refs_to = simp e k.refs_to;
    byte = simp e k.byte;
    agreed = simp e k.agreed;
  })
]

shifted-IsKey :
    (shift : Bool) (msx : Keyboard) (k : PasteKey)
    → IsPlain k
    → IsQuiet msx
    → IsKey (if shift then msx_keyboard_press msx shift_row shift_column else msx) k.row k.column
shifted-IsKey true msx k p q =
    other_row msx shift_row shift_column k.row k.column p.apart
      (q k.row k.column p.row_to p.column_to)
shifted-IsKey false msx k p q = q k.row k.column p.row_to p.column_to

shift_lifted :
    (shift : Bool) (msx : Keyboard)
    → IsQuiet msx
    → lift_shift shift (if shift then msx_keyboard_press msx shift_row shift_column else msx) ≡ msx
shift_lifted true msx q =
    released_key msx shift_row shift_column (q shift_row shift_column (omega arith) (omega arith))
shift_lifted false msx q = refl

-- Lifting the key, and then the shift key, restores the matrix.
pub key_lifted :
    (k : PasteKey) (msx : Keyboard)
    → IsPlain k
    → IsQuiet msx
    → lift_shift k.shift (msx_keyboard_release (with_key k msx) k.row k.column) ≡ msx
unfolding with_key
key_lifted k msx p q =
    ap (lift_shift k.shift) (released_key _ k.row k.column (shifted-IsKey k.shift msx k p q))
    ∙ shift_lifted k.shift msx q

clears : ℕ → Bool
clears column = bit column (not8 (1 <<< column)) == 0

clears_table : all_below 8 clears ≡ true
unfolding all_below clears
clears_table = refl

pressed_bit :
    (msx : Keyboard) (row column : ℕ)
    → row < msx_keyboard_rows
    → column < msx_keyboard_columns
    → bit column ((msx_keyboard_press msx row column).keyboard_rows row) ≡ 0
unfolding msx_keyboard_press clears
pressed_bit msx row column r c =
    let on = inside row column r c in
    let self = (==_iff row row).1 refl in
    let cleared = (==_iff _ 0).0 (all_below_sound 8 clears clears_table column c) in
    simp (on, self)
      (bit-bit_and column (msx.keyboard_rows row) (not8 (1 <<< column)) ∙ omega (arith, cleared))

kept_bit :
    (msx : Keyboard) (row column r : ℕ)
    → (r == row) ≡ false
    → (msx_keyboard_press msx row column).keyboard_rows r ≡ msx.keyboard_rows r
unfolding msx_keyboard_press
kept_bit msx row column r e = elim (Bool-cases (off_matrix row column)) [
  | inl f ↦ simp f refl
  | inr f ↦ simp (f, e) refl
]

pub with_key-IsDown : (k : PasteKey) (msx : Keyboard) → IsPlain k → IsDown k (with_key k msx)
unfolding with_key
with_key-IsDown k msx p = record {
  key_bit = pressed_bit _ k.row k.column p.row_to p.column_to;
  shift_bit = λ s.
      let apart : (shift_row == k.row) ≡ false = ground (arith, p.apart) in
      rw s (
        ap (bit shift_column) (kept_bit _ k.row k.column shift_row apart)
        ∙ pressed_bit msx shift_row shift_column (omega arith) (omega arith));
}

-- ===== src/Keyboard/Matrix.antt =====
-- The keyboard of src/msx.c: a row of bits, clear where a key is down, and a count of the presses of
-- each key.
use model_lib.Base.{
  ℕ, suc, ◌-◌, Bool, not, ◌&&◌, ◌||◌, leb, ◌==◌, if◌then◌else◌, nonzero, u8, ◌<<<◌, bit_and, bit_or,
  not8,
}

abbrev pub msx_keyboard_rows : ℕ
msx_keyboard_rows = 11

abbrev pub msx_keyboard_columns : ℕ
msx_keyboard_columns = 8

-- The arrays are functions of row and column.
pub record Keyboard : Type 0 where
  pub keyboard_rows : ℕ → ℕ
  pub keyboard_refs : ℕ → ℕ → ℕ

unfoldable pub msx_keyboard_clear : Keyboard → Keyboard
msx_keyboard_clear msx = record { keyboard_rows = λ r. 0xff; keyboard_refs = λ r c. 0 }

unfoldable pub off_matrix : ℕ → ℕ → Bool
off_matrix row column = leb msx_keyboard_rows row || leb msx_keyboard_columns column

-- The array with another value at one place.
abbrev pub at_row : ℕ → ℕ → (ℕ → ℕ) → ℕ → ℕ
at_row row value rows r = if r == row then value else rows r

abbrev pub at_key : ℕ → ℕ → ℕ → (ℕ → ℕ → ℕ) → ℕ → ℕ → ℕ
at_key row column value refs r c = if r == row && c == column then value else refs r c

unfoldable pub msx_keyboard_press : Keyboard → ℕ → ℕ → Keyboard
unfolding off_matrix
msx_keyboard_press msx row column =
    let refs = msx.keyboard_refs row column in
    let more = if not (refs == 0xff) then suc refs else refs in
    if off_matrix row column then msx else (record {
      keyboard_refs = at_key row column more msx.keyboard_refs;
      keyboard_rows =
          at_row row (bit_and (msx.keyboard_rows row) (not8 (1 <<< column))) msx.keyboard_rows;
    })

unfoldable pub msx_keyboard_release : Keyboard → ℕ → ℕ → Keyboard
unfolding off_matrix
msx_keyboard_release msx row column =
    let refs = msx.keyboard_refs row column in
    let fewer = if nonzero refs then refs - 1 else refs in
    let bits = msx.keyboard_rows row in
    if off_matrix row column then msx else (record {
      keyboard_refs = at_key row column fewer msx.keyboard_refs;
      keyboard_rows =
          at_row row (if not (nonzero fewer) then bit_or bits (u8 (1 <<< column)) else bits)
            msx.keyboard_rows;
    })

unfoldable pub msx_keyboard_read_row : Keyboard → ℕ → ℕ
msx_keyboard_read_row msx row = if leb msx_keyboard_rows row then 0xff else msx.keyboard_rows row

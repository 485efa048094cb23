-- ===== src/Keyboard/Paste.antt =====
-- The paste queue of src/paste.c: a text, typed key by key, one tick per frame.
use model_lib.Base.{
  ℕ, zero, suc, ◌-◌, Bool, true, false, not, ◌&&◌, Option, none, some, List, ltb, if◌then◌else◌,
  nonzero, length, get_or,
}
use model_lib.Keyboard.Matrix.{Keyboard, msx_keyboard_press, msx_keyboard_release}
use model_lib.Keyboard.Keymap.{keymap}

abbrev pub shift_row : ℕ
shift_row = 6

abbrev pub shift_column : ℕ
shift_column = 0

abbrev pub initial_delay_frames : ℕ
initial_delay_frames = 3

abbrev pub hold_frames : ℕ
hold_frames = 2

abbrev pub gap_frames : ℕ
gap_frames = 1

-- The text is the list of its bytes, without the zero that ends it.
pub record Paste : Type 0 where
  pub text : Option (List ℕ)
  pub length : ℕ
  pub offset : ℕ
  pub timer : ℕ
  pub held_row : ℕ
  pub held_column : ℕ
  pub held : Bool
  pub held_shift : Bool

unfoldable pub paste_init : Paste
paste_init = record {
  text = none;
  length = 0;
  offset = 0;
  timer = 0;
  held_row = 0;
  held_column = 0;
  held = false;
  held_shift = false;
}

abbrev pub lift_shift : Bool → Keyboard → Keyboard
lift_shift held msx = if held then msx_keyboard_release msx shift_row shift_column else msx

unfoldable pub release_held : Paste → Keyboard → Paste × Keyboard
release_held paste msx = if not paste.held then (paste, msx) else (
  record paste { held = false; held_shift = false },
  lift_shift paste.held_shift (msx_keyboard_release msx paste.held_row paste.held_column),
)

unfoldable pub clear_text : Paste → Paste
clear_text paste = record paste { text = none; length = 0; offset = 0; timer = 0 }

unfoldable pub paste_cancel : Paste → Keyboard → Paste × Keyboard
unfolding release_held clear_text
paste_cancel paste msx =
    let (released, msx) = release_held paste msx in
    (record (clear_text released) { held = false; held_shift = false }, msx)

-- `allocated` is whether malloc answers.
unfoldable pub paste_start : Bool → Paste → Keyboard → List ℕ → (Paste × Keyboard) × Bool
unfolding paste_cancel
paste_start allocated paste msx text =
    let (cancelled, lifted) = paste_cancel paste msx in
    if not allocated then ((paste, msx), false) else (
      (
        record cancelled { text = some text; length = length text; timer = initial_delay_frames },
        lifted,
      ),
      true,
    )

-- `paste->text != NULL`.
abbrev pub has_text : Option (List ℕ) → Bool
has_text none = false
has_text (some cs) = true

-- The byte at an offset; only read where there is a text.
abbrev pub char_at : Option (List ℕ) → ℕ → ℕ
char_at none i = 0
char_at (some cs) i = get_or cs i 0

unfoldable pub paste_active : Paste → Bool
paste_active paste = has_text paste.text && ltb paste.offset paste.length

unfoldable pub typable : ℕ → Bool
typable c = ltb c 128 && (keymap c).valid

-- The loop over characters that no key types; its fuel is the number of characters left.
unfoldable pub skip_loop : ℕ → Option (List ℕ) → ℕ → ℕ
unfolding typable
skip_loop zero text offset = offset
skip_loop (suc n) text offset =
    let rest = skip_loop n text (suc offset) in
    if typable (char_at text offset) then offset else rest

-- The key of the character at the offset goes down.
unfoldable pub press_key : Paste → Keyboard → Paste × Keyboard
press_key paste msx =
    let k = keymap (char_at paste.text paste.offset) in
    let shifted = if k.shift then msx_keyboard_press msx shift_row shift_column else msx in
    (
      record paste {
        held_row = k.row;
        held_column = k.column;
        held_shift = k.shift;
        held = true;
        timer = hold_frames;
      },
      msx_keyboard_press shifted k.row k.column,
    )

-- The tick that lifts the key.
unfoldable pub lift_key : Paste → Keyboard → Paste × Keyboard
unfolding release_held paste_active clear_text
lift_key paste msx =
    let (released, msx) = release_held paste msx in
    let next : Paste = record released { offset = suc released.offset } in
    if not (paste_active next)
    then (clear_text next, msx)
    else (record next { timer = gap_frames }, msx)

-- The tick that looks for the next key.
unfoldable pub next_key : Paste → Keyboard → Paste × Keyboard
unfolding skip_loop paste_active clear_text press_key
next_key paste msx =
    let next : Paste = record paste {
      offset = skip_loop (paste.length - paste.offset) paste.text paste.offset;
    } in
    if not (paste_active next) then (clear_text next, msx) else press_key next msx

unfoldable pub paste_tick : Paste → Keyboard → Paste × Keyboard
unfolding paste_active lift_key next_key
paste_tick paste msx =
    if not (paste_active paste)
    then (paste, msx)
    else if nonzero paste.timer
    then (record paste { timer = paste.timer - 1 }, msx)
    else if paste.held
    then lift_key paste msx
    else next_key paste msx

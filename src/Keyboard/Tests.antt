-- ===== src/Keyboard/Tests.antt =====
-- Runs of the keyboard and of the queue, and the theorems at concrete inputs.
use model_lib.Base.{
  all_below, all_below_sound, ==_iff, ◌==◌, ℕ, ◌+◌, ◌*◌, ◌<◌, ◌≡◌, refl, true, List, [], ◌∷◌, arith,
  length, get_or,
}
use model_lib.Keyboard.Matrix.{
  Keyboard, msx_keyboard_press, msx_keyboard_release, msx_keyboard_read_row,
}
use model_lib.Keyboard.Paste.{typable, paste_init, paste_start, paste_tick}
use model_lib.Keyboard.Keymap.{keymap}
use model_lib.Keyboard.Laws.Matrix.{IsKey, IsAgreed, msx_keyboard_release-msx_keyboard_press}
use model_lib.Keyboard.Laws.Text.{typed}
use model_lib.Keyboard.Laws.Keys.{IsQuiet}
use model_lib.Base.Bits.{bit}
use model_lib.Keyboard.Laws.Typing.{Frames, ticks, paste_start-ticks}
use model_lib.Keyboard.Laws.Phases.{Finished}

abbrev no_keys : Keyboard
no_keys = record { keyboard_rows = λ r. 0xff; keyboard_refs = λ r c. 0 }

shift_place : IsKey no_keys 6 0
unfolding IsAgreed
shift_place = record {
  row_to = omega arith;
  column_to = omega arith;
  refs_to = omega arith;
  byte = omega arith;
  agreed = refl;
}

msx_keyboard_release-msx_keyboard_press_example :
    let msx' = msx_keyboard_release (msx_keyboard_press no_keys 6 0) 6 0 in
    (msx'.keyboard_rows 6 ≡ 0xff) × (msx'.keyboard_refs 6 0 ≡ 0)
msx_keyboard_release-msx_keyboard_press_example =
    msx_keyboard_release-msx_keyboard_press no_keys 6 0 6 0 shift_place

-- `A`, a byte that no key types, and `b`.
abbrev text : List ℕ
text = 0x41 ∷ 0xe9 ∷ 0x62 ∷ []

text_typed : typed text ≡ 0x41 ∷ 0x62 ∷ []
unfolding typed typable keymap
text_typed = refl

all_high : all_below 8 (λ column. bit column 0xff == 1) ≡ true
unfolding all_below
all_high = refl

no_keys-IsQuiet : IsQuiet (paste_start true paste_init no_keys text).0.1
unfolding IsAgreed paste_start paste_init
no_keys-IsQuiet row column r c = record {
  row_to = r;
  column_to = c;
  refs_to = omega arith;
  byte = omega arith;
  agreed =
      (==_iff (bit column 0xff) 1).0 (all_below_sound 8 (λ k. bit k 0xff == 1) all_high column c);
}

paste_start-ticks_example :
    let start = (paste_start true paste_init no_keys text).0 in
    ((i : ℕ) → i < length (typed text) → Frames start.1 (get_or (typed text) i 0) (4 + 5 * i) start)
    × Finished start.1 (ticks (4 + 5 * length (typed text)) start)
paste_start-ticks_example = paste_start-ticks paste_init no_keys text no_keys-IsQuiet

-- In the frame 4 the keys of `A` and the shift key are down.
capital_pressed :
    let keys = (ticks 4 (paste_start true paste_init no_keys text).0).1 in
    (msx_keyboard_read_row keys 2 ≡ 0xbf) × (msx_keyboard_read_row keys 6 ≡ 0xfe)
unfolding ticks paste_start paste_init paste_tick keymap typable msx_keyboard_press
    msx_keyboard_read_row
capital_pressed = (refl, refl)

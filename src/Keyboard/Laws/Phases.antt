-- ===== src/Keyboard/Laws/Phases.antt =====
-- What one tick does in each phase of the queue.
use mathlib.Core.Path.{subst}
use model_lib.Base.{
  ℕ, suc, ◌-◌, ◌<◌, ◌≡◌, inl, inr, refl, sym, ap, ◌∙◌, Bool, true, false, not, some, List, [], ◌∷◌,
  arith, ltb, if◌then◌else◌, nonzero, Bool-cases, length, get_or,
}
use model_lib.Keyboard.Matrix.{Keyboard, msx_keyboard_release}
use model_lib.Keyboard.Keymap.{keymap}
use model_lib.Keyboard.Paste.{
  Paste, clear_text, lift_shift, release_held, paste_active, skip_loop, press_key, lift_key,
  next_key, paste_tick, char_at,
}
use model_lib.Keyboard.Laws.Keys.{IsQuiet, IsPlain, with_key, typable-IsPlain, key_lifted}
use model_lib.Keyboard.Laws.Text.{
  typed, drop, taken, passed, Skipped, found, ended, skip_lem, typed_all,
}

-- The queue is between keys: `timer` frames are left, and `rest` is to be typed. The keyboard is
-- as it was before the first key.
pub record Waiting (rows : Keyboard) (cs : List ℕ) (timer : ℕ) (rest : List ℕ)
    (s : Paste × Keyboard) : Type 0 where
  pub text : s.0.text ≡ some cs
  pub length_is : s.0.length ≡ length cs
  pub inside : s.0.offset < length cs
  pub timer_is : s.0.timer ≡ timer
  pub released : s.0.held ≡ false
  pub left : typed (drop s.0.offset cs) ≡ rest
  pub keys : s.1 ≡ rows

-- The key of `c` is down, and the queue knows which it is.
pub record Holds (rows : Keyboard) (c : ℕ) (s : Paste × Keyboard) : Type 0 where
  pub held_is : s.0.held ≡ true
  pub row_is : s.0.held_row ≡ (keymap c).row
  pub column_is : s.0.held_column ≡ (keymap c).column
  pub shift_is : s.0.held_shift ≡ (keymap c).shift
  pub keys : s.1 ≡ with_key (keymap c) rows
  pub plain : IsPlain (keymap c)

pub record Pressing (rows : Keyboard) (cs : List ℕ) (timer c : ℕ) (rest : List ℕ)
    (s : Paste × Keyboard) : Type 0 where
  pub text : s.0.text ≡ some cs
  pub length_is : s.0.length ≡ length cs
  pub inside : s.0.offset < length cs
  pub timer_is : s.0.timer ≡ timer
  pub holds : Holds rows c s
  pub left : typed (drop (suc s.0.offset) cs) ≡ rest

-- No key is down.
pub record Released (rows : Keyboard) (s : Paste × Keyboard) : Type 0 where
  pub released : s.0.held ≡ false
  pub keys : s.1 ≡ rows

-- Nothing is left to type and no key is down.
pub record Finished (rows : Keyboard) (s : Paste × Keyboard) : Type 0 where
  pub inactive : paste_active s.0 ≡ false
  pub released : s.0.held ≡ false
  pub keys : s.1 ≡ rows

is_active :
    (cs : List ℕ) (p : Paste)
    → p.text ≡ some cs
    → p.length ≡ length cs
    → p.offset < length cs
    → paste_active p ≡ true
unfolding paste_active
is_active cs p t l lt =
    let within : ltb p.offset p.length ≡ true = ground arith in simp (t, within) refl

is_over :
    (cs : List ℕ) (p : Paste)
    → p.text ≡ some cs
    → p.length ≡ length cs
    → p.offset ≡ length cs
    → paste_active p ≡ false
unfolding paste_active
is_over cs p t l e = let past : ltb p.offset p.length ≡ false = ground arith in simp (t, past) refl

negated : (b : Bool) → b ≡ true → not b ≡ false
negated b e = ap not e

module _ (rows : Keyboard) (p : Paste) (msx : Keyboard) where
  tick_waits :
      paste_active p ≡ true
      → nonzero p.timer ≡ true
      → paste_tick p msx ≡ (record p { timer = p.timer - 1 }, msx)
  unfolding paste_tick
  tick_waits a t = passed (not (paste_active p)) _ _ (negated _ a) ∙ taken (nonzero p.timer) _ _ t

  tick_moves :
      paste_active p ≡ true
      → nonzero p.timer ≡ false
      → paste_tick p msx ≡ (if p.held then lift_key p msx else next_key p msx)
  unfolding paste_tick
  tick_moves a t = passed (not (paste_active p)) _ _ (negated _ a) ∙ passed (nonzero p.timer) _ _ t

  pub tick-Finished : Finished rows (p, msx) → Finished rows (paste_tick p msx)
  unfolding paste_tick
  tick-Finished f =
      let same = taken (not (paste_active p)) _ _ (ap not f.inactive) in
      subst (Finished rows) (sym same) f

  pub tick-Waiting :
      (cs : List ℕ) (t : ℕ) (rest : List ℕ)
      → Waiting rows cs (suc t) rest (p, msx)
      → Waiting rows cs t rest (paste_tick p msx)
  tick-Waiting cs t rest w =
      let same = tick_waits (is_active cs p w.text w.length_is w.inside) (ap nonzero w.timer_is) in
      subst (Waiting rows cs t rest) (sym same) (record {
        text = w.text;
        length_is = w.length_is;
        inside = w.inside;
        timer_is = omega (arith, w.timer_is);
        released = w.released;
        left = w.left;
        keys = w.keys;
      })

  pub tick-Pressing :
      (cs : List ℕ) (t c : ℕ) (rest : List ℕ)
      → Pressing rows cs (suc t) c rest (p, msx)
      → Pressing rows cs t c rest (paste_tick p msx)
  tick-Pressing cs t c rest w =
      let same = tick_waits (is_active cs p w.text w.length_is w.inside) (ap nonzero w.timer_is) in
      subst (Pressing rows cs t c rest) (sym same) (record {
        text = w.text;
        length_is = w.length_is;
        inside = w.inside;
        timer_is = omega (arith, w.timer_is);
        holds = record {
          held_is = w.holds.held_is;
          row_is = w.holds.row_is;
          column_is = w.holds.column_is;
          shift_is = w.holds.shift_is;
          keys = w.holds.keys;
          plain = w.holds.plain;
        };
        left = w.left;
      })

-- The queue after the key is up, one character further.
abbrev lifted : Paste → Paste
lifted p = record p { held = false; held_shift = false; offset = suc p.offset }

-- What a tick makes of a queue that has typed a key.
pub data Lifted (rows : Keyboard) (cs rest : List ℕ) (s : Paste × Keyboard) : Type 0 where
  waits : Waiting rows cs 1 rest s → Lifted rows cs rest s
  over : rest ≡ [] → Finished rows s → Lifted rows cs rest s

-- What a tick makes of a queue that looks for a key.
pub data Found (rows : Keyboard) (cs rest : List ℕ) (s : Paste × Keyboard) : Type 0 where
  presses :
      (c : ℕ) (more : List ℕ) → rest ≡ c ∷ more → Pressing rows cs 2 c more s → Found rows cs rest s
  over : rest ≡ [] → Finished rows s → Found rows cs rest s

module _ (rows : Keyboard) (p : Paste) (msx : Keyboard) where
  lift_after : Paste × Keyboard → Paste × Keyboard
  lift_after r =
      let next : Paste = record r.0 { offset = suc r.0.offset } in
      if not (paste_active next) then (clear_text next, r.1) else (record next { timer = 1 }, r.1)

  -- The matrix after the held key is up.
  abbrev up : Keyboard
  up = lift_shift p.held_shift (msx_keyboard_release msx p.held_row p.held_column)

  lift-key_up :
      p.held ≡ true
      → lift_key p msx ≡ (
          if not (paste_active (lifted p))
          then (clear_text (lifted p), up)
          else (record (lifted p) { timer = 1 }, up))
  unfolding lift_key lift_after release_held
  lift-key_up h = ap lift_after (passed (not p.held) (p, msx) _ (ap not h))

  up_is : (c : ℕ) → IsQuiet rows → Holds rows c (p, msx) → up ≡ rows
  up_is c q h =
      (λ i.
        lift_shift (h.shift_is i) (msx_keyboard_release (h.keys i) (h.row_is i) (h.column_is i)))
      ∙ key_lifted (keymap c) rows h.plain q

  pub tick_lifts :
      (cs rest : List ℕ) (c : ℕ)
      → IsQuiet rows
      → Pressing rows cs 0 c rest (p, msx)
      → Lifted rows cs rest (paste_tick p msx)
  unfolding clear_text paste_active
  tick_lifts cs rest c q w =
      let active = is_active cs p w.text w.length_is w.inside in
      let lift = lift-key_up w.holds.held_is in
      let restored = up_is c q w.holds in
      let moved : paste_tick p msx ≡ _ =
        tick_moves rows p msx active (ap nonzero w.timer_is)
        ∙ taken p.held (lift_key p msx) (next_key p msx) w.holds.held_is
        ∙ lift in
      elim (Bool-cases (ltb (suc p.offset) (length cs))) [
        | inl e ↦
            let same =
              moved
              ∙ passed (not (paste_active (lifted p))) _ _
                  (ap not (is_active cs (lifted p) w.text w.length_is (ground arith))) in
            subst (Lifted rows cs rest) (sym same) (
              waits (record {
                text = w.text;
                length_is = w.length_is;
                inside = ground arith;
                timer_is = refl;
                released = refl;
                left = w.left;
                keys = restored;
              }))
        | inr e ↦
            let inside = w.inside in
            let end : suc p.offset ≡ length cs = ground arith in
            let same =
              moved
              ∙ taken (not (paste_active (lifted p))) _ _
                  (ap not (is_over cs (lifted p) w.text w.length_is end)) in
            subst (Lifted rows cs rest) (sym same) (
              Lifted.over (sym w.left ∙ ap (λ k. typed (drop k cs)) end ∙ typed_all cs)
                (record { inactive = refl; released = refl; keys = restored }))
      ]

  -- The queue at the next character that a key types, or at the end.
  abbrev advanced : Paste
  advanced = record p { offset = skip_loop (p.length - p.offset) p.text p.offset }

  pub tick_finds :
      (cs rest : List ℕ) → Waiting rows cs 0 rest (p, msx) → Found rows cs rest (paste_tick p msx)
  unfolding clear_text paste_active next_key press_key with_key
  tick_finds cs rest w =
      let active = is_active cs p w.text w.length_is w.inside in
      let inside = w.inside in
      let length_is = w.length_is in
      let to = skip_loop (p.length - p.offset) p.text p.offset in
      let moved : paste_tick p msx ≡ _ =
        tick_moves rows p msx active (ap nonzero w.timer_is)
        ∙ passed p.held (lift_key p msx) (next_key p msx) w.released in
      let stop : Skipped cs p.offset to =
        subst (λ t. Skipped cs p.offset (skip_loop (p.length - p.offset) t p.offset)) (sym w.text)
          (skip_lem (p.length - p.offset) cs p.offset (omega arith)) in
      elim stop [
        | found lt t f ↦
            let same =
              moved
              ∙ passed (not (paste_active advanced)) _ _
                  (ap not (is_active cs advanced w.text w.length_is lt)) in
            let char : char_at p.text to ≡ get_or cs to 0 = ap (λ t. char_at t to) w.text in
            subst (Found rows cs rest) (sym same) (
              presses (get_or cs to 0) (typed (drop (suc to) cs)) (sym w.left ∙ f) (record {
                text = w.text;
                length_is = w.length_is;
                inside = lt;
                timer_is = refl;
                holds = record {
                  held_is = refl;
                  row_is = ap (λ c. (keymap c).row) char;
                  column_is = ap (λ c. (keymap c).column) char;
                  shift_is = ap (λ c. (keymap c).shift) char;
                  keys =
                      ap (λ c. with_key (keymap c) msx) char
                      ∙ ap (with_key (keymap (get_or cs to 0))) w.keys;
                  plain = typable-IsPlain (get_or cs to 0) t;
                };
                left = refl;
              }))
        | ended end f ↦
            let same =
              moved
              ∙ taken (not (paste_active advanced)) _ _
                  (ap not (is_over cs advanced w.text w.length_is end)) in
            subst (Found rows cs rest) (sym same) (
              Found.over (sym w.left ∙ f)
                (record { inactive = refl; released = w.released; keys = w.keys }))
      ]

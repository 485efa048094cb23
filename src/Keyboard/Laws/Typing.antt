-- ===== src/Keyboard/Laws/Typing.antt =====
-- What the queue types, and when: a key goes down every five frames.
use mathlib.Core.Path.{subst}
use model_lib.Base.{
  Bool-cases, inl, inr, ◌≤◌, ◌==◌, ℕ, zero, suc, ◌+◌, ◌*◌, ◌<◌, ◌≡◌, refl, sym, ap, true, List, [],
  ◌∷◌, arith, length, get_or,
}
use model_lib.Keyboard.Matrix.{Keyboard}
use model_lib.Keyboard.Paste.{
  Paste, paste_start, paste_cancel, clear_text, paste_active, paste_tick,
}
use model_lib.Keyboard.Keymap.{PasteKey, keymap}
use model_lib.Keyboard.Laws.Keys.{IsQuiet, IsDown, with_key, with_key-IsDown}
use model_lib.Keyboard.Laws.Text.{typed, drop}
use model_lib.Keyboard.Laws.Phases.{
  Released, Waiting, Holds, Pressing, Finished, Lifted, waits, Found, presses, tick_lifts,
  tick_finds, tick-Finished, tick-Waiting, tick-Pressing,
}

unfoldable pub ticks : ℕ → Paste × Keyboard → Paste × Keyboard
ticks zero s = s
ticks (suc n) s = let r = ticks n s in paste_tick r.0 r.1

-- The state after `n` ticks, counted in another way.
later :
    (P : Paste × Keyboard → Type 0) (n m : ℕ) (s : Paste × Keyboard)
    → n ≡ m
    → P (ticks m s)
    → P (ticks n s)
later P n m s e h = subst (λ k. P (ticks k s)) (sym e) h

module _ (rows : Keyboard) (cs : List ℕ) (s : Paste × Keyboard) (n : ℕ) where
  after_end : Finished rows (ticks n s) → Finished rows (ticks (suc n) s)
  unfolding ticks
  after_end f = tick-Finished rows (ticks n s).0 (ticks n s).1 f

  waited :
      (t : ℕ) (rest : List ℕ)
      → Waiting rows cs (suc t) rest (ticks n s)
      → Waiting rows cs t rest (ticks (suc n) s)
  unfolding ticks
  waited t rest w = tick-Waiting rows (ticks n s).0 (ticks n s).1 cs t rest w

  pressed :
      (t c : ℕ) (rest : List ℕ)
      → Pressing rows cs (suc t) c rest (ticks n s)
      → Pressing rows cs t c rest (ticks (suc n) s)
  unfolding ticks
  pressed t c rest w = tick-Pressing rows (ticks n s).0 (ticks n s).1 cs t c rest w

  look_up :
      (rest : List ℕ) → Waiting rows cs 0 rest (ticks n s) → Found rows cs rest (ticks (suc n) s)
  unfolding ticks
  look_up rest w = tick_finds rows (ticks n s).0 (ticks n s).1 cs rest w

  let_go :
      (rest : List ℕ) (c : ℕ)
      → IsQuiet rows
      → Pressing rows cs 0 c rest (ticks n s)
      → Lifted rows cs rest (ticks (suc n) s)
  unfolding ticks
  let_go rest c q w = tick_lifts rows (ticks n s).0 (ticks n s).1 cs rest c q w

-- `n + 5`, as five ticks count it.
abbrev five_more : ℕ → ℕ
five_more n = suc (suc (suc (suc (suc n))))

-- The key of `c` is held for the frames `n` to `n + 2` and no key is in the two frames after.
pub record Types (rows : Keyboard) (c n : ℕ) (s : Paste × Keyboard) : Type 0 where
  pub down : (j : ℕ) → j < 3 → Holds rows c (ticks (n + j) s)
  pub up : (j : ℕ) → 3 ≤ j → j < 5 → Released rows (ticks (n + j) s)

all_down :
    (rows : Keyboard) (c n : ℕ) (s : Paste × Keyboard)
    → Holds rows c (ticks n s)
    → Holds rows c (ticks (suc n) s)
    → Holds rows c (ticks (suc (suc n)) s)
    → (j : ℕ) → j < 3
    → Holds rows c (ticks (n + j) s)
all_down rows c n s a b d zero lt = later (Holds rows c) (n + 0) n s (omega arith) a
all_down rows c n s a b d (suc zero) lt = later (Holds rows c) (n + 1) (suc n) s (omega arith) b
all_down rows c n s a b d (suc (suc zero)) lt =
    later (Holds rows c) (n + 2) (suc (suc n)) s (omega arith) d
all_down rows c n s a b d (suc (suc (suc j))) lt = absurd (omega arith)

both_up :
    (rows : Keyboard) (n : ℕ) (s : Paste × Keyboard)
    → Released rows (ticks (suc (suc (suc n))) s)
    → Released rows (ticks (suc (suc (suc (suc n)))) s)
    → (j : ℕ) → 3 ≤ j
    → j < 5
    → Released rows (ticks (n + j) s)
both_up rows n s a b j from lt = elim (Bool-cases (j == 3)) [
  | inl e ↦ later (Released rows) (n + j) (suc (suc (suc n))) s (ground arith) a
  | inr e ↦ later (Released rows) (n + j) (suc (suc (suc (suc n)))) s (ground arith) b
]

finished-Released : (rows : Keyboard) (s : Paste × Keyboard) → Finished rows s → Released rows s
finished-Released rows s f = record { released = f.released; keys = f.keys }

waiting-Released :
    (rows : Keyboard) (cs : List ℕ) (t : ℕ) (rest : List ℕ) (s : Paste × Keyboard)
    → Waiting rows cs t rest s
    → Released rows s
waiting-Released rows cs t rest s w = record { released = w.released; keys = w.keys }

-- In five ticks from the one that presses a key, the key is typed, and after them the next key goes
-- down or all is typed.
round :
    (rows : Keyboard) (cs : List ℕ) (s : Paste × Keyboard) (n c : ℕ) (rest : List ℕ)
    → IsQuiet rows
    → Pressing rows cs 2 c rest (ticks n s)
    → Types rows c n s × Found rows cs rest (ticks (five_more n) s)
round rows cs s n c rest q w =
    let w1 = pressed rows cs s n 1 c rest w in
    let w2 = pressed rows cs s (suc n) 0 c rest w1 in
    let third = suc (suc (suc n)) in
    let down = all_down rows c n s w.holds w1.holds w2.holds in
    elim (let_go rows cs s (suc (suc n)) rest c q w2) [
      | waits u ↦
          let u1 = waited rows cs s third 0 rest u in
          (
            record {
              down = down;
              up =
                  both_up rows n s (waiting-Released rows cs 1 rest _ u)
                    (waiting-Released rows cs 0 rest _ u1);
            },
            look_up rows cs s (suc third) rest u1,
          )
      | Lifted.over e f ↦
          let f1 = after_end rows cs s third f in
          (
            record {
              down = down;
              up = both_up rows n s (finished-Released rows _ f) (finished-Released rows _ f1);
            },
            Found.over e (after_end rows cs s (suc third) f1),
          )
    ]

same_frame :
    (rows : Keyboard) (c n m : ℕ) (s : Paste × Keyboard)
    → n ≡ m
    → Types rows c m s
    → Types rows c n s
same_frame rows c n m s e t = subst (λ k. Types rows c k s) (sym e) t

-- The first key and those after it are all the keys.
each_typed :
    (rows : Keyboard) (rest : List ℕ) (s : Paste × Keyboard) (n c : ℕ) (more : List ℕ)
    → Types rows c n s
    → rest ≡ c ∷ more
    → ((i : ℕ) → i < length more → Types rows (get_or more i 0) (five_more n + 5 * i) s)
    → (i : ℕ) → i < length rest
    → Types rows (get_or rest i 0) (n + 5 * i) s
each_typed rows rest s n c more h same each zero lt =
    subst (λ r. Types rows (get_or r 0 0) (n + 5 * 0) s) (sym same)
      (same_frame rows c (n + 5 * 0) n s (omega arith) h)
each_typed rows rest s n c more h same each (suc j) lt =
    subst (λ r. Types rows (get_or r (suc j) 0) (n + 5 * suc j) s) (sym same)
      (same_frame rows (get_or more j 0) (n + 5 * suc j) (five_more n + 5 * j) s (omega arith)
        (each j (omega (arith, ap length same, lt))))

-- From the tick that looks for the first key on: each key in turn, and then the end.
run :
    (k : ℕ) (rows : Keyboard) (cs rest : List ℕ) (s : Paste × Keyboard) (n : ℕ)
    → IsQuiet rows
    → length rest ≡ k
    → Found rows cs rest (ticks n s)
    → ((i : ℕ) → i < length rest → Types rows (get_or rest i 0) (n + 5 * i) s)
      × Finished rows (ticks (n + 5 * length rest) s)
run zero rows cs rest s n q e (presses c more same w) = absurd (omega (arith, e, ap length same))
run zero rows cs rest s n q e (Found.over same f) = (
  λ i lt. absurd (omega (arith, e, lt)),
  later (Finished rows) (n + 5 * length rest) n s (omega (arith, e)) f,
)
run (suc k) rows cs rest s n q e (Found.over same f) = absurd (omega (arith, e, ap length same))
run (suc k) rows cs rest s n q e (presses c more same w) =
    let size = ap length same in
    let (now, next) = round rows cs s n c more q w in
    let (each, end) = run k rows cs more s (five_more n) q (omega (arith, e, size)) next in
    (
      each_typed rows rest s n c more now same each,
      later (Finished rows) (n + 5 * length rest) (five_more n + 5 * length more) s
          (omega (arith, size)) end,
    )

-- The tick after the initial delay looks for the first key.
first :
    (paste : Paste) (msx : Keyboard) (cs : List ℕ)
    → let s = (paste_start true paste msx cs).0 in Found s.1 cs (typed cs) (ticks 4 s)
unfolding ticks paste_start paste_cancel clear_text drop typed paste_active
first paste msx [] =
    let s = (paste_start true paste msx []).0 in
    let f : Finished s.1 (ticks 0 s) = record { inactive = refl; released = refl; keys = refl } in
    let step = after_end s.1 [] s in Found.over refl (step 3 (step 2 (step 1 (step 0 f))))
first paste msx (c ∷ cs) =
    let s = (paste_start true paste msx (c ∷ cs)).0 in
    let all = typed (c ∷ cs) in
    let w : Waiting s.1 (c ∷ cs) 3 all (ticks 0 s) = record {
      text = refl;
      length_is = refl;
      inside = omega arith;
      timer_is = refl;
      released = refl;
      left = refl;
      keys = refl;
    } in
    let step = waited s.1 (c ∷ cs) s in
    look_up s.1 (c ∷ cs) s 3 all (step 2 0 all (step 1 1 all (step 0 2 all w)))

-- What the machine sees of a key: its bits and the matrix, which is otherwise as it was.
pub record Shows (rows : Keyboard) (k : PasteKey) (msx : Keyboard) : Type 0 where
  pub bits : IsDown k msx
  pub matrix : msx ≡ with_key k rows

Holds-Shows :
    (rows : Keyboard) (c : ℕ) (s : Paste × Keyboard) → Holds rows c s → Shows rows (keymap c) s.1
Holds-Shows rows c s h = record {
  bits = subst (IsDown (keymap c)) (sym h.keys) (with_key-IsDown (keymap c) rows h.plain);
  matrix = h.keys;
}

-- The matrix in the frames of a character.
pub record Frames (rows : Keyboard) (c n : ℕ) (s : Paste × Keyboard) : Type 0 where
  pub down : (j : ℕ) → j < 3 → Shows rows (keymap c) (ticks (n + j) s).1
  pub up : (j : ℕ) → 3 ≤ j → j < 5 → (ticks (n + j) s).1 ≡ rows

-- On a keyboard whose bits agree with its counts, all below 255, when the text starts: a text whose
-- copy can be allocated is typed in order, without the characters that the keyboard does not have.
-- The bit of the key of the character `i` of these, and that of the shift key if it needs it, are
-- low in the frames `4 + 5 * i` to `6 + 5 * i`; in the two frames after, the matrix is as it was
-- before. Five frames after the last key went down nothing is left to type and the matrix is as it
-- was.
pub paste_start-ticks :
    (paste : Paste) (msx : Keyboard) (text : List ℕ)
    → IsQuiet (paste_start true paste msx text).0.1
    → let start = (paste_start true paste msx text).0 in
      ((i : ℕ)
        → i < length (typed text)
        → Frames start.1 (get_or (typed text) i 0) (4 + 5 * i) start)
      × Finished start.1 (ticks (4 + 5 * length (typed text)) start)
paste_start-ticks paste msx text q =
    let start = (paste_start true paste msx text).0 in
    let (each, end) =
      run (length (typed text)) start.1 text (typed text) start 4 q refl (first paste msx text) in
    (
      λ i lt. record {
        down = λ j h. Holds-Shows start.1 _ _ ((each i lt).down j h);
        up = λ j from h. ((each i lt).up j from h).keys;
      },
      end,
    )

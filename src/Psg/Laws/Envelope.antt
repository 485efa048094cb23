-- ===== src/Psg/Laws/Envelope.antt =====
-- The envelope of src/psg.c: the shapes that end, and where they end.
use model_lib.Base.{
  ℕ, zero, suc, ◌+◌, ◌%◌, ◌<◌, ◌≡◌, refl, ap, ◌∙◌, arith, Bool, true, false, ◌&&◌, ◌||◌,
}
use model_lib.Base.{ltb, ◌==◌, ==_iff, if◌then◌else◌, all_below, all_below_sound}
use model_lib.Psg.Chip.{Psg, restart_envelope}
use model_lib.Psg.Ticks.{raw_level, advance_envelope}

-- `n` steps of the envelope.
abbrev pub envelope_steps : ℕ → Psg → Psg
envelope_steps zero s = s
envelope_steps (suc n) s = envelope_steps n (advance_envelope s)

-- Without the continue bit, or with the hold bit, the shape ends.
abbrev pub ends : ℕ → Bool
ends shape = ltb shape 8 || (shape % 2 == 1)

-- The level at which it ends: the top for the shapes 11 and 13.
abbrev pub last_level : ℕ → ℕ
last_level shape = if (shape == 11) || (shape == 13) then 31 else 0

taken : {A : Type 0} (b : Bool) (x y : A) → b ≡ true → (if b then x else y) ≡ x
taken b x y h = ap (λ c. if c then x else y) h

stays : (s : Psg) → s.envelope_holding ≡ true → advance_envelope s ≡ s
unfolding advance_envelope
stays s h = taken s.envelope_holding s _ h

held : (n : ℕ) (s : Psg) → s.envelope_holding ≡ true → envelope_steps n s ≡ s
held zero s h = refl
held (suc n) s h = ap (envelope_steps n) (stays s h) ∙ held n s h

steps_after : (m n : ℕ) (s : Psg) → envelope_steps (m + n) s ≡ envelope_steps n (envelope_steps m s)
steps_after zero n s = let same : 0 + n ≡ n = omega arith in ap (λ k. envelope_steps k s) same
steps_after (suc m) n s =
    let next : suc m + n ≡ suc (m + n) = omega arith in
    ap (λ k. envelope_steps k s) next ∙ steps_after m n (advance_envelope s)

-- What 32 steps of a shape lead to, and 64 of one that goes on.
abbrev fits : ℕ → Psg → Bool
fits shape s =
    let t = envelope_steps 32 (restart_envelope shape s) in
    let u = envelope_steps 64 (restart_envelope shape s) in
    let start = restart_envelope shape s in
    if ends shape
    then t.envelope_holding && (raw_level t == last_level shape)
    else (u.envelope_step == start.envelope_step) && (u.envelope_attack == start.envelope_attack)

shapes_table : (s : Psg) → all_below 16 (λ shape. fits shape s) ≡ true
unfolding all_below restart_envelope advance_envelope
shapes_table s = refl

both : (a b : Bool) → a && b ≡ true → (a ≡ true) × (b ≡ true)
both a b h = ground arith

-- After a write of a shape that ends, the level is its last one from the 32nd step on, for ever;
-- after a write of one that does not, step and direction are after 64 steps as at the start.
pub restart_envelope_lem :
    (shape n : ℕ) (s : Psg)
    → shape < 16
    → let start = restart_envelope shape s in
      let u = envelope_steps 64 start in
      (ends shape ≡ true → raw_level (envelope_steps (32 + n) start) ≡ last_level shape)
      × (ends shape ≡ false
          → (u.envelope_step ≡ start.envelope_step) × (u.envelope_attack ≡ start.envelope_attack))
restart_envelope_lem shape n s h =
    let start = restart_envelope shape s in
    let t = envelope_steps 32 start in
    let u = envelope_steps 64 start in
    let known : fits shape s ≡ true = all_below_sound 16 (λ k. fits k s) (shapes_table s) shape h in
    (
      λ e.
          let p = both t.envelope_holding (raw_level t == last_level shape) (rw e at known) in
          ap raw_level (steps_after 32 n start ∙ held n t p.0) ∙ (==_iff _ _).0 p.1,
      λ e.
          let p =
            both (u.envelope_step == start.envelope_step)
              (u.envelope_attack == start.envelope_attack) (rw e at known) in
          ((==_iff _ _).0 p.0, (==_iff _ _).0 p.1),
    )

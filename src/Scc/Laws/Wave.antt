-- ===== src/Scc/Laws/Wave.antt =====
-- The waveform memory of src/scc.c: what a read gives after a write.
use model_lib.Base.{
  ℕ, ◌+◌, ◌/◌, ◌%◌, ◌<◌, ◌≤◌, ◌≡◌, ◌≢◌, inl, inr, ap, sym, ◌∙◌, arith, true, false, ◌&&◌, List, [],
}
use model_lib.Base.{
  ltb, leb, ◌==◌, ==_iff, if◌then◌else◌, bit_and, get_or, set, length, length-set, get_or-set_self,
  get_or-set_ne, Bool-cases,
}
use model_lib.Base.Bits.{bit_and-mask}
use model_lib.Scc.Chip.{Scc, SccMode, scc_mode_compatible, scc_mode_plus, set_sample}
use model_lib.Scc.Chip.{
  scc_read, scc_read_plus, scc_read_compatible, read_wave, write_wave, scc_write, scc_write_plus,
  scc_write_compatible,
}
use model_lib.Scc.Laws.Valid.{IsValid, Array-get_or, Wave}

-- The sample at a place of the memory.
abbrev pub sample : ℕ → ℕ → List (List ℕ) → ℕ
sample k i w = get_or (get_or w k []) i 0

sample-set_self :
    (k i v : ℕ) (w : List (List ℕ))
    → k < length w
    → i < length (get_or w k [])
    → sample k i (set_sample k i v w) ≡ v
sample-set_self k i v w hk hi =
    ap (λ x. get_or x i 0) (get_or-set_self w k (set (get_or w k []) i v) [] hk)
    ∙ get_or-set_self (get_or w k []) i v 0 hi

sample-set_ne :
    (k j i v : ℕ) (w : List (List ℕ)) → k ≢ j → get_or (set_sample k i v w) j [] ≡ get_or w j []
sample-set_ne k j i v w h = get_or-set_ne w k j (set (get_or w k []) i v) [] h

sample-set_place :
    (k i j v : ℕ) (w : List (List ℕ))
    → k < length w
    → i ≢ j
    → sample k j (set_sample k i v w) ≡ sample k j w
sample-set_place k i j v w hk h =
    ap (λ x. get_or x j 0) (get_or-set_self w k (set (get_or w k []) i v) [] hk)
    ∙ get_or-set_ne (get_or w k []) i j v 0 h

-- A write at one byte of the memory, read at another.
sample-set :
    (a b v : ℕ) (w : List (List ℕ))
    → a / 32 < length w
    → length (get_or w (a / 32) []) ≡ 32
    → sample (b / 32) (b % 32) (set_sample (a / 32) (a % 32) v w)
      ≡ (if a == b then v else sample (b / 32) (b % 32) w)
sample-set a b v w ha hl = elim (Bool-cases (a == b)) [
  | inl e ↦
      let same : b ≡ a = sym ((==_iff a b).0 e) in
      rw (e, same) (sample-set_self (a / 32) (a % 32) v w ha (omega (arith, hl)))
  | inr e ↦ elim (Bool-cases (a / 32 == b / 32)) [
    | inl f ↦
        let same : b / 32 ≡ a / 32 = sym ((==_iff (a / 32) (b / 32)).0 f) in
        rw (e, same) (sample-set_place (a / 32) (a % 32) (b % 32) v w ha (λ g. ground arith))
    | inr f ↦ rw e (
        ap (λ x. get_or x (b % 32) 0)
          (sample-set_ne (a / 32) (b / 32) (a % 32) v w (λ g. ground arith)))
  ]
]

mode_path :
    (s : Scc) (m : SccMode) {A : Type 0} (x y : A)
    → s.mode ≡ m
    → (elim s.mode [ scc_mode_plus ↦ x | scc_mode_compatible ↦ y ])
      ≡ (elim m [ scc_mode_plus ↦ x | scc_mode_compatible ↦ y ])
mode_path s m x y h = ap (λ k. elim k [ scc_mode_plus ↦ x | scc_mode_compatible ↦ y ]) h

masked : (a : ℕ) → bit_and a 0x1f ≡ a % 32
masked a = bit_and-mask 5 a

read_plus :
    (b : ℕ) (s : Scc)
    → s.mode ≡ scc_mode_plus
    → b < 0xa0
    → (scc_read b s).0 ≡ sample (b / 32) (b % 32) s.wave
unfolding scc_read scc_read_plus read_wave
read_plus b s m h =
    let inside : ltb b 0xa0 ≡ true = ground arith in
    ap (λ (q : ℕ × Scc). q.0) (mode_path s scc_mode_plus _ _ m)
    ∙ rw inside (ap (λ i. sample (b / 32) i s.wave) (masked b))

write_plus :
    (a v : ℕ) (s : Scc)
    → s.mode ≡ scc_mode_plus
    → a < 0xa0
    → scc_write a v s ≡ record s { wave = set_sample (a / 32) (a % 32) v s.wave }
unfolding scc_write scc_write_plus write_wave
write_plus a v s m h =
    let inside : ltb a 0xa0 ≡ true = ground arith in
    let channel : leb 5 (a / 32) ≡ false = ground arith in
    mode_path s scc_mode_plus _ _ m ∙ rw (inside, channel, m, masked a)

wave_length : (k : ℕ) (s : Scc) → IsValid s → k < 5 → length (get_or s.wave k []) ≡ 32
wave_length k s v h = (Array-get_or Wave 5 s.wave k [] v.wave_ok h).0

-- In the mode of the later chip, on a valid chip: a read of the waveform memory after a write to
-- it gives the byte written at the same address, and what it gave before at any other.
pub scc_read-scc_write_plus :
    (a b v : ℕ) (s : Scc)
    → IsValid s
    → s.mode ≡ scc_mode_plus
    → a < 0xa0
    → b < 0xa0
    → (scc_read b (scc_write a v s)).0 ≡ (if a == b then v else (scc_read b s).0)
scc_read-scc_write_plus a b v s valid m ha hb =
    rw (write_plus a v s m ha, read_plus b s m hb)
      (read_plus b (record s { wave = set_sample (a / 32) (a % 32) v s.wave }) m hb
        ∙ sample-set a b v s.wave (omega (arith, valid.wave_ok.0))
            (wave_length (a / 32) s valid (omega arith)))

read_compatible :
    (b : ℕ) (s : Scc)
    → s.mode ≡ scc_mode_compatible
    → b < 0x80
    → (scc_read b s).0 ≡ sample (b / 32) (b % 32) s.wave
unfolding scc_read scc_read_compatible read_wave
read_compatible b s m h =
    let inside : ltb b 0x80 ≡ true = ground arith in
    ap (λ (q : ℕ × Scc). q.0) (mode_path s scc_mode_compatible _ _ m)
    ∙ rw inside (ap (λ i. sample (b / 32) i s.wave) (masked b))

read_fifth :
    (c : ℕ) (s : Scc)
    → s.mode ≡ scc_mode_compatible
    → 0xa0 ≤ c
    → c < 0xc0
    → (scc_read c s).0 ≡ sample 4 (c % 32) s.wave
unfolding scc_read scc_read_compatible read_wave
read_fifth c s m h k =
    let past : ltb c 0x80 ≡ false = ground arith in
    let inside : leb 0xa0 c && ltb c 0xc0 ≡ true = ground arith in
    ap (λ (q : ℕ × Scc). q.0) (mode_path s scc_mode_compatible _ _ m)
    ∙ rw (past, inside) (ap (λ i. sample 4 i s.wave) (masked c))

-- The memory after a write in the compatible mode.
abbrev mirrored : ℕ → ℕ → List (List ℕ) → List (List ℕ)
mirrored a v w =
    let own = set_sample (a / 32) (a % 32) v w in
    if a / 32 == 3 then set_sample 4 (a % 32) v own else own

write_compatible :
    (a v : ℕ) (s : Scc)
    → s.mode ≡ scc_mode_compatible
    → a < 0x80
    → scc_write a v s ≡ record s { wave = mirrored a v s.wave }
unfolding scc_write scc_write_compatible write_wave
write_compatible a v s m h =
    let inside : ltb a 0x80 ≡ true = ground arith in
    let channel : leb 5 (a / 32) ≡ false = ground arith in
    mode_path s scc_mode_compatible _ _ m ∙ rw (inside, channel, m, masked a)

sample-mirrored :
    (a b v : ℕ) (s : Scc)
    → IsValid s
    → a < 0x80
    → b < 0x80
    → sample (b / 32) (b % 32) (mirrored a v s.wave)
      ≡ (if a == b then v else sample (b / 32) (b % 32) s.wave)
sample-mirrored a b v s valid ha hb =
    let own = set_sample (a / 32) (a % 32) v s.wave in
    let one =
      sample-set a b v s.wave (omega (arith, valid.wave_ok.0))
        (wave_length (a / 32) s valid (omega arith)) in
    elim (Bool-cases (a / 32 == 3)) [
      | inl e ↦ rw e (
          ap (λ x. get_or x (b % 32) 0) (sample-set_ne 4 (b / 32) (a % 32) v own (λ f. omega arith))
          ∙ one)
      | inr e ↦ rw e one
    ]

sample_fifth :
    (a c v : ℕ) (s : Scc)
    → IsValid s
    → a < 0x80
    → 0xa0 ≤ c
    → c < 0xc0
    → sample 4 (c % 32) (mirrored a v s.wave)
      ≡ (if a + 0x40 == c then v else sample 4 (c % 32) s.wave)
sample_fifth a c v s valid ha hl hu =
    let own = set_sample (a / 32) (a % 32) v s.wave in
    let kept : get_or own 4 [] ≡ get_or s.wave 4 [] =
      sample-set_ne (a / 32) 4 (a % 32) v s.wave (λ f. omega arith) in
    let own_lt : 4 < length own = omega (
      arith,
      valid.wave_ok.0,
      length-set s.wave (a / 32) (set (get_or s.wave (a / 32) []) (a % 32) v),
    ) in
    elim (Bool-cases (a / 32 == 3)) [
      | inl e ↦ elim (Bool-cases (a + 0x40 == c)) [
        | inl f ↦
            let same : c % 32 ≡ a % 32 = ground arith in
            rw (e, f, same)
              (sample-set_self 4 (a % 32) v own own_lt
                (omega (arith, ap length kept, wave_length 4 s valid (omega arith))))
        | inr f ↦
            rw (e, f)
              (sample-set_place 4 (a % 32) (c % 32) v own own_lt (λ g. ground arith)
                ∙ ap (λ x. get_or x (c % 32) 0) kept)
      ]
      | inr e ↦
          let apart : (a + 0x40 == c) ≡ false = ground arith in
          rw (e, apart) (ap (λ x. get_or x (c % 32) 0) kept)
    ]

-- In the compatible mode, on a valid chip, after a write to the memory of channels 1 to 4: a read
-- there gives the byte written at the same address and what it gave before at any other, and the
-- read-only memory of channel 5, at 0xa0 to 0xbf, follows channel 4, whose place is 0x40 below.
pub scc_read-scc_write_compatible :
    (a b c v : ℕ) (s : Scc)
    → IsValid s
    → s.mode ≡ scc_mode_compatible
    → a < 0x80
    → b < 0x80
    → 0xa0 ≤ c
    → c < 0xc0
    → let t = scc_write a v s in
      ((scc_read b t).0 ≡ (if a == b then v else (scc_read b s).0))
      × ((scc_read c t).0 ≡ (if a + 0x40 == c then v else (scc_read c s).0))
scc_read-scc_write_compatible a b c v s valid m ha hb hl hu =
    let t : Scc = record s { wave = mirrored a v s.wave } in
    rw (write_compatible a v s m ha, read_compatible b s m hb, read_fifth c s m hl hu)
      (
        read_compatible b t m hb ∙ sample-mirrored a b v s valid ha hb,
        read_fifth c t m hl hu ∙ sample_fifth a c v s valid ha hl hu,
      )

-- ===== src/Scc/Laws/Writes.antt =====
-- The writes of src/scc.c on a valid chip.
use model_lib.Base.{ℕ, ◌-◌, ◌*◌, ◌<◌, inl, inr, arith, List, []}
use model_lib.Base.{
  ltb, leb, bit_and, bit_or, ◌&&◌, nonzero, u16, ◌<<<◌, ◌>>>◌, get_or, set, Bool-cases,
}
use model_lib.Base.Bits.{bit_and-mask, bit_and-le, bit_or-lt}
use model_lib.Scc.Chip.{Scc, scc_mode_compatible, scc_mode_plus, scc_channels, set_sample, mirrors}
use model_lib.Scc.Chip.{
  write_wave, write_frequency_volume, scc_write, scc_write_plus, scc_write_compatible,
}
use model_lib.Scc.Laws.Valid.{
  IsValid, Array, Wave, Below, Array-set, Array-get_or, update_period-IsValid, write_deform-IsValid,
}

set_sample-ok :
    (k at value : ℕ) (w : List (List ℕ))
    → Array scc_channels Wave w
    → k < 5
    → value < 256
    → Array scc_channels Wave (set_sample k at value w)
set_sample-ok k at value w v hk h =
    Array-set Wave 5 w k (set (get_or w k []) at value) v
      (Array-set (Below 256) 32 (get_or w k []) at value (Array-get_or Wave 5 w k [] v hk) h)

with_wave :
    (w : List (List ℕ)) (s : Scc)
    → IsValid s
    → Array scc_channels Wave w
    → IsValid (record s { wave = w })
with_wave w s v h = record {
  wave_ok = h;
  period_ok = v.period_ok;
  original_ok = v.original_ok;
  counter_ok = v.counter_ok;
  position_ok = v.position_ok;
  volume_ok = v.volume_ok;
  enabled_ok = v.enabled_ok;
  deform_ok = v.deform_ok;
}

write_wave-IsValid :
    (k address value : ℕ) (s : Scc)
    → IsValid s
    → value < 256
    → IsValid (write_wave k address value s)
unfolding write_wave
write_wave-IsValid k address value s v h = elim (Bool-cases (leb 5 k)) [
  | inl e ↦ rw e v
  | inr e ↦
      let at = bit_and address 0x1f in
      let own = set_sample-ok k at value s.wave v.wave_ok (ground arith) h in
      elim (Bool-cases (mirrors s.mode k)) [
        | inl f ↦ rw (e, f) (with_wave _ s v (set_sample-ok 4 at value _ own (omega arith) h))
        | inr f ↦ rw (e, f) (with_wave _ s v own)
      ]
]

register_high :
    (old value : ℕ) → u16 (bit_or (bit_and old 0xff) (u16 (bit_and value 0x0f) <<< 8)) < 4096
register_high old value =
    let joined =
      bit_or-lt 12 (bit_and old 0xff) (u16 (bit_and value 0x0f) * 256)
        (omega (arith, bit_and-mask 8 old)) (omega (arith, bit_and-mask 4 value)) in
    omega (arith, joined)

register_low :
    (old value : ℕ) → old < 4096 → value < 256 → u16 (bit_or (bit_and old 0x0f00) value) < 4096
register_low old value ho hv =
    let kept = bit_and-le old old 0x0f00 (omega arith) in
    omega (arith, bit_or-lt 12 (bit_and old 0x0f00) value (omega (arith, kept)) (omega arith))

with_original :
    (k p : ℕ) (s : Scc)
    → IsValid s
    → p < 4096
    → IsValid (record s { original_period = set s.original_period k p })
with_original k p s v h = record {
  wave_ok = v.wave_ok;
  period_ok = v.period_ok;
  original_ok = Array-set (Below 4096) 5 s.original_period k p v.original_ok h;
  counter_ok = v.counter_ok;
  position_ok = v.position_ok;
  volume_ok = v.volume_ok;
  enabled_ok = v.enabled_ok;
  deform_ok = v.deform_ok;
}

with_volume :
    (k value : ℕ) (s : Scc)
    → IsValid s
    → IsValid (record s { volume = set s.volume k (bit_and value 0x0f) })
with_volume k value s v = record {
  wave_ok = v.wave_ok;
  period_ok = v.period_ok;
  original_ok = v.original_ok;
  counter_ok = v.counter_ok;
  position_ok = v.position_ok;
  volume_ok = Array-set (Below 16) 5 s.volume k _ v.volume_ok (omega (arith, bit_and-mask 4 value));
  enabled_ok = v.enabled_ok;
  deform_ok = v.deform_ok;
}

with_enabled :
    (value : ℕ) (s : Scc) → IsValid s → IsValid (record s { enabled = bit_and value 0x1f })
with_enabled value s v = record {
  wave_ok = v.wave_ok;
  period_ok = v.period_ok;
  original_ok = v.original_ok;
  counter_ok = v.counter_ok;
  position_ok = v.position_ok;
  volume_ok = v.volume_ok;
  enabled_ok = omega (arith, bit_and-mask 5 value);
  deform_ok = v.deform_ok;
}

write_frequency_volume-IsValid :
    (address value : ℕ) (s : Scc)
    → IsValid s
    → value < 256
    → IsValid (write_frequency_volume address value s)
unfolding write_frequency_volume
write_frequency_volume-IsValid address value s v h =
    let reg = bit_and address 0x0f in
    let old = get_or s.original_period (reg >>> 1) 0 in
    elim (Bool-cases (ltb reg 10)) [
      | inl e ↦
          let old_lt =
            Array-get_or (Below 4096) 5 s.original_period (reg >>> 1) 0 v.original_ok
              (ground arith) in
          elim (Bool-cases (nonzero (bit_and reg 1))) [
            | inl f ↦
                rw (e, f)
                  (update_period-IsValid (reg >>> 1) _
                    (with_original _ _ s v (register_high old value)))
            | inr f ↦
                rw (e, f)
                  (update_period-IsValid (reg >>> 1) _
                    (with_original _ _ s v (register_low old value old_lt h)))
          ]
      | inr e ↦ elim (Bool-cases (ltb reg 15)) [
        | inl f ↦ rw (e, f) (with_volume (reg - 10) value s v)
        | inr f ↦ rw (e, f) (with_enabled value s v)
      ]
    ]

write_plus-IsValid :
    (address value : ℕ) (s : Scc)
    → IsValid s
    → value < 256
    → IsValid (scc_write_plus address value s)
unfolding scc_write_plus
write_plus-IsValid address value s v h = elim (Bool-cases (ltb address 0xa0)) [
  | inl e ↦ rw e (write_wave-IsValid (address >>> 5) address value s v h)
  | inr e ↦ elim (Bool-cases (ltb address 0xc0)) [
    | inl f ↦ rw (e, f) (write_frequency_volume-IsValid address value s v h)
    | inr f ↦ elim (Bool-cases (ltb address 0xe0)) [
      | inl g ↦ rw (e, f, g) (write_deform-IsValid value s v h)
      | inr g ↦ rw (e, f, g) v
    ]
  ]
]

write_compatible-IsValid :
    (address value : ℕ) (s : Scc)
    → IsValid s
    → value < 256
    → IsValid (scc_write_compatible address value s)
unfolding scc_write_compatible
write_compatible-IsValid address value s v h = elim (Bool-cases (ltb address 0x80)) [
  | inl e ↦ rw e (write_wave-IsValid (address >>> 5) address value s v h)
  | inr e ↦ elim (Bool-cases (ltb address 0xa0)) [
    | inl f ↦ rw (e, f) (write_frequency_volume-IsValid address value s v h)
    | inr f ↦ elim (Bool-cases (leb 0xc0 address && ltb address 0xe0)) [
      | inl g ↦ rw (e, f, g) (write_deform-IsValid value s v h)
      | inr g ↦ rw (e, f, g) v
    ]
  ]
]

-- Every write of a byte leaves a valid chip valid, in both modes and at every address.
pub scc_write-IsValid :
    (address value : ℕ) (s : Scc) → IsValid s → value < 256 → IsValid (scc_write address value s)
unfolding scc_write
scc_write-IsValid address value s v h =
    elim s.mode
      as (λ m. IsValid (elim m [
        | scc_mode_plus ↦ scc_write_plus address value s
        | scc_mode_compatible ↦ scc_write_compatible address value s
      ])) [
        | scc_mode_plus ↦ write_plus-IsValid address value s v h
        | scc_mode_compatible ↦ write_compatible-IsValid address value s v h
      ]

-- ===== src/Scc/Laws/Reads.antt =====
-- The reads of src/scc.c on a valid chip.
use model_lib.Base.{ℕ, ◌<◌, inl, inr, arith, []}
use model_lib.Base.{ltb, leb, bit_and, ◌&&◌, ◌>>>◌, get_or, Bool-cases}
use model_lib.Base.Bits.{bit_and-mask}
use model_lib.Scc.Chip.{Scc, scc_mode_compatible, scc_mode_plus}
use model_lib.Scc.Chip.{scc_read, scc_read_plus, scc_read_compatible, read_wave}
use model_lib.Scc.Laws.Valid.{IsValid, Wave, Below, Array-get_or, with_deform}

-- The byte that a read gives and the chip it leaves.
abbrev Fine : ℕ × Scc → Type 0
Fine q = (q.0 < 256) × IsValid q.1

read_wave-lt : (k address : ℕ) (s : Scc) → IsValid s → k < 5 → read_wave k address s < 256
unfolding read_wave
read_wave-lt k address s v h =
    let w = Array-get_or Wave 5 s.wave k [] v.wave_ok h in
    Array-get_or (Below 256) 32 (get_or s.wave k []) (bit_and address 0x1f) 0 w
      (omega (arith, bit_and-mask 5 address))

read_plus-Fine : (address : ℕ) (s : Scc) → IsValid s → Fine (scc_read_plus address s)
unfolding scc_read_plus
read_plus-Fine address s v = elim (Bool-cases (ltb address 0xa0)) [
  | inl e ↦ rw e (read_wave-lt (address >>> 5) address s v (ground arith), v)
  | inr e ↦ elim (Bool-cases (leb 0xc0 address && ltb address 0xe0)) [
    | inl f ↦ rw (e, f) (omega arith, with_deform 0xff s v (omega arith))
    | inr f ↦ rw (e, f) (omega arith, v)
  ]
]

read_compatible-Fine : (address : ℕ) (s : Scc) → IsValid s → Fine (scc_read_compatible address s)
unfolding scc_read_compatible
read_compatible-Fine address s v = elim (Bool-cases (ltb address 0x80)) [
  | inl e ↦ rw e (read_wave-lt (address >>> 5) address s v (ground arith), v)
  | inr e ↦ elim (Bool-cases (leb 0xa0 address && ltb address 0xc0)) [
    | inl f ↦ rw (e, f) (read_wave-lt 4 address s v (omega arith), v)
    | inr f ↦ elim (Bool-cases (leb 0xc0 address && ltb address 0xe0)) [
      | inl g ↦ rw (e, f, g) (omega arith, with_deform 0xff s v (omega arith))
      | inr g ↦ rw (e, f, g) (omega arith, v)
    ]
  ]
]

-- Every read of a valid chip gives a byte and leaves a valid chip.
pub scc_read-IsValid :
    (address : ℕ) (s : Scc)
    → IsValid s
    → ((scc_read address s).0 < 256) × IsValid (scc_read address s).1
unfolding scc_read
scc_read-IsValid address s v =
    elim s.mode
      as (λ m. Fine (elim m [
        | scc_mode_plus ↦ scc_read_plus address s
        | scc_mode_compatible ↦ scc_read_compatible address s
      ])) [
        | scc_mode_plus ↦ read_plus-Fine address s v
        | scc_mode_compatible ↦ read_compatible-Fine address s v
      ]

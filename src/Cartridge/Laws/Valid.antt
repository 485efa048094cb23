-- ===== src/Cartridge/Laws/Valid.antt =====
-- The invariant of a cartridge of src/cartridge.c, and that all its operations keep it.
use model_lib.Base.{
  ℕ, ◌-◌, ◌/◌, ◌<◌, ◌≤◌, ◌≡◌, inl, inr, refl, ◌∙◌, arith, Bool, true, false, not, ◌&&◌, ◌||◌, List,
  Option, none, some,
}
use model_lib.Base.{
  ltb, leb, ◌==◌, if◌then◌else◌, nonzero, bit_and, u8, length, length-set, set, All, All-set,
  Bool-cases, ℤ, negsuc,
}
use model_lib.Scc.Chip.{Scc, scc_reset, scc_mode_compatible}
use model_lib.Scc.Laws.Valid.{scc_init-IsValid, scc_reset-IsValid, scc_set_mode-IsValid}
use model_lib.Scc.Laws.Valid
use model_lib.Scc.Laws.Reads.{scc_read-IsValid}
use model_lib.Scc.Laws.Writes.{scc_write-IsValid}
use model_lib.Scc.Laws.Rendering.{scc_render-IsValid}
use model_lib.Cartridge.Mapper.{
  MsxCartridgeMapper, mapper_auto, mapper_linear, mapper_ascii8, mapper_ascii16, mapper_konami,
  mapper_konami_scc, mapper_of, mapper_max_size,
}
use model_lib.Cartridge.Slot.{
  MsxCartridge, msx_cartridge_init, first_banks, msx_cartridge_reset, resolve, install_as,
  msx_cartridge_install, remap, msx_cartridge_set_mapper,
}
use model_lib.Cartridge.Access.{
  at_scc, read_konami_scc, read_mapped, msx_cartridge_read, write_ascii8, write_ascii16,
  write_konami, select_konami_scc, write_konami_scc, write_mapped, msx_cartridge_write, mix_scc,
  is_konami_scc, msx_cartridge_render_audio,
}

-- Four banks, each a byte; a valid sound chip; and data that is not empty and that the mapper can
-- hold.
pub record IsValid (s : MsxCartridge) : Type 0 where
  pub banks_count : length s.banks ≡ 4
  pub banks_lt : All (λ b. b < 256) s.banks
  pub chip : Valid.IsValid s.scc
  pub fits :
      s.loaded ≡ true → (0 < length s.data_bytes) × (length s.data_bytes ≤ mapper_max_size s.mapper)

pub msx_cartridge_init-IsValid : IsValid msx_cartridge_init
unfolding msx_cartridge_init
msx_cartridge_init-IsValid = record {
  banks_count = refl;
  banks_lt = omega arith;
  chip = scc_init-IsValid;
  fits = λ h. ground arith;
}

first_banks-ok :
    (m : MsxCartridgeMapper) → (length (first_banks m) ≡ 4) × All (λ b. b < 256) (first_banks m)
unfolding first_banks
first_banks-ok mapper_auto = omega arith
first_banks-ok mapper_linear = omega arith
first_banks-ok mapper_ascii8 = omega arith
first_banks-ok mapper_ascii16 = omega arith
first_banks-ok mapper_konami = omega arith
first_banks-ok mapper_konami_scc = omega arith

-- A reset repairs the banks, and needs of the rest only the chip and the size.
pub reset_repairs :
    (s : MsxCartridge)
    → Valid.IsValid s.scc
    → (s.loaded ≡ true
        → (0 < length s.data_bytes) × (length s.data_bytes ≤ mapper_max_size s.mapper))
    → IsValid (msx_cartridge_reset s)
unfolding msx_cartridge_reset
reset_repairs s v h = record {
  banks_count = (first_banks-ok s.mapper).0;
  banks_lt = (first_banks-ok s.mapper).1;
  chip = scc_set_mode-IsValid scc_mode_compatible (scc_reset s.scc) (scc_reset-IsValid s.scc v);
  fits = h;
}

install_as-IsValid :
    (allocated : Bool) (bytes : List ℕ) (m : MsxCartridgeMapper) (s : MsxCartridge)
    → IsValid s
    → 0 < length bytes
    → IsValid (install_as allocated bytes m s).1
unfolding install_as
install_as-IsValid allocated bytes m s v h =
    elim (Bool-cases (ltb (mapper_max_size (resolve m bytes)) (length bytes) || not allocated)) [
      | inl e ↦ rw e v
      | inr e ↦ rw e (reset_repairs _ v.chip (λ l. (h, ground arith)))
    ]

if_result_valid :
    {A : Type 0} (b : Bool) (p q : A × MsxCartridge)
    → (b ≡ true → IsValid p.1)
    → (b ≡ false → IsValid q.1)
    → IsValid (if b then p else q).1
if_result_valid true p q v w = v refl
if_result_valid false p q v w = w refl

mapper_or_error :
    (o : Option MsxCartridgeMapper) (f : MsxCartridgeMapper → ℤ × MsxCartridge) (s : MsxCartridge)
    → IsValid s
    → ((m : MsxCartridgeMapper) → IsValid (f m).1)
    → IsValid (elim o as (λ _. ℤ × MsxCartridge) [ none ↦ (negsuc 0, s) | some m ↦ f m ]).1
mapper_or_error none f s v h = v
mapper_or_error (some m) f s v h = h m

pub msx_cartridge_install-IsValid :
    (allocated : Bool) (bytes : List ℕ) (code : ℕ) (s : MsxCartridge)
    → IsValid s
    → IsValid (msx_cartridge_install allocated bytes code s).1
unfolding msx_cartridge_install
msx_cartridge_install-IsValid allocated bytes code s v =
    elim (Bool-cases ((length bytes == 0) || ltb 0x400000 (length bytes))) [
      | inl e ↦ rw e v
      | inr e ↦ rw e (
          mapper_or_error (mapper_of code) (λ m. install_as allocated bytes m s) s v
            (λ m. install_as-IsValid allocated bytes m s v (ground arith)))
    ]

remap-IsValid :
    (m : MsxCartridgeMapper) (s : MsxCartridge)
    → IsValid s
    → s.loaded ≡ true
    → IsValid (remap m s).1
unfolding remap
remap-IsValid m s v l =
    let size = length s.data_bytes in
    elim (Bool-cases (ltb (mapper_max_size (resolve m s.data_bytes)) size)) [
      | inl e ↦ rw e v
      | inr e ↦ rw e (reset_repairs _ v.chip (λ _. ((v.fits l).0, ground arith)))
    ]

pub msx_cartridge_set_mapper-IsValid :
    (code : ℕ) (s : MsxCartridge) → IsValid s → IsValid (msx_cartridge_set_mapper code s).1
unfolding msx_cartridge_set_mapper
msx_cartridge_set_mapper-IsValid code s v =
    if_result_valid s.loaded _ _
      (λ l. mapper_or_error (mapper_of code) (λ m. remap m s) s v (λ m. remap-IsValid m s v l))
      (λ l. v)

with_chip :
    (c : Scc) (s : MsxCartridge) → IsValid s → Valid.IsValid c → IsValid (record s { scc = c })
with_chip c s v h = record {
  banks_count = v.banks_count;
  banks_lt = v.banks_lt;
  chip = h;
  fits = v.fits;
}

with_bank :
    (window value : ℕ) (on : Bool) (s : MsxCartridge)
    → IsValid s
    → value < 256
    → IsValid (record s { banks = set s.banks window value; scc_enabled = on })
with_bank window value on s v h = record {
  banks_count = length-set s.banks window value ∙ v.banks_count;
  banks_lt = All-set (λ b. b < 256) s.banks window value v.banks_lt h;
  chip = v.chip;
  fits = v.fits;
}

if_valid : (b : Bool) (s t : MsxCartridge) → IsValid s → IsValid t → IsValid (if b then s else t)
if_valid true s t v w = v
if_valid false s t v w = w

write_konami_scc-IsValid :
    (address value : ℕ) (s : MsxCartridge)
    → IsValid s
    → value < 256
    → IsValid (write_konami_scc address value s)
unfolding write_konami_scc select_konami_scc
write_konami_scc-IsValid address value s v h =
    let window = (address - 0x4000) / 0x2000 in
    if_valid (at_scc address s) _ _
      (with_chip _ s v (scc_write-IsValid (u8 address) value s.scc v.chip h))
      (if_valid (leb 0x5000 address && ltb address 0xc000 && (bit_and address 0x1800 == 0x1000)) _ s
        (if_valid (window == 2) _ _ (with_bank window value (bit_and value 0x3f == 0x3f) s v h)
          (with_bank window value s.scc_enabled s v h))
        v)

write_mapped-IsValid :
    (address value : ℕ) (m : MsxCartridgeMapper) (s : MsxCartridge)
    → IsValid s
    → value < 256
    → IsValid (write_mapped address value m s)
unfolding write_mapped write_ascii8 write_ascii16 write_konami
write_mapped-IsValid address value mapper_auto s v h = v
write_mapped-IsValid address value mapper_linear s v h = v
write_mapped-IsValid address value mapper_ascii8 s v h =
    if_valid (leb 0x6000 address && ltb address 0x8000) _ s (with_bank _ value s.scc_enabled s v h)
      v
write_mapped-IsValid address value mapper_ascii16 s v h =
    if_valid (leb 0x6000 address && ltb address 0x7800 && not (nonzero (bit_and address 0x0800))) _
      s (with_bank _ value s.scc_enabled s v h) v
write_mapped-IsValid address value mapper_konami s v h =
    if_valid (leb 0x6000 address && ltb address 0xc000) _ s (with_bank _ value s.scc_enabled s v h)
      v
write_mapped-IsValid address value mapper_konami_scc s v h =
    write_konami_scc-IsValid address value s v h

pub msx_cartridge_write-IsValid :
    (address value : ℕ) (s : MsxCartridge)
    → IsValid s
    → value < 256
    → IsValid (msx_cartridge_write address value s)
unfolding msx_cartridge_write
msx_cartridge_write-IsValid address value s v h =
    if_valid s.loaded _ s (write_mapped-IsValid address value s.mapper s v h) v

read_mapped-IsValid :
    (address : ℕ) (m : MsxCartridgeMapper) (s : MsxCartridge)
    → IsValid s
    → IsValid (read_mapped address m s).1
unfolding read_mapped read_konami_scc
read_mapped-IsValid address mapper_auto s v = v
read_mapped-IsValid address mapper_linear s v = v
read_mapped-IsValid address mapper_ascii8 s v = v
read_mapped-IsValid address mapper_ascii16 s v = v
read_mapped-IsValid address mapper_konami s v = v
read_mapped-IsValid address mapper_konami_scc s v = elim (Bool-cases (at_scc address s)) [
  | inl e ↦ rw e (with_chip _ s v (scc_read-IsValid (u8 address) s.scc v.chip).1)
  | inr e ↦ rw e v
]

pub msx_cartridge_read-IsValid :
    (address : ℕ) (s : MsxCartridge) → IsValid s → IsValid (msx_cartridge_read address s).1
unfolding msx_cartridge_read
msx_cartridge_read-IsValid address s v =
    if_result_valid s.loaded _ _ (λ l. read_mapped-IsValid address s.mapper s v) (λ l. v)

pub msx_cartridge_render_audio-IsValid :
    (sample : ℤ) (clock_hz rate : ℕ) (s : MsxCartridge)
    → IsValid s
    → IsValid (msx_cartridge_render_audio sample clock_hz rate s).1
unfolding msx_cartridge_render_audio mix_scc
msx_cartridge_render_audio-IsValid sample clock_hz rate s v =
    elim (Bool-cases (s.loaded && is_konami_scc s.mapper)) [
      | inl e ↦ rw e (with_chip _ s v (scc_render-IsValid 1 clock_hz rate s.scc v.chip))
      | inr e ↦ rw e v
    ]

-- ===== src/Ata/Laws/Safety.antt =====
-- What the guest cannot do to an image, and what IDENTIFY tells it of its size.
use model_lib.Base.{
  switch-All, ℕ, ◌+◌, ◌*◌, ◌^◌, ◌≡◌, inl, inr, refl, ap, ◌∙◌, Bool, true, false, Option, none, some,
  arith, ltb, if◌then◌else◌, Bool-cases, u8, u16, ◌<<<◌, ◌>>>◌, bit_and, bit_or,
}
use model_lib.Base.Bits.{bit_or-fields, bit_or_comm}
use model_lib.Ata.Device.{
  Disk, Host, AtaDevice, read_only, is_some, ata_signature, ata_host_error, ata_set_error,
  ata_error_abrt,
}
use model_lib.Ata.Sectors.{read_sector, load_from, ata_load_sector, store_to, ata_store_sector}
use model_lib.Ata.Identify.{
  identify_sectors, identify_cylinders, identify_fixed, identify_sizes, ata_build_identify,
}
use model_lib.Ata.Mount.{ata_flush}
use model_lib.Ata.Execute.{
  begin_command, ready, set_range, start_read, native_max, identify, set_features, write_sectors,
  read_sectors, finish_flush, flush_cache, commands, ata_execute,
}
use model_lib.Ata.Transfer.{
  put_word, one_less, end_read, next_sector, rewind, after_store, sector_read, ata_read_data,
  ata_write_data, registers, ata_write_register,
}
use model_lib.Ata.Laws.Words.{word_at}

set_error_image : (ata : AtaDevice) (code : ℕ) → (ata_set_error ata code).image ≡ ata.image
unfolding ata_set_error
set_error_image ata code = refl

module _ (host : Host) where
  load_from_image :
      (o : Option Disk) (ata : AtaDevice) (lba : ℕ) → (load_from host o ata lba).0.image ≡ ata.image
  unfolding load_from read_sector ata_set_error ata_host_error
  load_from_image none ata lba = refl
  load_from_image (some disk) ata lba = ground arith

  load_sector_image :
      (ata : AtaDevice) (lba : ℕ) → (ata_load_sector host ata lba).0.image ≡ ata.image
  unfolding ata_load_sector
  load_sector_image ata lba = load_from_image ata.image ata lba

  store_to_image :
      (o : Option Disk) (ata : AtaDevice) (lba : ℕ)
      → ata.image_mode ≡ read_only
      → ((store_to host o ata lba).0.image ≡ ata.image) × ((store_to host o ata lba).1 ≡ false)
  unfolding store_to ata_set_error
  store_to_image none ata lba h = (refl, refl)
  store_to_image (some disk) ata lba h = ground arith

  started_image : (r : AtaDevice × Bool) → (start_read r).image ≡ r.0.image
  unfolding start_read
  started_image (ata, true) = refl
  started_image (ata, false) = refl

  rewind_image : (r : AtaDevice × Bool) → (rewind r).image ≡ r.0.image
  unfolding rewind
  rewind_image (ata, true) = refl
  rewind_image (ata, false) = refl

  finish_image : (r : AtaDevice × Bool) → (finish_flush host r).image ≡ r.0.image
  unfolding finish_flush ready ata_set_error
  finish_image (ata, true) = refl
  finish_image (ata, false) = refl

  flush_image : (ata : AtaDevice) → (ata_flush host ata).0.image ≡ ata.image
  unfolding ata_flush ata_host_error
  flush_image ata = ground arith

  execute_image : (ata : AtaDevice) (command : ℕ) → (ata_execute host ata command).image ≡ ata.image
  unfolding ata_execute begin_command ready read_sectors write_sectors set_range flush_cache
      ata_signature identify ata_build_identify set_features native_max ata_set_error
  execute_image ata command =
      let begun = begin_command ata command in
      let loaded = ata_load_sector host (set_range begun) (set_range begun).transfer_lba in
      switch-All (λ a. a.image ≡ ata.image) command (commands host begun)
        (ata_set_error begun ata_error_abrt)
        (
          (λ e. refl),
          (
            (λ e. ground (
              arith,
              started_image loaded,
              load_sector_image (set_range begun) (set_range begun).transfer_lba,
            )),
            (
              (λ e. ground arith),
              (
                (λ e. finish_image (ata_flush host begun) ∙ flush_image begun),
                ((λ e. refl), ((λ e. refl), ((λ e. ground arith), ((λ e. refl), tt)))),
              ),
            ),
          ),
        )
        refl

  write_register_image :
      (ata : AtaDevice) (reg value : ℕ) → (ata_write_register host ata reg value).image ≡ ata.image
  unfolding ata_write_register
  write_register_image ata reg value = elim (Bool-cases (is_some ata.image)) [
    | inr e ↦ simp e refl
    | inl e ↦ simp e (
        switch-All (λ a. a.image ≡ ata.image) (bit_and reg 0x0f) (registers host ata value) ata
          (
            (λ t. refl),
            (
              (λ t. refl),
              (
                (λ t. refl),
                ((λ t. refl), ((λ t. refl), ((λ t. refl), ((λ t. execute_image ata value), tt)))),
              ),
            ),
          )
          refl)
  ]

  sector_read_image : (ata : AtaDevice) → (sector_read host ata).image ≡ ata.image
  unfolding sector_read one_less end_read next_sector
  sector_read_image ata =
      let next = next_sector (one_less ata) in
      let loaded = ata_load_sector host next next.transfer_lba in
      ground (arith, rewind_image loaded, load_sector_image next next.transfer_lba)

  read_data_image : (ata : AtaDevice) → (ata_read_data host ata).0.image ≡ ata.image
  unfolding ata_read_data
  read_data_image ata =
      ground (arith, sector_read_image (record ata { transfer_offset = ata.transfer_offset + 2 }))

  store_refused : (r : AtaDevice × Bool) → r.1 ≡ false → (after_store r).image ≡ r.0.image
  unfolding after_store
  store_refused (ata, true) h = absurd (cc)
  store_refused (ata, false) h = refl

  write_data_image :
      (ata : AtaDevice) (value : ℕ)
      → ata.image_mode ≡ read_only
      → (ata_write_data host ata value).image ≡ ata.image
  unfolding ata_write_data put_word ata_store_sector
  write_data_image ata value h =
      let moved = put_word ata value in
      let refused = store_to_image ata.image moved moved.transfer_lba h in
      ground
        (arith, refused, store_refused (store_to host ata.image moved moved.transfer_lba) refused.1)

-- An image that is mounted read only is the same after every read or write of the data port and
-- every write of a register, whatever the command and whatever the host answers.
pub read_only_image_kept :
    (host : Host) (ata : AtaDevice) (word reg value : ℕ)
    → ata.image_mode ≡ read_only
    → ((ata_read_data host ata).0.image ≡ ata.image)
      × ((ata_write_data host ata word).image ≡ ata.image)
      × ((ata_write_register host ata reg value).image ≡ ata.image)
read_only_image_kept host ata word reg value h = (
  read_data_image host ata,
  write_data_image host ata word h,
  write_register_image host ata reg value,
)

low_word : (v : ℕ) → bit_or (u8 (u16 v)) (u16 (u8 (u16 v >>> 8) <<< 8)) ≡ u16 v
low_word v =
    let high : u16 (u8 (u16 v >>> 8) <<< 8) ≡ u8 (u16 v >>> 8) * 2 ^ 8 = omega arith in
    ap (bit_or (u8 (u16 v))) high
    ∙ bit_or_comm (u8 (u16 v)) (u8 (u16 v >>> 8) * 2 ^ 8)
    ∙ bit_or-fields 8 (u8 (u16 v >>> 8)) (u8 (u16 v)) (omega arith)
    ∙ omega arith

size_words :
    (cylinders sectors : ℕ)
    → (word_at (identify_sizes (identify_fixed cylinders) cylinders sectors) 60 ≡ u16 sectors)
      × (word_at (identify_sizes (identify_fixed cylinders) cylinders sectors) 61
          ≡ u16 (sectors >>> 16))
unfolding identify_sizes identify_fixed word_at
size_words cylinders sectors = (low_word sectors, low_word (sectors >>> 16))

-- The words 60 and 61 that IDENTIFY DEVICE answers hold the number of sectors of the image, cut to
-- the 28 bits of an address.
pub ata_build_identify_lem :
    (ata : AtaDevice)
    → word_at (ata_build_identify ata).sector 60
        + 65536 * word_at (ata_build_identify ata).sector 61
      ≡ (if ltb 0x0fffffff ata.sector_count_total then 0x0fffffff else ata.sector_count_total)
unfolding ata_build_identify identify_sectors
ata_build_identify_lem ata =
    let (low, high) = size_words (identify_cylinders ata) (identify_sectors ata) in
    ground (arith, low, high)

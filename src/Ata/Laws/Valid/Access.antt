-- ===== src/Ata/Laws/Valid/Access.antt =====
-- Loading and storing a sector, whatever the host answers.
use model_lib.Base.{
  ℕ, ◌≡◌, inl, inr, refl, ◌∙◌, Bool, true, false, ◌||◌, Option, none, some, List, leb, ◌==◌,
  if◌then◌else◌, nonzero, Bool-cases, length,
}
use model_lib.Ata.Device.{
  Disk, Host, HostError, read_failed, seek_failed, write_failed, AtaDevice, ata_error_unc,
  ata_error_idnf, ata_error_abrt, ata_host_error, ata_set_error,
}
use model_lib.Ata.Sectors.{
  overwrite, put_sector, read_sector, load_from, ata_load_sector, write_sector, store_to,
  ata_store_sector,
}
use model_lib.Ata.Laws.Valid.{
  IsWhole, IsSound, IsValid, length-overwrite, put_sector-IsWhole, set_error-IsValid,
}

-- The results of a load: the whole sector, or an error.
pub data Loads (ata : AtaDevice) (r : AtaDevice × Bool) : Type 0 where
  whole :
      (bytes : List ℕ)
      → length bytes ≡ 512
      → r ≡ (record ata { sector = bytes; activity = true }, true)
      → Loads ata r
  fails : (a : AtaDevice) → IsValid a → r ≡ (a, false) → Loads ata r

pub data Stores (ata : AtaDevice) (r : AtaDevice × Bool) : Type 0 where
  whole :
      (disk : Disk)
      → IsWhole (some disk)
      → r ≡ (record ata { image = some disk; dirty = true; activity = true }, true)
      → Stores ata r
  fails : (a : AtaDevice) → IsValid a → r ≡ (a, false) → Stores ata r

buffer-IsSound :
    (ata : AtaDevice) (bytes : List ℕ)
    → IsSound ata
    → length bytes ≡ 512
    → IsSound (record ata { sector = bytes })
buffer-IsSound ata bytes s e = record {
  buffer = e;
  image_whole = s.image_whole;
  low_byte = s.low_byte;
  mid_byte = s.mid_byte;
  high_byte = s.high_byte;
  count_byte = s.count_byte;
}

image-IsSound :
    (ata : AtaDevice) (disk : Disk) (dirty : Bool)
    → IsSound ata
    → IsWhole (some disk)
    → IsSound (record ata { image = some disk; dirty = dirty })
image-IsSound ata disk dirty s w = record {
  buffer = s.buffer;
  image_whole = w;
  low_byte = s.low_byte;
  mid_byte = s.mid_byte;
  high_byte = s.high_byte;
  count_byte = s.count_byte;
}

host_error-IsSound :
    (ata : AtaDevice) (device_error : Bool) (message : HostError)
    → IsSound ata
    → IsSound (ata_host_error ata device_error message)
unfolding ata_host_error
host_error-IsSound ata device_error message s = s

module _ (host : Host) where
  read_sector-Loads :
      (ata : AtaDevice) (disk : Disk) (lba : ℕ)
      → IsSound ata
      → IsWhole (some disk)
      → Loads ata (read_sector host ata disk lba)
  unfolding read_sector
  read_sector-Loads ata disk lba s w =
      let count = if host.seek_fails lba then 0 else host.read_count lba in
      let got = overwrite count (disk lba) ata.sector in
      let size = length-overwrite count (disk lba) ata.sector ∙ s.buffer in
      let partly : AtaDevice = record ata { sector = got } in
      let failed = ata_host_error partly true (read_failed lba) in
      let told = host_error-IsSound partly true (read_failed lba) (buffer-IsSound ata got s size) in
      elim (Bool-cases (count == 512)) [
        | inl e ↦ whole (disk lba) (w lba) (rw e)
        | inr e ↦
            fails (ata_set_error failed ata_error_unc) (set_error-IsValid failed ata_error_unc told)
              (rw e)
      ]

  load_from-Loads :
      (o : Option Disk) (ata : AtaDevice) (lba : ℕ)
      → IsSound ata
      → IsWhole o
      → Loads ata (load_from host o ata lba)
  unfolding load_from
  load_from-Loads none ata lba s w = fails _ (set_error-IsValid ata ata_error_idnf s) refl
  load_from-Loads (some disk) ata lba s w = elim (Bool-cases (leb ata.sector_count_total lba)) [
    | inl e ↦ fails _ (set_error-IsValid ata ata_error_idnf s) (rw e)
    | inr e ↦ rw e (read_sector-Loads ata disk lba s w)
  ]

  pub load_sector-Loads :
      (ata : AtaDevice) (lba : ℕ) → IsSound ata → Loads ata (ata_load_sector host ata lba)
  unfolding ata_load_sector
  load_sector-Loads ata lba s = load_from-Loads ata.image ata lba s s.image_whole

  write_sector-Stores :
      (ata : AtaDevice) (disk : Disk) (lba : ℕ)
      → IsSound ata
      → IsWhole (some disk)
      → Stores ata (write_sector host ata disk lba)
  unfolding write_sector
  write_sector-Stores ata disk lba s w =
      let written = host.write_count lba in
      let size = length-overwrite written ata.sector (disk lba) ∙ w lba in
      let short = put_sector-IsWhole disk lba (overwrite written ata.sector (disk lba)) w size in
      let no_seek = ata_host_error ata true (seek_failed lba) in
      let partly : AtaDevice = record ata {
        image = some (put_sector disk lba (overwrite written ata.sector (disk lba)));
        dirty = ata.dirty || nonzero written;
      } in
      let failed = ata_host_error partly true (write_failed lba) in
      let partly_sound = image-IsSound ata _ (ata.dirty || nonzero written) s short in
      elim (Bool-cases (host.seek_fails lba)) [
        | inl e ↦
            fails (ata_set_error no_seek ata_error_unc)
              (set_error-IsValid no_seek ata_error_unc
                (host_error-IsSound ata true (seek_failed lba) s))
              (rw e)
        | inr e ↦ elim (Bool-cases (written == 512)) [
          | inl f ↦
              whole (put_sector disk lba ata.sector)
                (put_sector-IsWhole disk lba ata.sector w s.buffer) (rw (e, f))
          | inr f ↦
              fails (ata_set_error failed ata_error_unc)
                (set_error-IsValid failed ata_error_unc
                  (host_error-IsSound partly true (write_failed lba) partly_sound))
                (rw (e, f))
        ]
      ]

  store_to-Stores :
      (o : Option Disk) (ata : AtaDevice) (lba : ℕ)
      → IsSound ata
      → IsWhole o
      → Stores ata (store_to host o ata lba)
  unfolding store_to
  store_to-Stores none ata lba s w = fails _ (set_error-IsValid ata _ s) refl
  store_to-Stores (some disk) ata lba s w = elim (Bool-cases (ata.image_mode == 1)) [
    | inr e ↦ fails _ (set_error-IsValid ata ata_error_abrt s) (simp e refl)
    | inl e ↦ elim (Bool-cases (leb ata.sector_count_total lba)) [
      | inl f ↦ fails _ (set_error-IsValid ata ata_error_idnf s) (simp (e, f) refl)
      | inr f ↦ simp (e, f) (write_sector-Stores ata disk lba s w)
    ]
  ]

  pub store_sector-Stores :
      (ata : AtaDevice) (lba : ℕ) → IsSound ata → Stores ata (ata_store_sector host ata lba)
  unfolding ata_store_sector
  store_sector-Stores ata lba s = store_to-Stores ata.image ata lba s s.image_whole

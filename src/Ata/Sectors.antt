-- ===== src/Ata/Sectors.antt =====
-- Reading and writing one sector of the image.
use model_lib.Base.{
  ℕ, zero, suc, Bool, true, false, not, ◌||◌, Option, none, some, List, [], ◌∷◌, leb, ◌==◌,
  if◌then◌else◌, nonzero,
}
use model_lib.Ata.Device.{
  Disk, Host, read_failed, seek_failed, write_failed, ata_error_unc, ata_error_idnf, ata_error_abrt,
  read_write, AtaDevice, ata_host_error, ata_set_error,
}

-- The first `n` bytes of a transfer that stops short, over what was there.
unfoldable pub overwrite : ℕ → List ℕ → List ℕ → List ℕ
overwrite zero new old = old
overwrite (suc n) [] old = old
overwrite (suc n) (x ∷ new) [] = []
overwrite (suc n) (x ∷ new) (y ∷ old) = x ∷ overwrite n new old

-- The image with one sector replaced.
abbrev pub put_sector : Disk → ℕ → List ℕ → Disk
put_sector disk lba bytes s = if s == lba then bytes else disk s

module _ (host : Host) where
  -- `fseek` and `fread` of a sector that is in range.
  unfoldable pub read_sector : AtaDevice → Disk → ℕ → AtaDevice × Bool
  read_sector ata disk lba =
      let count = if host.seek_fails lba then 0 else host.read_count lba in
      let got = record ata { sector = overwrite count (disk lba) ata.sector } in
      let failed = ata_set_error (ata_host_error got true (read_failed lba)) ata_error_unc in
      if count == 512
      then (record ata { sector = disk lba; activity = true }, true)
      else (failed, false)

  unfoldable pub load_from : Option Disk → AtaDevice → ℕ → AtaDevice × Bool
  load_from none ata lba = (ata_set_error ata ata_error_idnf, false)
  load_from (some disk) ata lba =
      if leb ata.sector_count_total lba
      then (ata_set_error ata ata_error_idnf, false)
      else read_sector ata disk lba

  unfoldable pub ata_load_sector : AtaDevice → ℕ → AtaDevice × Bool
  unfolding load_from
  ata_load_sector ata lba = load_from ata.image ata lba

  -- `fseek` and `fwrite` of a sector that is in range.
  unfoldable pub write_sector : AtaDevice → Disk → ℕ → AtaDevice × Bool
  write_sector ata disk lba =
      let written = host.write_count lba in
      let short = put_sector disk lba (overwrite written ata.sector (disk lba)) in
      let no_seek = ata_host_error ata true (seek_failed lba) in
      let partly = record ata { image = some short; dirty = ata.dirty || nonzero written } in
      let failed = ata_host_error partly true (write_failed lba) in
      if host.seek_fails lba
      then (ata_set_error no_seek ata_error_unc, false)
      else if not (written == 512)
      then (ata_set_error failed ata_error_unc, false)
      else (
        record ata { image = some (put_sector disk lba ata.sector); dirty = true; activity = true },
        true,
      )

  unfoldable pub store_to : Option Disk → AtaDevice → ℕ → AtaDevice × Bool
  store_to none ata lba = (
    ata_set_error ata (if ata.image_mode == read_write then ata_error_idnf else ata_error_abrt),
    false,
  )
  store_to (some disk) ata lba =
      if not (ata.image_mode == read_write)
      then (ata_set_error ata ata_error_abrt, false)
      else if leb ata.sector_count_total lba
      then (ata_set_error ata ata_error_idnf, false)
      else write_sector ata disk lba

  unfoldable pub ata_store_sector : AtaDevice → ℕ → AtaDevice × Bool
  unfolding store_to
  ata_store_sector ata lba = store_to ata.image ata lba

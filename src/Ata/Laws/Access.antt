-- ===== src/Ata/Laws/Access.antt =====
-- Loading and storing a sector that is in range, on a host that does not fail.
use model_lib.Base.{ℕ, ◌<◌, ◌≡◌, ap, ◌∙◌, true, false, some, arith}
use model_lib.Ata.Device.{Disk, Host, AtaDevice, read_write}
use model_lib.Ata.Sectors.{
  put_sector, read_sector, load_from, ata_load_sector, write_sector, store_to, ata_store_sector,
}

pub record IsReliable (host : Host) : Type 0 where
  pub seeks : (lba : ℕ) → host.seek_fails lba ≡ false
  pub reads : (lba : ℕ) → host.read_count lba ≡ 512
  pub writes : (lba : ℕ) → host.write_count lba ≡ 512

module _ (host : Host) (works : IsReliable host) where
  read_works :
      (ata : AtaDevice) (disk : Disk) (lba : ℕ)
      → read_sector host ata disk lba ≡ (record ata { sector = disk lba; activity = true }, true)
  unfolding read_sector
  read_works ata disk lba = ground (arith, works.seeks lba, works.reads lba)

  pub load_works :
      (ata : AtaDevice) (disk : Disk) (lba : ℕ)
      → ata.image ≡ some disk
      → lba < ata.sector_count_total
      → ata_load_sector host ata lba ≡ (record ata { sector = disk lba; activity = true }, true)
  unfolding ata_load_sector
  load_works ata disk lba e h =
      ap (λ o. load_from host o ata lba) e ∙ ground (arith, read_works ata disk lba)

  write_works :
      (ata : AtaDevice) (disk : Disk) (lba : ℕ)
      → write_sector host ata disk lba ≡ (
        record ata { image = some (put_sector disk lba ata.sector); dirty = true; activity = true },
        true,
      )
  unfolding write_sector
  write_works ata disk lba = ground (arith, works.seeks lba, works.writes lba)

  pub store_works :
      (ata : AtaDevice) (disk : Disk) (lba : ℕ)
      → ata.image ≡ some disk
      → ata.image_mode ≡ read_write
      → lba < ata.sector_count_total
      → ata_store_sector host ata lba ≡ (
        record ata { image = some (put_sector disk lba ata.sector); dirty = true; activity = true },
        true,
      )
  unfolding ata_store_sector
  store_works ata disk lba e w h =
      ap (λ o. store_to host o ata lba) e ∙ ground (arith, write_works ata disk lba)

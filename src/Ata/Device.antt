-- ===== src/Ata/Device.antt =====
-- The state of the disk: the task file, the transfer in progress and the mounted image.
use model_lib.Base.{
  ℕ, Bool, true, false, ◌||◌, Option, none, some, List, if◌then◌else◌, nonzero, u32, ◌<<<◌,
  replicate, bit_and, bit_or,
}

-- The bytes of an image, by sector.
abbrev pub Disk : Type 0
Disk = ℕ → List ℕ

-- What the calls of the C library on the image answer.
pub record Host : Type 0 where
  pub seek_fails : ℕ → Bool
  pub read_count : ℕ → ℕ
  pub write_count : ℕ → ℕ
  pub flush_fails : Bool
  pub sync_fails : Bool
  pub close_fails : Bool

-- The texts of `host_error`, without the words of the system.
pub data HostError : Type 0 where
  read_failed seek_failed write_failed : ℕ → HostError
  flush_failed close_failed invalid_image cannot_open bad_size : HostError

abbrev pub ata_sector_size : ℕ
ata_sector_size = 512

-- ATA_STATUS_DRDY | ATA_STATUS_DSC, and the same with ATA_STATUS_DRQ or ATA_STATUS_ERR.
abbrev pub status_ready : ℕ
status_ready = 0x50

abbrev pub status_data : ℕ
status_data = 0x58

abbrev pub status_error : ℕ
status_error = 0x51

abbrev pub ata_error_unc : ℕ
ata_error_unc = 0x40

abbrev pub ata_error_idnf : ℕ
ata_error_idnf = 0x10

abbrev pub ata_error_abrt : ℕ
ata_error_abrt = 0x04

-- The values of the enumeration AtaImageMode.
abbrev pub read_only : ℕ
read_only = 0

abbrev pub read_write : ℕ
read_write = 1

pub record AtaDevice : Type 0 where
  pub error : ℕ
  pub features : ℕ
  pub sector_count : ℕ
  pub lba_low : ℕ
  pub lba_mid : ℕ
  pub lba_high : ℕ
  pub device : ℕ
  pub status : ℕ
  pub command : ℕ
  pub sector : List ℕ
  pub transfer_offset : ℕ
  pub transfer_lba : ℕ
  pub sectors_left : ℕ
  pub transfer_read : Bool
  pub transfer_write : Bool
  pub activity : Bool
  pub image : Option Disk
  pub sector_count_total : ℕ
  pub image_mode : ℕ
  pub dirty : Bool
  pub io_error : Bool
  pub host_error : Option HostError

abbrev pub is_some {ℓ} : {A : Type ℓ} → Option A → Bool
is_some none = false
is_some (some a) = true

-- `memset(sector, 0, sizeof(sector))`.
unfoldable pub blank_sector : List ℕ
blank_sector = replicate 512 0

unfoldable pub ata_signature : AtaDevice → AtaDevice
ata_signature ata = record ata {
  error = 1;
  sector_count = 1;
  lba_low = 1;
  lba_mid = 0;
  lba_high = 0;
  device = 0;
}

unfoldable pub ata_host_error : AtaDevice → Bool → HostError → AtaDevice
ata_host_error ata device_error message = record ata {
  io_error = ata.io_error || device_error;
  host_error = some message;
}

unfoldable pub ata_clear_host_error : AtaDevice → AtaDevice
ata_clear_host_error ata = record ata { host_error = none }

unfoldable pub ata_set_error : AtaDevice → ℕ → AtaDevice
ata_set_error ata code = record ata {
  error = code;
  status = status_error;
  transfer_read = false;
  transfer_write = false;
  transfer_offset = 0;
  sectors_left = 0;
}

unfoldable pub ata_lba : AtaDevice → ℕ
ata_lba ata =
    bit_or (bit_or (bit_or ata.lba_low (u32 (ata.lba_mid <<< 8))) (u32 (ata.lba_high <<< 16)))
      (u32 (bit_and ata.device 0x0f <<< 24))

unfoldable pub ata_requested_sectors : AtaDevice → ℕ
ata_requested_sectors ata = if nonzero ata.sector_count then ata.sector_count else 256

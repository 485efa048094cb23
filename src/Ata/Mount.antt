-- ===== src/Ata/Mount.antt =====
-- Power on, reset, and mounting and unmounting an image.
use model_lib.Base.{
  ℤ, pos, negsuc, ℕ, ◌/◌, ◌%◌, Bool, true, false, not, ◌&&◌, ◌||◌, Option, none, some, [], ◌∷◌, leb,
  ◌==◌, if◌then◌else◌, one_of,
}
use model_lib.Ata.Device.{
  Disk, Host, HostError, flush_failed, close_failed, invalid_image, cannot_open, bad_size,
  status_ready, read_only, read_write, AtaDevice, is_some, blank_sector, ata_signature,
  ata_host_error, ata_clear_host_error,
}

-- `memset(ata, 0, sizeof(*ata))`.
unfoldable pub blank_device : AtaDevice
unfolding blank_sector
blank_device = record {
  error = 0;
  features = 0;
  sector_count = 0;
  lba_low = 0;
  lba_mid = 0;
  lba_high = 0;
  device = 0;
  status = 0;
  command = 0;
  sector = blank_sector;
  transfer_offset = 0;
  transfer_lba = 0;
  sectors_left = 0;
  transfer_read = false;
  transfer_write = false;
  activity = false;
  image = none;
  sector_count_total = 0;
  image_mode = read_only;
  dirty = false;
  io_error = false;
  host_error = none;
}

unfoldable pub ata_init : AtaDevice
unfolding blank_device ata_signature
ata_init = ata_signature blank_device

unfoldable pub ata_reset : AtaDevice → AtaDevice
unfolding blank_device ata_signature
ata_reset ata = record (ata_signature blank_device) {
  image = ata.image;
  sector_count_total = ata.sector_count_total;
  image_mode = ata.image_mode;
  dirty = ata.dirty;
  io_error = ata.io_error;
  host_error = ata.host_error;
  status = if is_some ata.image then status_ready else 0;
}

-- What `fopen`, `fseek` and `ftell` find; the size is that of the file.
pub record OpenFile : Type 0 where
  pub disk : Disk
  pub end_found : Bool
  pub size : ℤ
  pub start_found : Bool

unfoldable pub whole_sectors : ℤ → Bool
whole_sectors (pos size) = leb 512 size && size % 512 == 0
whole_sectors (negsuc size) = false

unfoldable pub valid_size : OpenFile → Bool
unfolding whole_sectors
valid_size file = file.end_found && whole_sectors file.size && file.start_found

-- `(u64)size / ATA_SECTOR_SIZE`, for a size that is not negative.
abbrev pub sectors_of : ℤ → ℕ
sectors_of (pos size) = size / 512
sectors_of (negsuc size) = 0

module _ (host : Host) where
  -- A result of `true` is 0, and `false` is -1.
  unfoldable pub ata_flush : AtaDevice → AtaDevice × Bool
  unfolding ata_host_error
  ata_flush ata =
      if not (is_some ata.image) || not ata.dirty
      then (ata, true)
      else if host.flush_fails || host.sync_fails
      then (ata_host_error ata true flush_failed, false)
      else (record ata { dirty = false }, true)

  unfoldable pub emptied : AtaDevice → AtaDevice
  unfolding ata_host_error
  emptied ata =
      let closed =
        if is_some ata.image && host.close_fails
        then ata_host_error ata true close_failed
        else ata in
      record closed {
        image = none;
        sector_count_total = 0;
        image_mode = read_only;
        dirty = false;
        io_error = false;
      }

  -- What `ata_unmount` does once the image is flushed.
  unfoldable pub detach : AtaDevice → AtaDevice × Bool
  unfolding emptied ata_clear_host_error ata_reset
  detach ata =
      let failed = is_some ata.image && host.close_fails in
      let clean = ata_reset (emptied ata) in
      (if failed then clean else ata_clear_host_error clean, not failed)

  unfoldable pub detach_if : AtaDevice × Bool → AtaDevice × Bool
  unfolding detach
  detach_if (ata, true) = detach ata
  detach_if (ata, false) = (ata, false)

  unfoldable pub ata_unmount : AtaDevice → AtaDevice × Bool
  unfolding ata_flush detach_if
  ata_unmount ata = detach_if (ata_flush ata)

  -- The device is cleared, whether the image could be unmounted or is closed by force.
  unfoldable pub ata_destroy : AtaDevice → AtaDevice
  unfolding blank_device
  ata_destroy ata = blank_device

  -- A new image in the place of the old one.
  unfoldable pub with_file : AtaDevice → OpenFile → ℕ → AtaDevice
  unfolding ata_clear_host_error
  with_file ata file mode = ata_clear_host_error (record ata {
    image = some file.disk;
    sector_count_total = sectors_of file.size;
    image_mode = mode;
    dirty = false;
    io_error = false;
  })

  unfoldable pub attach : AtaDevice → OpenFile → ℕ → AtaDevice
  unfolding with_file ata_reset
  attach ata file mode = ata_reset (with_file ata file mode)

  unfoldable pub attach_if : AtaDevice × Bool → OpenFile → ℕ → AtaDevice × Bool
  unfolding attach
  attach_if (ata, true) file mode = (attach ata file mode, true)
  attach_if (ata, false) file mode = (ata, false)

  unfoldable pub mount_file : AtaDevice → Option OpenFile → ℕ → AtaDevice × Bool
  unfolding ata_host_error valid_size ata_unmount attach_if
  mount_file ata none mode = (ata_host_error ata false cannot_open, false)
  mount_file ata (some file) mode =
      let released = if is_some ata.image then ata_unmount ata else (ata, true) in
      if valid_size file
      then attach_if released file mode
      else (ata_host_error ata false bad_size, false)

  unfoldable pub ata_mount_mode : AtaDevice → Bool → Option OpenFile → ℕ → AtaDevice × Bool
  unfolding ata_host_error mount_file
  ata_mount_mode ata path_given file mode =
      if not path_given || not (one_of mode (read_only ∷ read_write ∷ []))
      then (ata_host_error ata false invalid_image, false)
      else mount_file ata file mode

  unfoldable pub ata_mount : AtaDevice → Bool → Option OpenFile → AtaDevice × Bool
  unfolding ata_mount_mode
  ata_mount ata path_given file = ata_mount_mode ata path_given file read_only

unfoldable pub ata_is_mounted : AtaDevice → Bool
ata_is_mounted ata = is_some ata.image

unfoldable pub ata_is_writable : AtaDevice → Bool
ata_is_writable ata = is_some ata.image && ata.image_mode == read_write

unfoldable pub ata_is_dirty : AtaDevice → Bool
ata_is_dirty ata = is_some ata.image && ata.dirty

unfoldable pub ata_has_io_error : AtaDevice → Bool
ata_has_io_error ata = ata.io_error

unfoldable pub ata_last_error : AtaDevice → Option HostError
ata_last_error ata = ata.host_error

unfoldable pub ata_total_sectors : AtaDevice → ℕ
ata_total_sectors ata = ata.sector_count_total

unfoldable pub ata_take_activity : AtaDevice → AtaDevice × Bool
ata_take_activity ata = (record ata { activity = false }, ata.activity)

-- ===== src/Ata/Execute.antt =====
-- The commands of the disk.
use model_lib.Base.{
  ℕ, ◌+◌, Bool, true, false, not, List, [], ◌∷◌, ltb, ◌==◌, if◌then◌else◌, switch, u8, u32, ◌>>>◌,
  bit_and, bit_or,
}
use model_lib.Ata.Device.{
  Host, status_ready, status_data, ata_error_unc, ata_error_idnf, ata_error_abrt, read_write,
  AtaDevice, blank_sector, ata_signature, ata_set_error, ata_lba, ata_requested_sectors,
}
use model_lib.Ata.Sectors.{ata_load_sector}
use model_lib.Ata.Identify.{ata_build_identify}
use model_lib.Ata.Mount.{ata_flush}

-- What every command does first.
unfoldable pub begin_command : AtaDevice → ℕ → AtaDevice
begin_command ata command = record ata {
  command = command;
  error = 0;
  status = bit_and ata.status 0xf6;
  transfer_read = false;
  transfer_write = false;
  transfer_offset = 0;
  sectors_left = 0;
}

unfoldable pub ready : AtaDevice → AtaDevice
ready ata = record ata { status = status_ready }

-- The range of a transfer, from the task file.
unfoldable pub set_range : AtaDevice → AtaDevice
set_range ata = record ata { transfer_lba = ata_lba ata; sectors_left = ata_requested_sectors ata }

unfoldable pub past_end : AtaDevice → Bool
past_end ata = ltb ata.sector_count_total (ata.transfer_lba + ata.sectors_left)

unfoldable pub start_read : AtaDevice × Bool → AtaDevice
start_read (ata, true) = record ata { transfer_read = true; status = status_data }
start_read (ata, false) = ata

-- READ NATIVE MAX ADDRESS.
unfoldable pub native_max : AtaDevice → AtaDevice
native_max ata =
    let maximum = u32 ata.sector_count_total in
    record ata {
      lba_low = u8 maximum;
      lba_mid = u8 (maximum >>> 8);
      lba_high = u8 (maximum >>> 16);
      device = bit_or (bit_and ata.device 0xf0) (u8 (maximum >>> 24));
      status = status_ready;
    }

unfoldable pub identify : AtaDevice → AtaDevice
identify ata = record (ata_build_identify ata) {
  transfer_read = true;
  transfer_offset = 0;
  sectors_left = 0;
  status = status_data;
}

-- SET FEATURES.
unfoldable pub set_features : AtaDevice → AtaDevice
set_features ata = if ata.features == 0x03 then ready ata else ata_set_error ata ata_error_abrt

unfoldable pub write_sectors : AtaDevice → AtaDevice
write_sectors ata =
    let ranged = set_range ata in
    if not (ata.image_mode == read_write)
    then ata_set_error ranged ata_error_abrt
    else if past_end ranged
    then ata_set_error ranged ata_error_idnf
    else (record ranged { sector = blank_sector; transfer_write = true; status = status_data })

-- 0x10 to 0x1f, and 0x91.
abbrev pub no_operation : List ℕ
no_operation =
    0x10 ∷ 0x11 ∷ 0x12 ∷ 0x13 ∷ 0x14 ∷ 0x15 ∷ 0x16 ∷ 0x17 ∷ 0x18 ∷ 0x19 ∷ 0x1a ∷ 0x1b ∷ 0x1c ∷ 0x1d
    ∷ 0x1e ∷ 0x1f ∷ 0x91 ∷ []

module _ (host : Host) where
  unfoldable pub read_sectors : AtaDevice → AtaDevice
  read_sectors ata =
      let ranged = set_range ata in
      if past_end ranged
      then ata_set_error ranged ata_error_idnf
      else start_read (ata_load_sector host ranged ranged.transfer_lba)

  unfoldable pub finish_flush : AtaDevice × Bool → AtaDevice
  finish_flush (ata, true) = ready ata
  finish_flush (ata, false) = ata_set_error ata ata_error_unc

  unfoldable pub flush_cache : AtaDevice → AtaDevice
  flush_cache ata = finish_flush (ata_flush host ata)

  -- The cases of the `switch`.
  abbrev pub commands : AtaDevice → List (List ℕ × AtaDevice)
  commands begun =
      (no_operation, ready begun)
      ∷ ((0x20 ∷ 0x21 ∷ []), read_sectors begun)
      ∷ ((0x30 ∷ 0x31 ∷ []), write_sectors begun)
      ∷ ((0xe7 ∷ 0xea ∷ []), flush_cache begun)
      ∷ ((0x90 ∷ []), ready (ata_signature begun))
      ∷ ((0xec ∷ []), identify begun)
      ∷ ((0xef ∷ []), set_features begun)
      ∷ ((0xf8 ∷ []), native_max begun)
      ∷ []

  unfoldable pub ata_execute : AtaDevice → ℕ → AtaDevice
  ata_execute ata command =
      let begun = begin_command ata command in
      switch command (commands begun) (ata_set_error begun ata_error_abrt)

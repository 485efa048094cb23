-- ===== src/Ata/Transfer.antt =====
-- The data port and the task file.
use model_lib.Base.{
  ℕ, ◌+◌, Bool, true, false, not, ◌&&◌, List, [], ◌∷◌, ltb, ◌==◌, if◌then◌else◌, nonzero, switch,
  u8, u16, u32, ◌<<<◌, ◌>>>◌, get_or, set, bit_and, bit_or,
}
use model_lib.Ata.Device.{Host, ata_sector_size, status_ready, AtaDevice, is_some, blank_sector}
use model_lib.Ata.Sectors.{ata_load_sector, ata_store_sector}
use model_lib.Ata.Execute.{ata_execute}

-- The word at the transfer offset.
unfoldable pub current_word : AtaDevice → ℕ
current_word ata =
    bit_or (get_or ata.sector ata.transfer_offset 0)
      (u16 (get_or ata.sector (ata.transfer_offset + 1) 0 <<< 8))

-- A transfer is open in the given direction, and inside its sector.
unfoldable pub transferring : AtaDevice → Bool → Bool
transferring ata direction =
    is_some ata.image
    && direction
    && nonzero (bit_and ata.status 8)
    && ltb (ata.transfer_offset + 1) ata_sector_size

unfoldable pub rewind : AtaDevice × Bool → AtaDevice
rewind (ata, true) = record ata { transfer_offset = 0 }
rewind (ata, false) = ata

-- `--sectors_left`, in unsigned arithmetic.
unfoldable pub one_less : AtaDevice → AtaDevice
one_less ata = record ata { sectors_left = u32 (ata.sectors_left + 4294967295) }

unfoldable pub next_sector : AtaDevice → AtaDevice
next_sector ata = record ata { transfer_lba = u32 (ata.transfer_lba + 1) }

unfoldable pub end_read : AtaDevice → AtaDevice
end_read ata = record ata { transfer_read = false; status = status_ready }

unfoldable pub end_write : AtaDevice → AtaDevice
end_write ata = record ata { transfer_write = false; status = status_ready }

-- The next sector to be written: it starts blank.
unfoldable pub blank_next : AtaDevice → AtaDevice
unfolding next_sector blank_sector
blank_next ata = record (next_sector ata) { transfer_offset = 0; sector = blank_sector }

unfoldable pub put_word : AtaDevice → ℕ → AtaDevice
put_word ata value = record ata {
  sector =
      set (set ata.sector ata.transfer_offset (u8 value)) (ata.transfer_offset + 1)
        (u8 (value >>> 8));
  transfer_offset = ata.transfer_offset + 2;
}

unfoldable pub after_store : AtaDevice × Bool → AtaDevice
unfolding one_less end_write blank_next
after_store (ata, false) = ata
after_store (ata, true) =
    let left = one_less ata in if left.sectors_left == 0 then end_write left else blank_next left

module _ (host : Host) where
  -- What follows the last word of a sector.
  unfoldable pub sector_read : AtaDevice → AtaDevice
  sector_read ata =
      let left = one_less ata in
      let next = next_sector left in
      if ata.command == 0xec
      then end_read ata
      else if left.sectors_left == 0
      then end_read left
      else rewind (ata_load_sector host next next.transfer_lba)

  unfoldable pub ata_read_data : AtaDevice → AtaDevice × ℕ
  ata_read_data ata =
      let moved = record ata { transfer_offset = ata.transfer_offset + 2 } in
      if not (transferring ata ata.transfer_read) then (ata, 0x7f7f) else (
        if moved.transfer_offset == ata_sector_size then sector_read moved else moved,
        current_word ata,
      )

  unfoldable pub ata_write_data : AtaDevice → ℕ → AtaDevice
  ata_write_data ata value =
      let moved = put_word ata value in
      if not (transferring ata ata.transfer_write)
      then ata
      else if not (moved.transfer_offset == ata_sector_size)
      then moved
      else after_store (ata_store_sector host moved moved.transfer_lba)

  -- The cases of the `switch` of `ata_write_register`.
  abbrev pub registers : AtaDevice → ℕ → List (List ℕ × AtaDevice)
  registers ata value =
      ((1 ∷ []), record ata { features = value })
      ∷ ((2 ∷ []), record ata { sector_count = value })
      ∷ ((3 ∷ []), record ata { lba_low = value })
      ∷ ((4 ∷ []), record ata { lba_mid = value })
      ∷ ((5 ∷ []), record ata { lba_high = value })
      ∷ ((6 ∷ []), record ata { device = value })
      ∷ ((7 ∷ []), ata_execute host ata value)
      ∷ []

  unfoldable pub ata_write_register : AtaDevice → ℕ → ℕ → AtaDevice
  ata_write_register ata reg value =
      if not (is_some ata.image) then ata else switch (bit_and reg 0x0f) (registers ata value) ata

unfoldable pub ata_read_register : AtaDevice → ℕ → ℕ
ata_read_register ata reg =
    if not (is_some ata.image)
    then 0x7f
    else switch (bit_and reg 0x0f)
        (((1 ∷ []), ata.error)
          ∷ ((2 ∷ []), ata.sector_count)
          ∷ ((3 ∷ []), ata.lba_low)
          ∷ ((4 ∷ []), ata.lba_mid)
          ∷ ((5 ∷ []), ata.lba_high)
          ∷ ((6 ∷ []), ata.device)
          ∷ ((7 ∷ []), ata.status)
          ∷ [])
        0x7f

-- ===== src/Sunrise/Access.antt =====
-- Reads and writes of the memory window: ROM, data words and registers.
use model_lib.Base.{
  ℕ, ◌+◌, ◌*◌, Bool, true, false, not, ◌&&◌, ltb, leb, ◌==◌, if◌then◌else◌, nonzero, u8, u16, ◌<<<◌,
  ◌>>>◌, bit_and, bit_or,
}
use model_lib.Ata.Device.{Host}
use model_lib.Ata.Mount.{ata_reset}
use model_lib.Ata.Transfer.{ata_read_data, ata_write_data, ata_read_register, ata_write_register}
use model_lib.Sunrise.Device.{MsxSunriseIde, msx_sunrise_bank_size, sunrise_write_control}

-- A read that takes a word of the disk leaves another state.
abbrev pub Read : Type 0
Read = MsxSunriseIde × ℕ

-- The addresses of the data window and of the registers.
unfoldable pub is_data : MsxSunriseIde → ℕ → Bool
is_data sunrise address = sunrise.registers_enabled && bit_and address 0x3e00 == 0x3c00

unfoldable pub is_register : MsxSunriseIde → ℕ → Bool
is_register sunrise address = sunrise.registers_enabled && bit_and address 0x3f00 == 0x3e00

-- The value of a register, for the device that is selected.
unfoldable pub register_value : MsxSunriseIde → ℕ → ℕ
unfolding ata_read_register
register_value sunrise reg =
    let absent = nonzero sunrise.selected_device in
    let result = if absent then 0x7f else ata_read_register sunrise.master reg in
    if reg == 6 then bit_or (bit_and result 0xef) (if absent then 0x10 else 0) else result

unfoldable pub rom_value : MsxSunriseIde → ℕ → ℕ
rom_value sunrise address =
    if leb 0x4000 address && ltb address 0x8000
    then sunrise.rom (sunrise.bank * msx_sunrise_bank_size + bit_and address 0x3fff)
    else 0xff

-- Register 14 is the status too.
abbrev pub status_alias : ℕ → ℕ
status_alias reg = if reg == 14 then 7 else reg

module _ (host : Host) where
  unfoldable pub sunrise_read_data : MsxSunriseIde → Read
  sunrise_read_data sunrise =
      let (master, value) = ata_read_data host sunrise.master in
      if nonzero sunrise.selected_device
      then (sunrise, 0x7f7f)
      else (record sunrise { master = master }, value)

  unfoldable pub sunrise_write_data : MsxSunriseIde → ℕ → MsxSunriseIde
  sunrise_write_data sunrise value =
      if nonzero sunrise.selected_device
      then sunrise
      else (record sunrise { master = ata_write_data host sunrise.master value })

  unfoldable pub sunrise_read_register : MsxSunriseIde → ℕ → Read
  unfolding sunrise_read_data register_value
  sunrise_read_register sunrise reg =
      let reg = status_alias reg in
      let (taken, word) = sunrise_read_data sunrise in
      if sunrise.soft_reset
      then (sunrise, if reg == 7 then 0xff else 0x7f)
      else if reg == 0
      then (taken, u8 word)
      else (sunrise, register_value sunrise reg)

  -- The drive bit of register 6, and then the register of the drive that is selected.
  unfoldable pub write_selected : MsxSunriseIde → ℕ → ℕ → MsxSunriseIde
  write_selected sunrise reg value =
      let selected =
        if reg == 6
        then (if nonzero (bit_and value 0x10) then 1 else 0)
        else sunrise.selected_device in
      let chosen : MsxSunriseIde = record sunrise { selected_device = selected } in
      if nonzero selected
      then chosen
      else (record chosen { master = ata_write_register host sunrise.master reg value })

  unfoldable pub sunrise_write_register : MsxSunriseIde → ℕ → ℕ → MsxSunriseIde
  unfolding sunrise_write_data write_selected
  sunrise_write_register sunrise reg value =
      let resets = nonzero (bit_and value 4) in
      let released = record sunrise { soft_reset = false } in
      let held = record sunrise { soft_reset = true; master = ata_reset sunrise.master } in
      if sunrise.soft_reset
      then if reg == 14 && not resets then released else sunrise
      else if reg == 0
      then sunrise_write_data sunrise (bit_or value (u16 (value <<< 8)))
      else if reg == 14 && resets
      then held
      else write_selected sunrise reg value

  unfoldable pub read_window : MsxSunriseIde → ℕ → Read
  unfolding sunrise_read_data
  read_window sunrise address =
      let (taken, word) = sunrise_read_data sunrise in
      if nonzero (bit_and address 1)
      then (sunrise, sunrise.read_latch)
      else (record taken { read_latch = u8 (word >>> 8) }, u8 word)

  unfoldable pub sunrise_read : MsxSunriseIde → ℕ → Read
  unfolding is_data is_register read_window sunrise_read_register rom_value
  sunrise_read sunrise address =
      if not sunrise.rom_loaded
      then (sunrise, 0xff)
      else if is_data sunrise address
      then read_window sunrise address
      else if is_register sunrise address
      then sunrise_read_register sunrise (bit_and address 0x0f)
      else (sunrise, rom_value sunrise address)

  unfoldable pub write_window : MsxSunriseIde → ℕ → ℕ → MsxSunriseIde
  unfolding sunrise_write_data
  write_window sunrise address value =
      if nonzero (bit_and address 1)
      then sunrise_write_data sunrise (bit_or sunrise.write_latch (u16 (value <<< 8)))
      else (record sunrise { write_latch = value })

  unfoldable pub sunrise_write : MsxSunriseIde → ℕ → ℕ → MsxSunriseIde
  unfolding is_data is_register sunrise_write_control write_window sunrise_write_register
  sunrise_write sunrise address value =
      if not sunrise.rom_loaded
      then sunrise
      else if bit_and address 0xbf04 == 0x0104
      then sunrise_write_control sunrise value
      else if is_data sunrise address
      then write_window sunrise address value
      else if is_register sunrise address
      then sunrise_write_register sunrise (bit_and address 0x0f) value
      else sunrise

-- ===== src/Sunrise/Device.antt =====
-- The state of the interface, its control register, its ROM and its disk.
use model_lib.Base.{
  ℕ, Bool, true, false, not, Option, ◌==◌, if◌then◌else◌, nonzero, u8, ◌<<<◌, ◌>>>◌, bit_and,
  bit_or,
}
use model_lib.Ata.Device.{Host, HostError, AtaDevice, read_only}
use model_lib.Ata.Mount.{
  blank_device, ata_init, ata_reset, OpenFile, ata_flush, ata_unmount, ata_mount_mode,
  ata_is_mounted, ata_is_writable, ata_is_dirty, ata_has_io_error, ata_last_error,
  ata_take_activity,
}

abbrev pub msx_sunrise_rom_size : ℕ
msx_sunrise_rom_size = 0x20000

abbrev pub msx_sunrise_bank_size : ℕ
msx_sunrise_bank_size = 0x4000

-- The ROM is a function of the index, below `msx_sunrise_rom_size`.
pub record MsxSunriseIde : Type 0 where
  pub rom : ℕ → ℕ
  pub master : AtaDevice
  pub control : ℕ
  pub bank : ℕ
  pub read_latch : ℕ
  pub write_latch : ℕ
  pub selected_device : ℕ
  pub registers_enabled : Bool
  pub soft_reset : Bool
  pub rom_loaded : Bool

unfoldable pub reverse_byte : ℕ → ℕ
reverse_byte value =
    let value = u8 (bit_or (bit_and value 0x55 <<< 1) (bit_and (value >>> 1) 0x55)) in
    let value = u8 (bit_or (bit_and value 0x33 <<< 2) (bit_and (value >>> 2) 0x33)) in
    u8 (bit_or (value <<< 4) (value >>> 4))

unfoldable pub sunrise_write_control : MsxSunriseIde → ℕ → MsxSunriseIde
unfolding reverse_byte
sunrise_write_control sunrise value = record sunrise {
  control = value;
  registers_enabled = nonzero (bit_and value 1);
  bank = bit_and (reverse_byte (bit_and value 0xf8)) 7;
}

-- `memset(sunrise, 0, sizeof(*sunrise))`.
unfoldable pub blank_interface : MsxSunriseIde
unfolding blank_device
blank_interface = record {
  rom = λ i. 0;
  master = blank_device;
  control = 0;
  bank = 0;
  read_latch = 0;
  write_latch = 0;
  selected_device = 0;
  registers_enabled = false;
  soft_reset = false;
  rom_loaded = false;
}

unfoldable pub sunrise_init : MsxSunriseIde
unfolding blank_interface sunrise_write_control
sunrise_init =
    sunrise_write_control (record blank_interface { rom = λ i. 0xff; master = ata_init }) 0xff

unfoldable pub sunrise_reset : MsxSunriseIde → MsxSunriseIde
sunrise_reset sunrise = record sunrise {
  selected_device = 0;
  soft_reset = false;
  master = ata_reset sunrise.master;
}

-- The ROM is taken if it has the right size; `true` is the result 0.
unfoldable pub sunrise_install_rom : MsxSunriseIde → (ℕ → ℕ) → ℕ → MsxSunriseIde × Bool
unfolding sunrise_write_control sunrise_reset
sunrise_install_rom sunrise bytes size =
    if not (size == msx_sunrise_rom_size) then (sunrise, false) else (
      sunrise_reset
          (sunrise_write_control (record sunrise { rom = bytes; rom_loaded = true }) 0xff),
      true,
    )

-- The result of a call of the disk, with the interface around it.
abbrev pub with_master : MsxSunriseIde → AtaDevice × Bool → MsxSunriseIde × Bool
with_master sunrise r = (record sunrise { master = r.0 }, r.1)

module _ (host : Host) where
  unfoldable pub sunrise_destroy : MsxSunriseIde → MsxSunriseIde
  unfolding blank_interface
  sunrise_destroy sunrise = blank_interface

  unfoldable pub sunrise_mount_disk_mode :
      MsxSunriseIde → Bool → Option OpenFile → ℕ → MsxSunriseIde × Bool
  sunrise_mount_disk_mode sunrise path_given file mode =
      if not sunrise.rom_loaded
      then (sunrise, false)
      else with_master sunrise (ata_mount_mode host sunrise.master path_given file mode)

  unfoldable pub sunrise_mount_disk : MsxSunriseIde → Bool → Option OpenFile → MsxSunriseIde × Bool
  unfolding sunrise_mount_disk_mode
  sunrise_mount_disk sunrise path_given file =
      sunrise_mount_disk_mode sunrise path_given file read_only

  unfoldable pub sunrise_flush_disk : MsxSunriseIde → MsxSunriseIde × Bool
  sunrise_flush_disk sunrise = with_master sunrise (ata_flush host sunrise.master)

  unfoldable pub sunrise_eject_disk : MsxSunriseIde → MsxSunriseIde × Bool
  sunrise_eject_disk sunrise = with_master sunrise (ata_unmount host sunrise.master)

  unfoldable pub without_rom : MsxSunriseIde × Bool → MsxSunriseIde × Bool
  unfolding sunrise_write_control sunrise_reset
  without_rom (sunrise, false) = (sunrise, false)
  without_rom (sunrise, true) = (
    sunrise_reset
        (sunrise_write_control (record sunrise { rom = λ i. 0xff; rom_loaded = false }) 0xff),
    true,
  )

  unfoldable pub sunrise_eject_rom : MsxSunriseIde → MsxSunriseIde × Bool
  unfolding without_rom sunrise_eject_disk
  sunrise_eject_rom sunrise = without_rom (sunrise_eject_disk sunrise)

unfoldable pub sunrise_disk_mounted : MsxSunriseIde → Bool
sunrise_disk_mounted sunrise = ata_is_mounted sunrise.master

unfoldable pub sunrise_disk_writable : MsxSunriseIde → Bool
sunrise_disk_writable sunrise = ata_is_writable sunrise.master

unfoldable pub sunrise_disk_dirty : MsxSunriseIde → Bool
sunrise_disk_dirty sunrise = ata_is_dirty sunrise.master

unfoldable pub sunrise_disk_has_error : MsxSunriseIde → Bool
sunrise_disk_has_error sunrise = ata_has_io_error sunrise.master

unfoldable pub sunrise_disk_error : MsxSunriseIde → Option HostError
sunrise_disk_error sunrise = ata_last_error sunrise.master

unfoldable pub sunrise_take_activity : MsxSunriseIde → MsxSunriseIde × Bool
sunrise_take_activity sunrise = with_master sunrise (ata_take_activity sunrise.master)

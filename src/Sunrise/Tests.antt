-- ===== src/Sunrise/Tests.antt =====
-- Runs of the interface, and the theorems at concrete inputs.
use model_lib.Base.{
  pos, ℕ, zero, suc, List, [], ◌∷◌, All, ◌+◌, ◌*◌, ◌<◌, ◌≡◌, refl, true, false, some, arith,
  replicate, get_or, u8, All-replicate, bit_and,
}
use model_lib.Ata.Device.{Disk, Host, read_write, ata_lba, ata_requested_sectors}
use model_lib.Ata.Mount.{ata_init, OpenFile, ata_mount_mode}
use model_lib.Ata.Laws.Access.{IsReliable}
use model_lib.Ata.Laws.Reading.{InRange}
use model_lib.Ata.Laws.Commands.{IsRead}
use model_lib.Ata.Laws.Valid.{IsWhole, IsValid}
use model_lib.Sunrise.Device.{
  MsxSunriseIde, msx_sunrise_rom_size, msx_sunrise_bank_size, reverse_byte, sunrise_init,
  sunrise_write_control, sunrise_mount_disk_mode, sunrise_install_rom,
}
use model_lib.Sunrise.Access.{sunrise_read, sunrise_write}
use model_lib.Sunrise.Laws.Window.{IsListening, read_pairs, sunrise_read_lem}
use model_lib.Sunrise.Laws.Reach.{made, called, install, mount, write, ReachableInterface-IsValid}

abbrev good_host : Host
good_host = record {
  seek_fails = λ lba. false;
  read_count = λ lba. 512;
  write_count = λ lba. 512;
  flush_fails = false;
  sync_fails = false;
  close_fails = false;
}

good_host-IsReliable : IsReliable good_host
good_host-IsReliable = record { seeks = λ lba. refl; reads = λ lba. refl; writes = λ lba. refl }

-- Each sector is filled with its number.
abbrev numbered_disk : Disk
numbered_disk lba = replicate 512 (u8 lba)

abbrev numbered_file : OpenFile
numbered_file = record {
  disk = numbered_disk;
  end_found = true;
  size = pos 1024;
  start_found = true;
}

numbered_file-IsWhole : IsWhole (some numbered_disk)
numbered_file-IsWhole s = refl

byte_of : (xs : List ℕ) (j : ℕ) → All (λ b. b < 256) xs → get_or xs j 0 < 256
byte_of [] j a = omega arith
byte_of (x ∷ xs) zero (b, a) = b
byte_of (x ∷ xs) (suc j) (b, a) = byte_of xs j a

numbered_bytes : (lba j : ℕ) → get_or (numbered_disk lba) j 0 < 256
numbered_bytes lba j =
    byte_of (replicate 512 (u8 lba)) j (All-replicate (λ b. b < 256) 512 (u8 lba) (omega arith))

-- The interface with its ROM and a disk, at sector 1.
abbrev mounted : MsxSunriseIde
mounted = record sunrise_init {
  master = record (ata_mount_mode good_host ata_init true (some numbered_file) read_write).0 {
    sector_count = 1;
    lba_low = 1;
    device = 0xe0;
  };
  rom_loaded = true;
}

mounted-IsListening : IsListening mounted
unfolding sunrise_init sunrise_write_control
mounted-IsListening = record { loaded = refl; enabled = refl; no_reset = refl; selected = refl }

is_mounted : mounted.master.image ≡ some numbered_disk
unfolding ata_mount_mode ata_init sunrise_init
is_mounted = refl

in_range :
    InRange
      (ata_lba mounted.master)
      (ata_requested_sectors mounted.master)
      mounted.master.sector_count_total
unfolding ata_mount_mode ata_init ata_lba ata_requested_sectors
in_range = omega arith

sunrise_read_lem_example :
    let bytes = numbered_disk (ata_lba mounted.master + 0) in
    let s' = read_pairs good_host 0x7c00 0x7c01 3 (sunrise_write good_host mounted 0x7e07 0x20) in
    ((sunrise_read good_host s' 0x7c00).1 ≡ get_or bytes 6 0)
    × ((sunrise_read good_host (sunrise_read good_host s' 0x7c00).0 0x7c01).1 ≡ get_or bytes 7 0)
unfolding ata_mount_mode ata_init ata_requested_sectors
sunrise_read_lem_example =
    sunrise_read_lem good_host numbered_disk mounted 0x20 0x7c00 0x7c01 3 good_host-IsReliable
      mounted-IsListening IsRead.with_retries is_mounted numbered_bytes in_range
      (record { window = refl; low_bit = refl }) (record { window = refl; low_bit = refl })
      (omega arith)

ReachableInterface-IsValid_example :
    let s =
      sunrise_write good_host
        (sunrise_mount_disk_mode good_host
          (sunrise_install_rom sunrise_init (λ i. u8 i) msx_sunrise_rom_size).0
          true
          (some numbered_file)
          read_write).0
        0x4104
        0x81 in
    IsValid s.master
    × (s.bank * msx_sunrise_bank_size + bit_and 0x4123 0x3fff < msx_sunrise_rom_size)
ReachableInterface-IsValid_example = ReachableInterface-IsValid 0x4123 (
    called
      (called (called made (install (λ i. u8 i) msx_sunrise_rom_size))
        (mount good_host true numbered_file read_write numbered_file-IsWhole))
      (write good_host 0x4104 0x81 (omega arith)))

-- The bits of the bank number are stored in reverse order: `0x80` is bank 1.
bank_1 : (sunrise_write_control sunrise_init 0x81).bank ≡ 1
unfolding sunrise_write_control reverse_byte
bank_1 = refl

-- ===== src/Ata/Tests.antt =====
-- Runs of the disk, and the theorems at concrete inputs.
use model_lib.Base.{pos, ℕ, ◌+◌, ◌*◌, ◌%◌, ◌≡◌, refl, true, false, some, arith, replicate}
use model_lib.Ata.Device.{Disk, Host, AtaDevice, read_write, ata_lba, ata_requested_sectors}
use model_lib.Ata.Identify.{ata_build_identify}
use model_lib.Ata.Mount.{ata_init, OpenFile, ata_mount_mode, ata_mount}
use model_lib.Ata.Transfer.{ata_read_data, ata_write_data, ata_write_register}
use model_lib.Ata.Laws.Words.{word_at}
use model_lib.Ata.Laws.Access.{IsReliable}
use model_lib.Ata.Laws.Reading.{InRange, ReadDone, reads}
use model_lib.Ata.Laws.Writing.{WriteDone, writes}
use model_lib.Ata.Laws.Commands.{
  IsRead, IsWrite, read_command_lem, write_command_lem, read_command-write_command,
}
use model_lib.Ata.Laws.Valid.{IsWhole, IsValid}
use model_lib.Ata.Laws.Valid.Reach.{powered, then_, Reachable-IsValid}
use model_lib.Ata.Laws.Valid.Reach.{mount, write_port, read_word}
use model_lib.Ata.Laws.Safety.{read_only_image_kept, ata_build_identify_lem}

abbrev good_host : Host
good_host = record {
  seek_fails = λ lba. false;
  read_count = λ lba. 512;
  write_count = λ lba. 512;
  flush_fails = false;
  sync_fails = false;
  close_fails = false;
}

good_host-IsReliable : IsReliable good_host
good_host-IsReliable = record { seeks = λ lba. refl; reads = λ lba. refl; writes = λ lba. refl }

-- Two sectors, each filled with its number and 7.
abbrev small_disk : Disk
small_disk lba = replicate 512 (lba + 7)

abbrev small_file : OpenFile
small_file = record { disk = small_disk; end_found = true; size = pos 1024; start_found = true }

small_file-IsWhole : IsWhole (some small_disk)
small_file-IsWhole s = refl

abbrev mounted : AtaDevice
mounted = (ata_mount_mode good_host ata_init true (some small_file) read_write).0

-- The sector 1 of the image, by its address.
abbrev at_sector_1 : AtaDevice
at_sector_1 = record mounted { sector_count = 1; lba_low = 1; device = 0xe0 }

in_range :
    InRange (ata_lba at_sector_1) (ata_requested_sectors at_sector_1) at_sector_1.sector_count_total
unfolding ata_mount_mode ata_init ata_lba ata_requested_sectors
in_range = omega arith

is_mounted : at_sector_1.image ≡ some small_disk
unfolding ata_mount_mode ata_init
is_mounted = refl

is_writable : at_sector_1.image_mode ≡ read_write
unfolding ata_mount_mode ata_init
is_writable = refl

read_command_lem_example :
    ((ata_read_data good_host
        (reads good_host 3 (ata_write_register good_host at_sector_1 7 0x20))).1
      ≡ word_at (small_disk (ata_lba at_sector_1 + 0)) 3)
    × ReadDone small_disk (
        reads good_host
          (256 * ata_requested_sectors at_sector_1)
          (ata_write_register good_host at_sector_1 7 0x20))
unfolding ata_mount_mode ata_init ata_requested_sectors
read_command_lem_example =
    read_command_lem good_host small_disk at_sector_1 0x20 3 good_host-IsReliable
      IsRead.with_retries is_mounted in_range (omega arith)

abbrev counting : ℕ → ℕ
counting k = k % 65536

write_command_lem_example :
    (disk' : Disk) × WriteDone counting small_disk
      (ata_lba at_sector_1)
      (ata_requested_sectors at_sector_1)
      disk'
      (writes good_host counting
        (256 * ata_requested_sectors at_sector_1)
        (ata_write_register good_host at_sector_1 7 0x30))
write_command_lem_example =
    write_command_lem good_host counting small_disk at_sector_1 0x30 good_host-IsReliable
      IsWrite.with_retries is_mounted is_writable in_range

-- The same device with the image that the write leaves.
abbrev reader : AtaDevice
reader = record at_sector_1 {
  image =
      (writes good_host counting (256 * ata_requested_sectors at_sector_1)
        (ata_write_register good_host at_sector_1 7 0x30)).image;
}

read_command-write_command_example :
    (ata_read_data good_host (reads good_host 200 (ata_write_register good_host reader 7 0x20))).1
    ≡ counting 200
unfolding ata_mount_mode ata_init ata_lba ata_requested_sectors
read_command-write_command_example =
    read_command-write_command good_host counting small_disk at_sector_1 reader 0x30 0x20 200
      good_host-IsReliable IsWrite.with_retries IsRead.with_retries is_mounted is_writable in_range
      (λ k. omega arith) refl refl refl refl (omega arith)

Reachable-IsValid_example :
    IsValid (ata_read_data good_host (ata_write_register good_host mounted 7 0x20)).0
Reachable-IsValid_example = Reachable-IsValid (
    then_
      (then_ (then_ powered (mount good_host true small_file read_write small_file-IsWhole))
        (write_port good_host 7 0x20 (omega arith)))
      (read_word good_host))

abbrev protected : AtaDevice
protected = (ata_mount good_host ata_init true (some small_file)).0

read_only_image_kept_example :
    ((ata_read_data good_host protected).0.image ≡ protected.image)
    × ((ata_write_data good_host protected 0xffff).image ≡ protected.image)
    × ((ata_write_register good_host protected 7 0x30).image ≡ protected.image)
unfolding ata_mount ata_init
read_only_image_kept_example = read_only_image_kept good_host protected 0xffff 7 0x30 refl

ata_build_identify_lem_example :
    word_at (ata_build_identify mounted).sector 60
      + 65536 * word_at (ata_build_identify mounted).sector 61
    ≡ 2
unfolding ata_mount_mode ata_init
ata_build_identify_lem_example = ata_build_identify_lem mounted

-- ===== src/Ata/Laws/Commands.antt =====
-- Whole commands: what the guest reads, and what a write leaves on the image.
use model_lib.Base.{
  ℕ, ◌+◌, ◌*◌, ◌/◌, ◌%◌, ◌<◌, ◌≡◌, refl, ap, ◌∙◌, true, false, some, arith, ◌==◌, ==_iff,
}
use model_lib.Ata.Device.{
  Disk, Host, AtaDevice, read_write, ata_lba, ata_requested_sectors, blank_sector,
}
use model_lib.Ata.Execute.{
  begin_command, set_range, past_end, start_read, read_sectors, write_sectors, ata_execute,
}
use model_lib.Ata.Transfer.{ata_read_data, ata_write_register}
use model_lib.Ata.Laws.Words.{word_at, word_at-byte_of}
use model_lib.Ata.Laws.Access.{IsReliable, load_works}
use model_lib.Ata.Laws.Reading.{InRange, Reading, ReadDone, reads, read_word, reads_over}
use model_lib.Ata.Laws.Writing.{Writing, WriteDone, writes, writes_over}

-- READ SECTORS, with and without retries.
pub data IsRead : ℕ → Type 0 where
  with_retries : IsRead 0x20
  without_retries : IsRead 0x21

execute_read :
    (host : Host) (ata : AtaDevice) (command : ℕ)
    → IsRead command
    → ata_execute host ata command ≡ read_sectors host (begin_command ata command)
unfolding ata_execute
execute_read host ata command with_retries = refl
execute_read host ata command without_retries = refl

not_identify : {command : ℕ} → IsRead command → (command == 0xec) ≡ false
not_identify with_retries = refl
not_identify without_retries = refl

read_started :
    (host : Host) (works : IsReliable host) (disk : Disk) (ata : AtaDevice) (command : ℕ)
    → IsRead command
    → ata.image ≡ some disk
    → InRange (ata_lba ata) (ata_requested_sectors ata) ata.sector_count_total
    → Reading disk ata.sector_count_total
        (ata_lba ata)
        (ata_requested_sectors ata)
        0
        (ata_execute host ata command)
unfolding read_sectors begin_command set_range ata_lba ata_requested_sectors past_end start_read
read_started host works disk ata command c mounted range =
    let ranged = set_range (begin_command ata command) in
    let loaded =
      load_works host works ranged disk ranged.transfer_lba mounted (omega (arith, range)) in
    let fits : past_end ranged ≡ false = ground (arith, range.inside) in
    rw (execute_read host ata command c) (
      simp (fits, loaded)
        (record {
          mounted = mounted;
          size = refl;
          direction = refl;
          status = refl;
          command = not_identify c;
          offset = refl;
          sector = omega arith;
          left = omega arith;
          buffer = ap disk (omega arith);
        }))

-- WRITE SECTORS, with and without retries.
pub data IsWrite : ℕ → Type 0 where
  with_retries : IsWrite 0x30
  without_retries : IsWrite 0x31

execute_write :
    (host : Host) (ata : AtaDevice) (command : ℕ)
    → IsWrite command
    → ata_execute host ata command ≡ write_sectors (begin_command ata command)
unfolding ata_execute
execute_write host ata command IsWrite.with_retries = refl
execute_write host ata command IsWrite.without_retries = refl

write_started :
    (host : Host) (words : ℕ → ℕ) (disk : Disk) (ata : AtaDevice) (command : ℕ)
    → IsWrite command
    → ata.image ≡ some disk
    → ata.image_mode ≡ read_write
    → InRange (ata_lba ata) (ata_requested_sectors ata) ata.sector_count_total
    → Writing words disk ata.sector_count_total
        (ata_lba ata)
        (ata_requested_sectors ata)
        0
        disk
        (ata_execute host ata command)
unfolding write_sectors begin_command set_range ata_lba ata_requested_sectors past_end blank_sector
write_started host words disk ata command c mounted mode range =
    let ranged = set_range (begin_command ata command) in
    let fits : past_end ranged ≡ false = ground (arith, range.inside) in
    let allowed : (ata.image_mode == read_write) ≡ true =
      (==_iff ata.image_mode read_write).1 mode in
    rw (execute_write host ata command c) (
      simp (fits, allowed)
        (record {
          mounted = mounted;
          writable = mode;
          size = refl;
          direction = refl;
          status = refl;
          offset = refl;
          sector = omega arith;
          left = omega arith;
          full_length = refl;
          buffer = λ j lt. absurd (omega (arith, lt));
          stored = λ s lt. absurd (omega (arith, lt));
          others = λ s away. refl;
        }))

-- A write of the command register starts the command.
command_port :
    (host : Host) (ata : AtaDevice) (disk : Disk) (command : ℕ)
    → ata.image ≡ some disk
    → ata_write_register host ata 7 command ≡ ata_execute host ata command
unfolding ata_write_register
command_port host ata disk command e = simp e refl

-- On a host that does not fail, READ SECTORS of a range inside the image delivers the words of its
-- sectors in order, whatever was in progress before, and after the last one the device is ready
-- and no longer offers data.
pub read_command_lem :
    (host : Host) (disk : Disk) (ata : AtaDevice) (command i : ℕ)
    → IsReliable host
    → IsRead command
    → ata.image ≡ some disk
    → InRange (ata_lba ata) (ata_requested_sectors ata) ata.sector_count_total
    → i < 256 * ata_requested_sectors ata
    → ((ata_read_data host (reads host i (ata_write_register host ata 7 command))).1
        ≡ word_at (disk (ata_lba ata + i / 256)) (i % 256))
      × ReadDone disk
          (reads host (256 * ata_requested_sectors ata) (ata_write_register host ata 7 command))
read_command_lem host disk ata command i works c mounted range lt =
    let total = ata.sector_count_total in
    let lba = ata_lba ata in
    let count = ata_requested_sectors ata in
    let started = ata_execute host ata command in
    let start = read_started host works disk ata command c mounted range in
    rw (command_port host ata disk command mounted) (
      read_word host works disk total lba count range started start i lt,
      reads_over host works disk total lba count range started start,
    )

-- On a host that does not fail, WRITE SECTORS of a range inside a writable image stores the bytes
-- of the words in order, changes no other sector, and ends with the device ready and dirty.
pub write_command_lem :
    (host : Host) (words : ℕ → ℕ) (disk : Disk) (ata : AtaDevice) (command : ℕ)
    → IsReliable host
    → IsWrite command
    → ata.image ≡ some disk
    → ata.image_mode ≡ read_write
    → InRange (ata_lba ata) (ata_requested_sectors ata) ata.sector_count_total
    → (disk' : Disk) × WriteDone words disk (ata_lba ata) (ata_requested_sectors ata) disk' (
        writes host words (256 * ata_requested_sectors ata) (ata_write_register host ata 7 command))
write_command_lem host words disk ata command works c mounted mode range =
    let start = write_started host words disk ata command c mounted mode range in
    rw (command_port host ata disk command mounted) (
      writes_over host works words disk ata.sector_count_total (ata_lba ata)
        (ata_requested_sectors ata) range (ata_execute host ata command) start)

-- What WRITE SECTORS stores, READ SECTORS of the same range gives back, word by word. The reader
-- may be any later state of a device with that image.
pub read_command-write_command :
    (host : Host) (words : ℕ → ℕ) (disk : Disk) (ata reader : AtaDevice) (write read i : ℕ)
    → IsReliable host
    → IsWrite write
    → IsRead read
    → ata.image ≡ some disk
    → ata.image_mode ≡ read_write
    → InRange (ata_lba ata) (ata_requested_sectors ata) ata.sector_count_total
    → ((k : ℕ) → words k < 65536)
    → reader.image
      ≡ (writes host words
          (256 * ata_requested_sectors ata)
          (ata_write_register host ata 7 write)).image
    → reader.sector_count_total ≡ ata.sector_count_total
    → ata_lba reader ≡ ata_lba ata
    → ata_requested_sectors reader ≡ ata_requested_sectors ata
    → i < 256 * ata_requested_sectors ata
    → (ata_read_data host (reads host i (ata_write_register host reader 7 read))).1 ≡ words i
read_command-write_command host words disk ata reader write read i works w r mounted mode range word
      same total lba count lt =
    let (disk', done) = write_command_lem host words disk ata write works w mounted mode range in
    let range' : InRange (ata_lba reader) (ata_requested_sectors reader) reader.sector_count_total =
      simp (total, lba, count) range in
    let s = i / 256 in
    let k = i % 256 in
    let inside : s < ata_requested_sectors ata = omega (arith, lt) in
    let bytes = done.stored s inside in
    let here : 256 * s + k ≡ i = omega arith in
    (read_command_lem host disk' reader read i works r (same ∙ done.mounted) range' (rw count lt)).0
    ∙ ap (λ l. word_at (disk' (l + s)) k) lba
    ∙ word_at-byte_of (disk' (ata_lba ata + s)) words s k (word (256 * s + k))
        (bytes (2 * k) (omega arith)) (bytes (2 * k + 1) (omega arith))
    ∙ ap words here

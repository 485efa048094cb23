-- ===== src/Ata/Laws/Reading.antt =====
-- Reading sectors through the data port: the words of the image, in order, and then no more.
use model_lib.Base.{
  ℕ, zero, suc, ◌+◌, ◌-◌, ◌*◌, ◌/◌, ◌%◌, ◌≤◌, ◌<◌, ◌≡◌, inl, inr, refl, ap, ◌∙◌, true, false, some,
  arith, ◌==◌, Bool-cases,
}
use model_lib.Ata.Device.{Disk, Host, AtaDevice, status_ready, status_data}
use model_lib.Ata.Transfer.{
  current_word, transferring, one_less, next_sector, end_read, rewind, sector_read, ata_read_data,
}
use model_lib.Ata.Laws.Words.{word_at}
use model_lib.Ata.Laws.Access.{IsReliable, load_works}

-- The range of a transfer of `count` sectors from `lba`, on an image of `total` sectors.
pub record InRange (lba count total : ℕ) : Type 0 where
  pub some_left : 0 < count
  pub at_most : count ≤ 256
  pub inside : lba + count ≤ total
  pub word : lba + count < 4294967296

-- After `i` words of `count` sectors from `lba`.
pub record Reading (disk : Disk) (total lba count i : ℕ) (ata : AtaDevice) : Type 0 where
  pub mounted : ata.image ≡ some disk
  pub size : ata.sector_count_total ≡ total
  pub direction : ata.transfer_read ≡ true
  pub status : ata.status ≡ status_data
  pub command : (ata.command == 0xec) ≡ false
  pub offset : ata.transfer_offset ≡ 2 * (i % 256)
  pub sector : ata.transfer_lba ≡ lba + i / 256
  pub left : ata.sectors_left + i / 256 ≡ count
  pub buffer : ata.sector ≡ disk (lba + i / 256)

-- All words are read.
pub record ReadDone (disk : Disk) (ata : AtaDevice) : Type 0 where
  pub mounted : ata.image ≡ some disk
  pub direction : ata.transfer_read ≡ false
  pub status : ata.status ≡ status_ready

module _ (host : Host) (works : IsReliable host) (disk : Disk) (total lba count : ℕ)
    (range : InRange lba count total) where
  is_open :
      (i : ℕ) (ata : AtaDevice)
      → Reading disk total lba count i ata
      → transferring ata ata.transfer_read ≡ true
  unfolding transferring
  is_open i ata r = simp (r.mounted, r.direction, r.status) (ground (arith, r.offset))

  word_read :
      (i : ℕ) (ata : AtaDevice)
      → Reading disk total lba count i ata
      → current_word ata ≡ word_at (disk (lba + i / 256)) (i % 256)
  unfolding current_word word_at
  word_read i ata r = simp (r.buffer, r.offset)

  inside_sector :
      (i : ℕ) (ata : AtaDevice)
      → Reading disk total lba count i ata
      → i % 256 < 255
      → Reading disk total lba count (suc i) (ata_read_data host ata).0
  unfolding ata_read_data
  inside_sector i ata r h = ground (arith, is_open i ata r)

  last_word :
      (i : ℕ) (ata : AtaDevice)
      → Reading disk total lba count i ata
      → i % 256 ≡ 255
      → (ata_read_data host ata).0
        ≡ sector_read host (record ata { transfer_offset = ata.transfer_offset + 2 })
  unfolding ata_read_data
  last_word i ata r h = ground (arith, is_open i ata r)

  next_loaded :
      (i : ℕ) (ata : AtaDevice)
      → Reading disk total lba count i ata
      → i % 256 ≡ 255
      → suc i < 256 * count
      → Reading disk total lba count
          (suc i)
          (sector_read host (record ata { transfer_offset = ata.transfer_offset + 2 }))
  unfolding sector_read next_sector one_less rewind
  next_loaded i ata r h more =
      let moved : AtaDevice = record ata { transfer_offset = ata.transfer_offset + 2 } in
      let next = next_sector (one_less moved) in
      let loaded =
        load_works host works next disk next.transfer_lba r.mounted (omega (arith, r, range)) in
      let address : next.transfer_lba ≡ lba + suc i / 256 = omega (arith, r, range) in
      let some_left : (next.sectors_left == 0) ≡ false = ground (arith, r.left, range.at_most) in
      simp (r.command, some_left, loaded)
        (record {
          mounted = r.mounted;
          size = r.size;
          direction = r.direction;
          status = r.status;
          command = r.command;
          offset = omega arith;
          sector = address;
          left = omega (arith, r.left, range.at_most);
          buffer = ap disk address;
        })

  read_over :
      (i : ℕ) (ata : AtaDevice)
      → Reading disk total lba count i ata
      → suc i ≡ 256 * count
      → ReadDone disk (sector_read host (record ata { transfer_offset = ata.transfer_offset + 2 }))
  unfolding sector_read one_less end_read
  read_over i ata r h =
      let left = one_less (record ata { transfer_offset = ata.transfer_offset + 2 }) in
      let none_left : (left.sectors_left == 0) ≡ true = ground (arith, r.left, range) in
      simp (r.command, none_left) (record { mounted = r.mounted; direction = refl; status = refl })

  one_word :
      (i : ℕ) (ata : AtaDevice)
      → Reading disk total lba count i ata
      → suc i < 256 * count
      → Reading disk total lba count (suc i) (ata_read_data host ata).0
  one_word i ata r more = elim (Bool-cases (i % 256 == 255)) [
    | inl e ↦ rw (last_word i ata r (ground arith)) (next_loaded i ata r (ground arith) more)
    | inr e ↦ inside_sector i ata r (ground arith)
  ]

-- `n` reads of the data port.
unfoldable pub reads : Host → ℕ → AtaDevice → AtaDevice
reads host zero ata = ata
reads host (suc n) ata = (ata_read_data host (reads host n ata)).0

module _ (host : Host) (works : IsReliable host) (disk : Disk) (total lba count : ℕ)
    (range : InRange lba count total) (ata : AtaDevice)
    (start : Reading disk total lba count 0 ata) where
  reads-Reading : (i : ℕ) → i < 256 * count → Reading disk total lba count i (reads host i ata)
  unfolding reads
  reads-Reading zero h = start
  reads-Reading (suc i) h =
      one_word host works disk total lba count range i (reads host i ata)
        (reads-Reading i (omega arith)) h

  pub read_word :
      (i : ℕ)
      → i < 256 * count
      → (ata_read_data host (reads host i ata)).1 ≡ word_at (disk (lba + i / 256)) (i % 256)
  read_word i h =
      let r = reads-Reading i h in
      let opened = is_open host works disk total lba count range i (reads host i ata) r in
      value (reads host i ata) opened
      ∙ word_read host works disk total lba count range i (reads host i ata) r
    where
      value :
          (a : AtaDevice)
          → transferring a a.transfer_read ≡ true
          → (ata_read_data host a).1 ≡ current_word a
      value a e = unfold ata_read_data in ground arith

  pub reads_over : ReadDone disk (reads host (256 * count) ata)
  unfolding reads
  reads_over =
      let last = 256 * count - 1 in
      let all : 256 * count ≡ suc last = omega (arith, range.some_left) in
      let r = reads-Reading last (omega (arith, range.some_left)) in
      rw all (
        rw
          (last_word host works disk total lba count range last (reads host last ata) r
            (omega arith))
          (read_over host works disk total lba count range last (reads host last ata) r
            (omega arith)))

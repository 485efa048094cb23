-- ===== src/Ata/Laws/Writing.antt =====
-- Writing sectors through the data port: the image holds the words, in order, and nothing else
-- of it changes.
use model_lib.Base.{
  ℕ, zero, suc, ◌+◌, ◌-◌, ◌*◌, ◌/◌, ◌%◌, ◌≤◌, ◌<◌, ◌≡◌, ◌⊎◌, inl, inr, refl, ◌∙◌, true, false, some,
  arith, ◌==◌, Bool-cases, u8, u32, ◌>>>◌, length, set, length-set,
}
use model_lib.Ata.Device.{Disk, Host, AtaDevice, read_write, status_ready, status_data}
use model_lib.Ata.Sectors.{put_sector}
use model_lib.Ata.Transfer.{
  transferring, put_word, one_less, end_write, blank_next, after_store, ata_write_data,
}
use model_lib.Ata.Laws.Access.{IsReliable, store_works}
use model_lib.Ata.Laws.Reading.{InRange}
use model_lib.Ata.Laws.Stored.{Holds, Holds-set, put_sector_here, put_sector_other}

-- After `i` words of `count` sectors from `lba`: `disk` is the image, and `old` what it was.
pub record Writing (words : ℕ → ℕ) (old : Disk) (total lba count i : ℕ) (disk : Disk)
    (ata : AtaDevice) : Type 0 where
  pub mounted : ata.image ≡ some disk
  pub writable : ata.image_mode ≡ read_write
  pub size : ata.sector_count_total ≡ total
  pub direction : ata.transfer_write ≡ true
  pub status : ata.status ≡ status_data
  pub offset : ata.transfer_offset ≡ 2 * (i % 256)
  pub sector : ata.transfer_lba ≡ lba + i / 256
  pub left : ata.sectors_left + i / 256 ≡ count
  pub full_length : length ata.sector ≡ 512
  pub buffer : Holds words (512 * (i / 256)) (2 * (i % 256)) ata.sector
  pub stored : (s : ℕ) → s < i / 256 → Holds words (512 * s) 512 (disk (lba + s))
  pub others : (s : ℕ) → (s < lba) ⊎ (lba + i / 256 ≤ s) → disk s ≡ old s

pub record WriteDone (words : ℕ → ℕ) (old : Disk) (lba count : ℕ) (disk : Disk) (ata : AtaDevice)
    : Type 0 where
  pub mounted : ata.image ≡ some disk
  pub direction : ata.transfer_write ≡ false
  pub status : ata.status ≡ status_ready
  pub dirty : ata.dirty ≡ true
  pub stored : (s : ℕ) → s < count → Holds words (512 * s) 512 (disk (lba + s))
  pub others : (s : ℕ) → (s < lba) ⊎ (lba + count ≤ s) → disk s ≡ old s

module _ (host : Host) (works : IsReliable host) (words : ℕ → ℕ) (old : Disk) (total lba count : ℕ)
    (range : InRange lba count total) where
  is_open :
      (i : ℕ) (disk : Disk) (ata : AtaDevice)
      → Writing words old total lba count i disk ata
      → transferring ata ata.transfer_write ≡ true
  unfolding transferring
  is_open i disk ata r = simp (r.mounted, r.direction, r.status) (ground (arith, r.offset))

  word_buffered :
      (i : ℕ) (disk : Disk) (ata : AtaDevice)
      → Writing words old total lba count i disk ata
      → Holds words (512 * (i / 256)) (2 * (i % 256) + 2) (put_word ata (words i)).sector
  unfolding put_word
  word_buffered i disk ata r = rw r.offset (
      Holds-set words i (512 * (i / 256)) (2 * (i % 256)) ata.sector (omega arith)
        (omega (arith, r.full_length)) r.buffer)

  length_kept :
      (i : ℕ) (disk : Disk) (ata : AtaDevice)
      → Writing words old total lba count i disk ata
      → length (put_word ata (words i)).sector ≡ 512
  unfolding put_word
  length_kept i disk ata r =
      let one = set ata.sector ata.transfer_offset (u8 (words i)) in
      length-set one (ata.transfer_offset + 1) (u8 (words i >>> 8))
      ∙ length-set ata.sector ata.transfer_offset (u8 (words i))
      ∙ r.full_length

  inside_sector :
      (i : ℕ) (disk : Disk) (ata : AtaDevice)
      → Writing words old total lba count i disk ata
      → i % 256 < 255
      → Writing words old total lba count (suc i) disk (ata_write_data host ata (words i))
  unfolding ata_write_data put_word
  inside_sector i disk ata r h =
      let inside : (ata.transfer_offset + 2 == 512) ≡ false = ground (arith, r.offset) in
      let same : suc i / 256 ≡ i / 256 = omega arith in
      let next : suc i % 256 ≡ i % 256 + 1 = omega arith in
      let twice : 2 * (i % 256 + 1) ≡ 2 * (i % 256) + 2 = omega arith in
      simp (is_open i disk ata r, inside)
        (record {
          mounted = r.mounted;
          writable = r.writable;
          size = r.size;
          direction = r.direction;
          status = r.status;
          offset = omega (arith, r.offset);
          sector = omega (arith, r.sector);
          left = omega (arith, r.left);
          full_length = length_kept i disk ata r;
          buffer = rw (same, next, twice) (word_buffered i disk ata r);
          stored = rw same r.stored;
          others = rw same r.others;
        })

  full_buffer :
      (i : ℕ) (disk : Disk) (ata : AtaDevice)
      → Writing words old total lba count i disk ata
      → i % 256 ≡ 255
      → Holds words (512 * (i / 256)) 512 (put_word ata (words i)).sector
  full_buffer i disk ata r h j lt = word_buffered i disk ata r j (omega arith)

  -- The image after the sector is stored.
  stored_disk : (disk : Disk) (ata : AtaDevice) (word : ℕ) → Disk
  stored_disk disk ata word = put_sector disk ata.transfer_lba (put_word ata word).sector

  last_word :
      (i : ℕ) (disk : Disk) (ata : AtaDevice)
      → Writing words old total lba count i disk ata
      → i % 256 ≡ 255
      → i < 256 * count
      → ata_write_data host ata (words i)
        ≡ after_store (
          record (put_word ata (words i)) {
            image = some (stored_disk disk ata (words i));
            dirty = true;
            activity = true;
          },
          true,
        )
  unfolding ata_write_data put_word stored_disk
  last_word i disk ata r h lt =
      let full : (ata.transfer_offset + 2 == 512) ≡ true = ground (arith, r.offset) in
      let moved = put_word ata (words i) in
      let inside : ata.transfer_lba < ata.sector_count_total = omega (arith, r, range) in
      simp
        (
          is_open i disk ata r,
          full,
          store_works host works moved disk ata.transfer_lba r.mounted r.writable inside,
        )
        refl

  stored_more :
      (i : ℕ) (disk : Disk) (ata : AtaDevice)
      → Writing words old total lba count i disk ata
      → i % 256 ≡ 255
      → (s : ℕ) → s < i / 256 + 1
      → Holds words (512 * s) 512 (stored_disk disk ata (words i) (lba + s))
  unfolding stored_disk
  stored_more i disk ata r h s lt = elim (place s lt) [
    | inl before ↦
        rw (put_sector_other disk ata.transfer_lba (lba + s) _ (λ e. omega (arith, e, r.sector)))
          (r.stored s before)
    | inr here ↦
        rw
          (
            put_sector_here disk ata.transfer_lba (lba + s) (put_word ata (words i)).sector
                (omega (arith, here, r.sector)),
            here,
          )
          (full_buffer i disk ata r h)
  ]
    where
      place : (s : ℕ) → s < i / 256 + 1 → (s < i / 256) ⊎ (s ≡ i / 256)
      place s lt = omega arith

  others_kept :
      (i : ℕ) (disk : Disk) (ata : AtaDevice)
      → Writing words old total lba count i disk ata
      → (s : ℕ) → (s < lba) ⊎ (lba + (i / 256 + 1) ≤ s)
      → stored_disk disk ata (words i) s ≡ old s
  unfolding stored_disk
  others_kept i disk ata r s away =
      put_sector_other disk ata.transfer_lba s _ (λ e. omega (arith, e, r.sector, away))
      ∙ r.others s (omega (arith, away))

  sector_stored :
      (i : ℕ) (disk : Disk) (ata : AtaDevice)
      → Writing words old total lba count i disk ata
      → i % 256 ≡ 255
      → suc i < 256 * count
      → Writing words old total lba count
          (suc i)
          (stored_disk disk ata (words i))
          (ata_write_data host ata (words i))
  unfolding one_less blank_next put_word after_store
  sector_stored i disk ata r h more =
      let some_left : (u32 (ata.sectors_left + 4294967295) == 0) ≡ false =
        ground (arith, r.left, range.at_most) in
      let next : suc i / 256 ≡ i / 256 + 1 = omega arith in
      let none_yet : suc i % 256 ≡ 0 = omega arith in
      rw (last_word i disk ata r h (omega arith)) (
        simp some_left (record {
          mounted = refl;
          writable = r.writable;
          size = r.size;
          direction = r.direction;
          status = r.status;
          offset = omega arith;
          sector = omega (arith, r.sector, range);
          left = omega (arith, r.left, range.at_most);
          full_length = refl;
          buffer = λ j lt. absurd (omega (arith, lt, none_yet));
          stored = rw next (stored_more i disk ata r h);
          others = rw next (others_kept i disk ata r);
        }))

  write_over :
      (i : ℕ) (disk : Disk) (ata : AtaDevice)
      → Writing words old total lba count i disk ata
      → suc i ≡ 256 * count
      → WriteDone words old lba count
          (stored_disk disk ata (words i))
          (ata_write_data host ata (words i))
  unfolding one_less end_write put_word after_store
  write_over i disk ata r h =
      let none_left : (u32 (ata.sectors_left + 4294967295) == 0) ≡ true =
        ground (arith, r.left, range) in
      let all : count ≡ i / 256 + 1 = omega arith in
      let last : i % 256 ≡ 255 = omega arith in
      rw (last_word i disk ata r last (omega arith)) (
        simp none_left (record {
          mounted = refl;
          direction = refl;
          status = refl;
          dirty = refl;
          stored = λ s lt. stored_more i disk ata r last s (omega arith);
          others = λ s away. others_kept i disk ata r s (ground arith);
        }))

  one_word :
      (i : ℕ) (disk : Disk) (ata : AtaDevice)
      → Writing words old total lba count i disk ata
      → suc i < 256 * count
      → (disk' : Disk) × Writing words old total lba count
          (suc i)
          disk'
          (ata_write_data host ata (words i))
  one_word i disk ata r more = elim (Bool-cases (i % 256 == 255)) [
    | inl e ↦ (stored_disk disk ata (words i), sector_stored i disk ata r (ground arith) more)
    | inr e ↦ (disk, inside_sector i disk ata r (ground arith))
  ]

-- The first `n` words of a stream, written to the data port.
unfoldable pub writes : Host → (ℕ → ℕ) → ℕ → AtaDevice → AtaDevice
writes host words zero ata = ata
writes host words (suc n) ata = ata_write_data host (writes host words n ata) (words n)

module _ (host : Host) (works : IsReliable host) (words : ℕ → ℕ) (old : Disk) (total lba count : ℕ)
    (range : InRange lba count total) (ata : AtaDevice)
    (start : Writing words old total lba count 0 old ata) where
  writes-Writing :
      (i : ℕ)
      → i < 256 * count
      → (disk : Disk) × Writing words old total lba count i disk (writes host words i ata)
  unfolding writes
  writes-Writing zero h = (old, start)
  writes-Writing (suc i) h =
      let (disk, r) = writes-Writing i (omega arith) in
      one_word host works words old total lba count range i disk (writes host words i ata) r h

  pub writes_over :
      (disk : Disk) × WriteDone words old lba count disk (writes host words (256 * count) ata)
  unfolding writes
  writes_over =
      let last = 256 * count - 1 in
      let all : 256 * count ≡ suc last = omega (arith, range.some_left) in
      let (disk, r) = writes-Writing last (omega (arith, range.some_left)) in
      let before = writes host words last ata in
      rw all (
        stored_disk host works words old total lba count range disk before (words last),
        write_over host works words old total lba count range last disk before r (omega arith),
      )

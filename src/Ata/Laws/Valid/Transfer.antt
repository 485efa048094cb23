-- ===== src/Ata/Laws/Valid/Transfer.antt =====
-- The data port keeps the state valid.
use model_lib.Base.{
  ℕ, ◌+◌, ◌≡◌, ◌⊎◌, inl, inr, refl, ◌∙◌, Bool, true, false, not, some, arith, ◌==◌, if◌then◌else◌,
  Bool-cases, u8, ◌>>>◌, length, set, length-set,
}
use model_lib.Ata.Device.{
  Disk, Host, AtaDevice, blank_sector, read_write, status_data, ata_sector_size,
}
use model_lib.Ata.Sectors.{ata_store_sector}
use model_lib.Ata.Transfer.{
  transferring, put_word, one_less, end_read, end_write, next_sector, blank_next, rewind,
  after_store, sector_read, ata_read_data, ata_write_data,
}
use model_lib.Ata.Laws.Valid.{
  IsWhole, Sound, IsSound, Offered, IsOpen, InImage, Phase, idle, reading, writing, IsValid,
}
use model_lib.Ata.Laws.Valid.Access.{
  Loads, Stores, whole, fails, load_sector-Loads, store_sector-Stores,
}

-- An open transfer has its direction set.
pub open_direction :
    (ata : AtaDevice) (direction : Bool) → transferring ata direction ≡ true → direction ≡ true
unfolding transferring
open_direction ata true h = refl
open_direction ata false h = ground arith

-- The sectors that are left after one.
InImage-next :
    (ata : AtaDevice)
    → InImage ata
    → ((one_less ata).sectors_left == 0) ≡ false
    → InImage (next_sector (one_less ata))
unfolding one_less next_sector
InImage-next ata r h = ground arith

Phase-reading :
    (ata : AtaDevice)
    → Phase ata
    → ata.transfer_read ≡ true
    → IsOpen ata × (ata.transfer_write ≡ false) × ((ata.command ≡ 0xec) ⊎ InImage ata)
Phase-reading ata (idle i) h = absurd (ground (arith, i.no_read))
Phase-reading ata (reading o rd wr im) h = (o, wr, im)
Phase-reading ata (writing o rd wr mode im) h = absurd (ground arith)

Phase-writing :
    (ata : AtaDevice)
    → Phase ata
    → ata.transfer_write ≡ true
    → IsOpen ata × (ata.transfer_read ≡ false) × (ata.image_mode ≡ read_write) × InImage ata
Phase-writing ata (idle i) h = absurd (ground (arith, i.no_write))
Phase-writing ata (reading o rd wr im) h = absurd (ground arith)
Phase-writing ata (writing o rd wr mode im) h = (o, rd, mode, im)

-- One word further inside the sector.
further :
    {place status : ℕ}
    → Offered place status
    → (place + 2 == 512) ≡ false
    → Offered (place + 2) status
further o e = record {
  offset = ground (arith, o.offset, o.even);
  even = omega (arith, o.even);
  offers = o.offers;
}

module _ (host : Host) where
  rewound :
      (ata : AtaDevice) (r : AtaDevice × Bool)
      → IsSound ata
      → ata.transfer_read ≡ true
      → ata.transfer_write ≡ false
      → ata.status ≡ status_data
      → InImage ata
      → Loads ata r
      → IsValid (rewind r)
  unfolding rewind
  rewound ata r s rd wr st im (whole bytes e q) = rw q (record {
    sound = record {
      buffer = e;
      image_whole = s.image_whole;
      low_byte = s.low_byte;
      mid_byte = s.mid_byte;
      high_byte = s.high_byte;
      count_byte = s.count_byte;
    };
    phase = reading (record { offset = omega arith; even = refl; offers = st }) rd wr (inr im);
  })
  rewound ata r s rd wr st im (fails a v q) = rw q v

  sector_read-IsValid :
      (ata : AtaDevice)
      → IsSound ata
      → ata.transfer_read ≡ true
      → ata.transfer_write ≡ false
      → ata.status ≡ status_data
      → (ata.command ≡ 0xec) ⊎ InImage ata
      → IsValid (sector_read host ata)
  unfolding sector_read end_read one_less next_sector
  sector_read-IsValid ata s rd wr st im = elim (Bool-cases (ata.command == 0xec)) [
    | inl e ↦ simp e (over ata s wr)
    | inr e ↦ elim im [
      | inl q ↦ absurd (ground arith)
      | inr r ↦ elim (Bool-cases ((one_less ata).sectors_left == 0)) [
        | inl f ↦ simp (e, f) (over (one_less ata) s wr)
        | inr f ↦
            let next = next_sector (one_less ata) in
            simp (e, f)
              (rewound next _ s rd wr st (InImage-next ata r f)
                (load_sector-Loads host next next.transfer_lba s))
      ]
    ]
  ]
    where
      over : (a : AtaDevice) → IsSound a → a.transfer_write ≡ false → IsValid (end_read a)
      over a s wr = record {
        sound = s;
        phase = idle (record { no_read = refl; no_write = wr; no_data = refl });
      }

  word_taken :
      (ata : AtaDevice)
      → IsSound ata
      → ata.transfer_read ≡ true
      → IsOpen ata × (ata.transfer_write ≡ false) × ((ata.command ≡ 0xec) ⊎ InImage ata)
      → let moved = record ata { transfer_offset = ata.transfer_offset + 2 } in
        IsValid (if moved.transfer_offset == ata_sector_size then sector_read host moved else moved)
  word_taken ata s rd (open_, wr, im) =
      let moved : AtaDevice = record ata { transfer_offset = ata.transfer_offset + 2 } in
      elim (Bool-cases (moved.transfer_offset == ata_sector_size)) [
        | inl e ↦ simp e (sector_read-IsValid moved s rd wr open_.offers im)
        | inr e ↦ simp e (record { sound = s; phase = reading (further open_ e) rd wr im })
      ]

  -- A read of the data port keeps the state valid.
  pub read_data-IsValid : (ata : AtaDevice) → IsValid ata → IsValid (ata_read_data host ata).0
  unfolding ata_read_data
  read_data-IsValid ata v = elim (Bool-cases (transferring ata ata.transfer_read)) [
    | inr e ↦ simp e v
    | inl e ↦
        let direction = open_direction ata ata.transfer_read e in
        simp e (word_taken ata v.sound direction (Phase-reading ata v.phase direction))
  ]

  stored_next :
      (ata : AtaDevice) (r : AtaDevice × Bool)
      → IsSound ata
      → ata.transfer_read ≡ false
      → ata.image_mode ≡ read_write
      → ata.status ≡ status_data
      → ata.transfer_write ≡ true
      → InImage ata
      → Stores ata r
      → IsValid (after_store r)
  unfolding after_store one_less end_write blank_next next_sector blank_sector
  stored_next ata r s rd mode st wr im (fails a v q) = rw q v
  stored_next ata r s rd mode st wr im (whole disk w q) =
      rw q (elim (Bool-cases ((one_less ata).sectors_left == 0)) [
        | inl f ↦ simp f (record {
          sound = with_image w;
          phase = idle (record { no_read = rd; no_write = refl; no_data = refl });
        })
        | inr f ↦ simp f (record {
          sound = blank w;
          phase =
              writing (record { offset = omega arith; even = refl; offers = st }) rd wr mode
                (InImage-next ata im f);
        })
      ])
    where
      with_image :
          {disk : Disk}
          → IsWhole (some disk)
          → Sound ata.sector (some disk) ata.lba_low ata.lba_mid ata.lba_high ata.sector_count
      with_image w = record {
        buffer = s.buffer;
        image_whole = w;
        low_byte = s.low_byte;
        mid_byte = s.mid_byte;
        high_byte = s.high_byte;
        count_byte = s.count_byte;
      }

      blank :
          {disk : Disk}
          → IsWhole (some disk)
          → Sound blank_sector (some disk) ata.lba_low ata.lba_mid ata.lba_high ata.sector_count
      blank w = record {
        buffer = refl;
        image_whole = w;
        low_byte = s.low_byte;
        mid_byte = s.mid_byte;
        high_byte = s.high_byte;
        count_byte = s.count_byte;
      }

  word_put :
      (ata : AtaDevice) (value : ℕ)
      → IsSound ata
      → ata.transfer_write ≡ true
      → IsOpen ata × (ata.transfer_read ≡ false) × (ata.image_mode ≡ read_write) × InImage ata
      → let moved = put_word ata value in
        IsValid (
          if not (moved.transfer_offset == ata_sector_size)
          then moved
          else after_store (ata_store_sector host moved moved.transfer_lba))
  unfolding put_word
  word_put ata value s wr (open_, rd, mode, im) =
      let one = set ata.sector ata.transfer_offset (u8 value) in
      let size : length (put_word ata value).sector ≡ 512 =
        length-set one (ata.transfer_offset + 1) (u8 (value >>> 8))
        ∙ length-set ata.sector ata.transfer_offset (u8 value)
        ∙ s.buffer in
      let sound : IsSound (put_word ata value) = record {
        buffer = size;
        image_whole = s.image_whole;
        low_byte = s.low_byte;
        mid_byte = s.mid_byte;
        high_byte = s.high_byte;
        count_byte = s.count_byte;
      } in
      let moved = put_word ata value in
      elim (Bool-cases (ata.transfer_offset + 2 == ata_sector_size)) [
        | inr e ↦ simp e (record { sound = sound; phase = writing (further open_ e) rd wr mode im })
        | inl e ↦ simp e (
            stored_next moved (ata_store_sector host moved moved.transfer_lba) sound rd mode
              open_.offers wr im (store_sector-Stores host moved moved.transfer_lba sound))
      ]

  -- A write of the data port keeps the state valid.
  pub write_data-IsValid :
      (ata : AtaDevice) (value : ℕ) → IsValid ata → IsValid (ata_write_data host ata value)
  unfolding ata_write_data
  write_data-IsValid ata value v = elim (Bool-cases (transferring ata ata.transfer_write)) [
    | inr e ↦ simp e v
    | inl e ↦
        let direction = open_direction ata ata.transfer_write e in
        simp e (word_put ata value v.sound direction (Phase-writing ata v.phase direction))
  ]

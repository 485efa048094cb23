-- ===== src/Ata/Laws/Valid.antt =====
-- What holds of the disk between any two calls, whatever the host answers.
pub mod Access
pub mod Transfer
pub mod Answers
pub mod Commands
pub mod Reach
use model_lib.Base.{
  ℕ, zero, suc, ◌+◌, ◌-◌, ◌*◌, ◌/◌, ◌%◌, ◌^◌, ◌≤◌, ◌<◌, ◌≡◌, ◌≢◌, ◌⊎◌, inl, inr, refl, sym, ap, ap₂,
  ◌∙◌, Bool, true, false, not, ◌&&◌, ◌||◌, Option, none, some, List, [], ◌∷◌, ◌++◌, arith, ltb, leb,
  ◌==◌, if◌then◌else◌, nonzero, from_bool, one_of, switch, ==_iff, Bool-cases, all_below,
  all_below_sound, u8, u16, u32, ◌<<<◌, ◌>>>◌, length, get_or, set, replicate, All, length-set,
  get_or-set_self, get_or-set_ne, All-set, All-get_or, All-replicate, length-replicate, bit_and,
  bit_or, bit_xor,
}
use native.Mathlib.Nat.{mod-eq_of_lt}
use model_lib.Base.Bits.{bit_or-lt, bit_and-mask}
use model_lib.Ata.Device.{
  Disk, Host, HostError, AtaDevice, blank_sector, read_write, status_data, status_ready,
  ata_host_error, ata_set_error, ata_lba, ata_requested_sectors, ata_signature,
}
use model_lib.Ata.Sectors.{
  overwrite, put_sector, read_sector, load_from, ata_load_sector, write_sector, store_to,
  ata_store_sector,
}
use model_lib.Ata.Transfer.{
  current_word, transferring, put_word, one_less, end_read, end_write, next_sector, blank_next,
  rewind, after_store, sector_read, ata_read_data, ata_write_data,
}

abbrev pub IsWhole : Option Disk → Type 0
IsWhole none = Unit {0}
IsWhole (some disk) = (s : ℕ) → length (disk s) ≡ 512

-- A buffer of one sector, an image of whole sectors and a task file of bytes.
pub record Sound (sector : List ℕ) (image : Option Disk) (low mid high count : ℕ) : Type 0 where
  pub buffer : length sector ≡ 512
  pub image_whole : IsWhole image
  pub low_byte : low < 256
  pub mid_byte : mid < 256
  pub high_byte : high < 256
  pub count_byte : count < 256

abbrev pub IsSound : AtaDevice → Type 0
IsSound ata = Sound ata.sector ata.image ata.lba_low ata.lba_mid ata.lba_high ata.sector_count

-- No transfer is open, and no data is offered.
pub record NoTransfer (read write : Bool) (status : ℕ) : Type 0 where
  pub no_read : read ≡ false
  pub no_write : write ≡ false
  pub no_data : bit_and status 8 ≡ 0

abbrev pub IsIdle : AtaDevice → Type 0
IsIdle ata = NoTransfer ata.transfer_read ata.transfer_write ata.status

-- The sectors of a transfer that are still to come are inside the image.
pub record Remaining (left lba total : ℕ) : Type 0 where
  pub some_left : 0 < left
  pub at_most : left ≤ 256
  pub inside : lba + left ≤ total
  pub word : lba + left < 4294967296

abbrev pub InImage : AtaDevice → Type 0
InImage ata = Remaining ata.sectors_left ata.transfer_lba ata.sector_count_total

-- A word is offered or wanted at an even place of the sector.
pub record Offered (place status : ℕ) : Type 0 where
  pub offset : place < 512
  pub even : place % 2 ≡ 0
  pub offers : status ≡ status_data

abbrev pub IsOpen : AtaDevice → Type 0
IsOpen ata = Offered ata.transfer_offset ata.status

-- The three phases of the device.
pub data PhaseOf (read write : Bool) (status place command left lba total mode : ℕ) : Type 0 where
  idle : NoTransfer read write status → PhaseOf read write status place command left lba total mode
  reading :
      Offered place status
      → read ≡ true
      → write ≡ false
      → (command ≡ 0xec) ⊎ Remaining left lba total
      → PhaseOf read write status place command left lba total mode
  writing :
      Offered place status
      → read ≡ false
      → write ≡ true
      → mode ≡ read_write
      → Remaining left lba total
      → PhaseOf read write status place command left lba total mode

abbrev pub Phase : AtaDevice → Type 0
Phase ata =
    PhaseOf ata.transfer_read ata.transfer_write ata.status ata.transfer_offset ata.command
      ata.sectors_left ata.transfer_lba ata.sector_count_total ata.image_mode

pub record IsValid (ata : AtaDevice) : Type 0 where
  pub sound : IsSound ata
  pub phase : Phase ata

length-overwrite : (n : ℕ) (new old : List ℕ) → length (overwrite n new old) ≡ length old
unfolding overwrite
length-overwrite zero new old = refl
length-overwrite (suc n) [] old = refl
length-overwrite (suc n) (x ∷ new) [] = refl
length-overwrite (suc n) (x ∷ new) (y ∷ old) = ap suc (length-overwrite n new old)

pub put_sector-IsWhole :
    (disk : Disk) (lba : ℕ) (bytes : List ℕ)
    → IsWhole (some disk)
    → length bytes ≡ 512
    → IsWhole (some (put_sector disk lba bytes))
put_sector-IsWhole disk lba bytes h e s = ground (arith, h s)

pub set_error-IsValid :
    (ata : AtaDevice) (code : ℕ) → IsSound ata → IsValid (ata_set_error ata code)
unfolding ata_set_error
set_error-IsValid ata code s = record {
  sound = s;
  phase = idle (record { no_read = refl; no_write = refl; no_data = refl });
}

-- ===== src/Ata/Laws/Valid/Answers.antt =====
-- The commands that move no sector, and the range of those that do, keep the state valid.
use model_lib.Base.{
  ℕ, ◌^◌, ◌<◌, ◌≡◌, inl, inr, refl, false, arith, ◌==◌, Bool-cases, length, bit_and,
}
use model_lib.Base.Bits.{bit_or-lt, bit_and-mask, bit_and-pow, bit-bit_and}
use model_lib.Ata.Device.{AtaDevice, ata_error_abrt, ata_lba, ata_requested_sectors, ata_signature}
use model_lib.Ata.Identify.{
  identify_fixed, identify_sizes, identify_cylinders, identify_sectors, ata_build_identify,
}
use model_lib.Ata.Execute.{
  begin_command, ready, set_range, past_end, native_max, identify, set_features,
}
use model_lib.Ata.Laws.Valid.{
  Sound, IsSound, IsIdle, Remaining, idle, reading, IsValid, set_error-IsValid,
}

-- The address of a task file of bytes has 28 bits.
address_bound : (ata : AtaDevice) → IsSound ata → ata_lba ata < 2 ^ 28
unfolding ata_lba
address_bound ata s =
    let nibble = bit_and-mask 4 ata.device in
    bit_or-lt 28 _ _
      (bit_or-lt 28 _ _ (bit_or-lt 28 _ _ (omega (arith, s.low_byte)) (omega (arith, s.mid_byte)))
        (omega (arith, s.high_byte)))
      (omega (arith, nibble))

-- A range that passes the test is inside the image.
pub range-Remaining :
    (ata : AtaDevice)
    → IsSound ata
    → past_end (set_range ata) ≡ false
    → Remaining (set_range ata).sectors_left (set_range ata).transfer_lba ata.sector_count_total
unfolding set_range past_end ata_requested_sectors
range-Remaining ata s h = ground (arith, address_bound ata s, s.count_byte)

-- What a command begins with: no transfer.
status_bit : (status : ℕ) → bit_and (bit_and status 0xf6) 8 ≡ 0
status_bit status = omega (arith, bit_and-pow 3 (bit_and status 0xf6), bit-bit_and 3 status 0xf6)

pub begun-IsIdle : (ata : AtaDevice) (command : ℕ) → IsIdle (begin_command ata command)
unfolding begin_command
begun-IsIdle ata command = record {
  no_read = refl;
  no_write = refl;
  no_data = status_bit ata.status;
}

pub ready-IsValid : (ata : AtaDevice) → IsSound ata → IsIdle ata → IsValid (ready ata)
unfolding ready
ready-IsValid ata s i = record {
  sound = s;
  phase = idle (record { no_read = i.no_read; no_write = i.no_write; no_data = refl });
}

identify_length :
    (cylinders sectors : ℕ)
    → length (identify_sizes (identify_fixed cylinders) cylinders sectors) ≡ 512
unfolding identify_sizes identify_fixed
identify_length cylinders sectors = refl

pub identify-IsValid :
    (ata : AtaDevice)
    → IsSound ata
    → ata.command ≡ 0xec
    → ata.transfer_write ≡ false
    → IsValid (identify ata)
unfolding identify ata_build_identify
identify-IsValid ata s c wr = record {
  sound = record {
    buffer = identify_length (identify_cylinders ata) (identify_sectors ata);
    image_whole = s.image_whole;
    low_byte = s.low_byte;
    mid_byte = s.mid_byte;
    high_byte = s.high_byte;
    count_byte = s.count_byte;
  };
  phase = reading (record { offset = omega arith; even = refl; offers = refl }) refl wr (inl c);
}

pub task-IsSound :
    (ata : AtaDevice) (low mid high count : ℕ)
    → IsSound ata
    → low < 256
    → mid < 256
    → high < 256
    → count < 256
    → Sound ata.sector ata.image low mid high count
task-IsSound ata low mid high count s l m h c = record {
  buffer = s.buffer;
  image_whole = s.image_whole;
  low_byte = l;
  mid_byte = m;
  high_byte = h;
  count_byte = c;
}

pub native_max-IsValid : (ata : AtaDevice) → IsSound ata → IsIdle ata → IsValid (native_max ata)
unfolding native_max
native_max-IsValid ata s i = record {
  sound = task-IsSound ata _ _ _ _ s (omega arith) (omega arith) (omega arith) s.count_byte;
  phase = idle (record { no_read = i.no_read; no_write = i.no_write; no_data = refl });
}

pub signature-IsSound : (ata : AtaDevice) → IsSound ata → IsSound (ata_signature ata)
unfolding ata_signature
signature-IsSound ata s =
    task-IsSound ata 1 0 0 1 s (omega arith) (omega arith) (omega arith) (omega arith)

pub signature-IsIdle : (ata : AtaDevice) → IsIdle ata → IsIdle (ata_signature ata)
unfolding ata_signature
signature-IsIdle ata i = i

pub set_features-IsValid : (ata : AtaDevice) → IsSound ata → IsIdle ata → IsValid (set_features ata)
unfolding set_features
set_features-IsValid ata s i = elim (Bool-cases (ata.features == 3)) [
  | inl e ↦ simp e (ready-IsValid ata s i)
  | inr e ↦ simp e (set_error-IsValid ata ata_error_abrt s)
]

pub ranged-IsSound : (ata : AtaDevice) → IsSound ata → IsSound (set_range ata)
unfolding set_range
ranged-IsSound ata s = s

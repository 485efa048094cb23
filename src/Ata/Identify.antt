-- ===== src/Ata/Identify.antt =====
-- The 512 bytes that IDENTIFY DEVICE answers.
use model_lib.Base.{
  ℕ, zero, suc, ◌+◌, ◌*◌, ◌/◌, List, [], ◌∷◌, ltb, if◌then◌else◌, u8, u16, u32, ◌>>>◌, get_or, set,
}
use model_lib.Ata.Device.{AtaDevice, blank_sector}

unfoldable pub ata_write_word : List ℕ → ℕ → ℕ → List ℕ
ata_write_word bytes word value =
    set (set bytes (word * 2) (u8 value)) (word * 2 + 1) (u8 (value >>> 8))

-- The loop of `ata_write_string` from index `i`, with `n` rounds to go; a text is its codes.
unfoldable pub write_string_loop : ℕ → ℕ → List ℕ → ℕ → List ℕ → List ℕ
write_string_loop zero i bytes first_word text = bytes
write_string_loop (suc n) i bytes first_word text =
    let first = get_or text (i * 2) 32 in
    let second = get_or text (i * 2 + 1) 32 in
    let swapped = set (set bytes ((first_word + i) * 2) second) ((first_word + i) * 2 + 1) first in
    write_string_loop n (i + 1) swapped first_word text

unfoldable pub ata_write_string : List ℕ → ℕ → ℕ → List ℕ → List ℕ
unfolding write_string_loop
ata_write_string bytes first_word words text = write_string_loop words 0 bytes first_word text

-- "1983SUNRISE00000001"
abbrev pub serial_number : List ℕ
serial_number =
    49 ∷ 57 ∷ 56 ∷ 51 ∷ 83 ∷ 85 ∷ 78 ∷ 82 ∷ 73 ∷ 83 ∷ 69 ∷ 48 ∷ 48 ∷ 48 ∷ 48 ∷ 48 ∷ 48 ∷ 48 ∷ 49
    ∷ []

-- "1.0"
abbrev pub firmware : List ℕ
firmware = 49 ∷ 46 ∷ 48 ∷ []

-- "1983 Sunrise IDE disk"
abbrev pub model : List ℕ
model =
    49 ∷ 57 ∷ 56 ∷ 51 ∷ 32 ∷ 83 ∷ 117 ∷ 110 ∷ 114 ∷ 105 ∷ 115 ∷ 101 ∷ 32 ∷ 73 ∷ 68 ∷ 69 ∷ 32 ∷ 100
    ∷ 105 ∷ 115 ∷ 107 ∷ []

unfoldable pub identify_sectors : AtaDevice → ℕ
identify_sectors ata =
    if ltb 0x0fffffff ata.sector_count_total then 0x0fffffff else u32 ata.sector_count_total

unfoldable pub identify_cylinders : AtaDevice → ℕ
unfolding identify_sectors
identify_cylinders ata =
    let cylinders = identify_sectors ata / (16 * 63) in
    if ltb cylinders 1 then 1 else if ltb 65535 cylinders then 65535 else cylinders

-- The words up to 49, and those from 53.
unfoldable pub identify_fixed : ℕ → List ℕ
unfolding ata_write_word ata_write_string blank_sector
identify_fixed cylinders =
    let bytes = ata_write_word blank_sector 0 0x0040 in
    let bytes = ata_write_word bytes 1 (u16 cylinders) in
    let bytes = ata_write_word bytes 3 16 in
    let bytes = ata_write_word bytes 6 63 in
    let bytes = ata_write_string bytes 10 10 serial_number in
    let bytes = ata_write_string bytes 23 4 firmware in
    let bytes = ata_write_string bytes 27 20 model in
    let bytes = ata_write_word bytes 47 0x8010 in ata_write_word bytes 49 0x0200

unfoldable pub identify_sizes : List ℕ → ℕ → ℕ → List ℕ
unfolding ata_write_word
identify_sizes bytes cylinders sectors =
    let chs_capacity = u32 (cylinders * 16 * 63) in
    let bytes = ata_write_word bytes 53 0x0001 in
    let bytes = ata_write_word bytes 54 (u16 cylinders) in
    let bytes = ata_write_word bytes 55 16 in
    let bytes = ata_write_word bytes 56 63 in
    let bytes = ata_write_word bytes 57 (u16 chs_capacity) in
    let bytes = ata_write_word bytes 58 (u16 (chs_capacity >>> 16)) in
    let bytes = ata_write_word bytes 60 (u16 sectors) in
    let bytes = ata_write_word bytes 61 (u16 (sectors >>> 16)) in
    let bytes = ata_write_word bytes 80 0x0006 in
    let bytes = ata_write_word bytes 82 0x1000 in ata_write_word bytes 85 0x1000

unfoldable pub ata_build_identify : AtaDevice → AtaDevice
unfolding identify_fixed identify_sizes identify_cylinders identify_sectors
ata_build_identify ata =
    let cylinders = identify_cylinders ata in
    record ata {
      sector = identify_sizes (identify_fixed cylinders) cylinders (identify_sectors ata);
    }

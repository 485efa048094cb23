-- ===== src/Cartridge/Access.antt =====
-- Reads, writes and sound of a cartridge: the banked access of src/cartridge.c.
use model_lib.Base.{
  ℕ, zero, suc, ◌+◌, ◌-◌, ◌*◌, ◌/◌, bit_and, Bool, true, false, not, ◌&&◌, List, [], ◌∷◌, Option,
  none, some,
}
use model_lib.Base.{
  ltb, leb, ◌==◌, if◌then◌else◌, nonzero, u8, ◌>>>◌, length, get_or, set, ℤ, ◌+ℤ◌, clamp16, pos,
}
use model_lib.Scc.Chip.{scc_read, scc_write}
use model_lib.Scc.Render.{scc_render}
use model_lib.Cartridge.Mapper.{
  MsxCartridgeMapper, mapper_auto, mapper_linear, mapper_ascii8, mapper_ascii16, mapper_konami,
  mapper_konami_scc,
}
use model_lib.Cartridge.Slot.{MsxCartridge}

unfoldable pub bank_count : MsxCartridge → ℕ → ℕ
bank_count s bank_size = (length s.data_bytes + bank_size - 1) / bank_size

-- The `while` of bank_mask, with the count as fuel.
unfoldable pub double_until : ℕ → ℕ → ℕ → ℕ
double_until zero mask count = mask
double_until (suc n) mask count =
    let rest = double_until n (mask * 2) count in if ltb mask count then rest else mask

unfoldable pub bank_mask : ℕ → ℕ
bank_mask count = double_until count 1 count - 1

unfoldable pub is_konami : MsxCartridgeMapper → Bool
is_konami mapper_auto = false
is_konami mapper_linear = false
is_konami mapper_ascii8 = false
is_konami mapper_ascii16 = false
is_konami mapper_konami = true
is_konami mapper_konami_scc = false

-- None is `(size_t)-1`.
unfoldable pub selected_bank : MsxCartridge → ℕ → ℕ → Option ℕ
selected_bank s value bank_size =
    let count = bank_count s bank_size in
    let mask = if is_konami s.mapper then 0x1f else bank_mask count in
    let selected = if leb count value then bit_and value mask else value in
    if ltb selected count then some selected else none

-- `data[offset]`, and 0xff past the end.
unfoldable pub byte_at : MsxCartridge → ℕ → ℕ
byte_at s offset =
    if ltb offset (length s.data_bytes) then get_or s.data_bytes offset 0xff else 0xff

unfoldable pub read_bank : MsxCartridge → ℕ → ℕ → ℕ → ℕ
read_bank s bank bank_size in_bank = elim (selected_bank s bank bank_size) [
  | none ↦ 0xff
  | some selected ↦ byte_at s (selected * bank_size + in_bank)
]

unfoldable pub read_linear : ℕ → MsxCartridge → ℕ
read_linear address s = if ltb address s.base then 0xff else byte_at s (address - s.base)

unfoldable pub outside : ℕ → Bool
outside address = not (leb 0x4000 address && ltb address 0xc000)

-- A read in the window of 8 KB that holds the address.
unfoldable pub read_window8 : ℕ → MsxCartridge → ℕ
read_window8 address s =
    read_bank s (get_or s.banks ((address - 0x4000) >>> 13) 0) 0x2000 (bit_and address 0x1fff)

unfoldable pub read_window16 : ℕ → MsxCartridge → ℕ
read_window16 address s =
    read_bank s (get_or s.banks ((address - 0x4000) >>> 14) 0) 0x4000 (bit_and address 0x3fff)

-- The upper and the lower quarter of the address space show other windows, `by` bytes away.
unfoldable pub folded : ℕ → ℕ → ℕ
folded by address =
    if ltb address 0x4000
    then address + by
    else if leb 0xc000 address
    then address - by
    else address

unfoldable pub at_scc : ℕ → MsxCartridge → Bool
at_scc address s = s.scc_enabled && leb 0x9800 address && ltb address 0xa000

unfoldable pub read_konami_scc : ℕ → MsxCartridge → ℕ × MsxCartridge
read_konami_scc address s =
    let (value, chip) = scc_read (u8 address) s.scc in
    if at_scc address s
    then (value, record s { scc = chip })
    else (read_window8 (folded 0x8000 address) s, s)

unfoldable pub read_mapped : ℕ → MsxCartridgeMapper → MsxCartridge → ℕ × MsxCartridge
read_mapped address mapper_auto s = (0xff, s)
read_mapped address mapper_linear s = (read_linear address s, s)
read_mapped address mapper_ascii8 s = (if outside address then 0xff else read_window8 address s, s)
read_mapped address mapper_ascii16 s =
    (if outside address then 0xff else read_window16 address s, s)
read_mapped address mapper_konami s = (read_window8 (folded 0x4000 address) s, s)
read_mapped address mapper_konami_scc s = read_konami_scc address s

unfoldable pub msx_cartridge_read : ℕ → MsxCartridge → ℕ × MsxCartridge
msx_cartridge_read address s = if s.loaded then read_mapped address s.mapper s else (0xff, s)

abbrev set_bank : ℕ → ℕ → MsxCartridge → MsxCartridge
set_bank window value s = record s { banks = set s.banks window value }

unfoldable pub write_ascii8 : ℕ → ℕ → MsxCartridge → MsxCartridge
write_ascii8 address value s =
    if leb 0x6000 address && ltb address 0x8000
    then set_bank (bit_and (address >>> 11) 3) value s
    else s

unfoldable pub write_ascii16 : ℕ → ℕ → MsxCartridge → MsxCartridge
write_ascii16 address value s =
    if leb 0x6000 address && ltb address 0x7800 && not (nonzero (bit_and address 0x0800))
    then set_bank ((address - 0x6000) >>> 12) value s
    else s

unfoldable pub write_konami : ℕ → ℕ → MsxCartridge → MsxCartridge
write_konami address value s =
    if leb 0x6000 address && ltb address 0xc000
    then set_bank ((address - 0x4000) >>> 13) value s
    else s

unfoldable pub select_konami_scc : ℕ → ℕ → MsxCartridge → MsxCartridge
select_konami_scc window value s =
    let t = set_bank window value s in
    if window == 2 then record t { scc_enabled = bit_and value 0x3f == 0x3f } else t

unfoldable pub write_konami_scc : ℕ → ℕ → MsxCartridge → MsxCartridge
write_konami_scc address value s =
    if at_scc address s
    then record s { scc = scc_write (u8 address) value s.scc }
    else if leb 0x5000 address && ltb address 0xc000 && (bit_and address 0x1800 == 0x1000)
    then select_konami_scc ((address - 0x4000) >>> 13) value s
    else s

unfoldable pub write_mapped : ℕ → ℕ → MsxCartridgeMapper → MsxCartridge → MsxCartridge
write_mapped address value mapper_auto s = s
write_mapped address value mapper_linear s = s
write_mapped address value mapper_ascii8 s = write_ascii8 address value s
write_mapped address value mapper_ascii16 s = write_ascii16 address value s
write_mapped address value mapper_konami s = write_konami address value s
write_mapped address value mapper_konami_scc s = write_konami_scc address value s

unfoldable pub msx_cartridge_write : ℕ → ℕ → MsxCartridge → MsxCartridge
msx_cartridge_write address value s = if s.loaded then write_mapped address value s.mapper s else s

abbrev first_sample : List ℤ → ℤ
first_sample [] = pos 0
first_sample (x ∷ xs) = x

unfoldable pub mix_scc : ℤ → ℕ → ℕ → MsxCartridge → ℤ × MsxCartridge
mix_scc sample clock_hz sample_rate s =
    let (samples, chip) = scc_render 1 clock_hz sample_rate s.scc in
    (clamp16 (sample +ℤ first_sample samples), record s { scc = chip })

unfoldable pub is_konami_scc : MsxCartridgeMapper → Bool
is_konami_scc mapper_auto = false
is_konami_scc mapper_linear = false
is_konami_scc mapper_ascii8 = false
is_konami_scc mapper_ascii16 = false
is_konami_scc mapper_konami = false
is_konami_scc mapper_konami_scc = true

-- `*sample` before and after.
unfoldable pub msx_cartridge_render_audio : ℤ → ℕ → ℕ → MsxCartridge → ℤ × MsxCartridge
msx_cartridge_render_audio sample clock_hz sample_rate s =
    if s.loaded && is_konami_scc s.mapper
    then mix_scc sample clock_hz sample_rate s
    else (sample, s)

-- ===== src/Rtc/Record.antt =====
-- The 84 bytes in which the clock is kept, and the checks on them.
use model_lib.Base.{
  ℕ, zero, suc, ◌+◌, ◌-◌, ◌*◌, ◌%◌, Bool, true, not, ◌&&◌, ◌||◌, List, [], ◌∷◌, ltb, leb,
  if◌then◌else◌, nonzero, u8, u32, ◌<<<◌, ◌>>>◌, get_or, set, bit_and, bit_or, bit_xor,
}
use model_lib.Rtc.Chip.{Registers, register_masks, decode_pair, twenty_four_hour_mode}
use model_lib.Rtc.Calendar.{days_in_month}

-- `write_le32(data + offset, value)`.
unfoldable pub write_le32 : List ℕ → ℕ → ℕ → List ℕ
write_le32 bytes offset value =
    let bytes = set bytes offset (u8 value) in
    let bytes = set bytes (offset + 1) (u8 (value >>> 8)) in
    let bytes = set bytes (offset + 2) (u8 (value >>> 16)) in
    set bytes (offset + 3) (u8 (value >>> 24))

unfoldable pub read_le32 : List ℕ → ℕ → ℕ
read_le32 bytes offset =
    bit_or
      (bit_or (bit_or (get_or bytes offset 0) (u32 (get_or bytes (offset + 1) 0 <<< 8)))
        (u32 (get_or bytes (offset + 2) 0 <<< 16)))
      (u32 (get_or bytes (offset + 3) 0 <<< 24))

-- The loop of `write_le64` from index `i`, with `n` rounds to go.
unfoldable pub write_le64_loop : ℕ → ℕ → List ℕ → ℕ → ℕ → List ℕ
write_le64_loop zero i bytes offset value = bytes
write_le64_loop (suc n) i bytes offset value =
    write_le64_loop n (i + 1) (set bytes (offset + i) (u8 (value >>> (8 * i)))) offset value

unfoldable pub write_le64 : List ℕ → ℕ → ℕ → List ℕ
unfolding write_le64_loop
write_le64 bytes offset value = write_le64_loop 8 0 bytes offset value

unfoldable pub read_le64_loop : ℕ → ℕ → ℕ → List ℕ → ℕ → ℕ
read_le64_loop zero i value bytes offset = value
read_le64_loop (suc n) i value bytes offset =
    read_le64_loop n (i + 1)
      (bit_or value ((get_or bytes (offset + i) 0 <<< (8 * i)) % 18446744073709551616)) bytes offset

unfoldable pub read_le64 : List ℕ → ℕ → ℕ
unfolding read_le64_loop
read_le64 bytes offset = read_le64_loop 8 0 0 bytes offset

unfoldable pub persistence_checksum_from : ℕ → List ℕ → ℕ → ℕ
persistence_checksum_from hash bytes zero = hash
persistence_checksum_from hash [] (suc size) = hash
persistence_checksum_from hash (b ∷ bytes) (suc size) =
    persistence_checksum_from (u32 (bit_xor hash b * 16777619)) bytes size

unfoldable pub persistence_checksum : List ℕ → ℕ → ℕ
unfolding persistence_checksum_from
persistence_checksum bytes size = persistence_checksum_from 2166136261 bytes size

unfoldable pub valid_bcd_pair : Registers → ℕ → ℕ → Bool
valid_bcd_pair registers low maximum =
    leb (registers 0 low) 9
    && leb (registers 0 (low + 1)) 9
    && leb (decode_pair registers 0 low) maximum

-- No bit of a register below `reg` of the block is outside its mask.
unfoldable pub block_in_masks : Registers → ℕ → ℕ → Bool
unfolding register_masks
block_in_masks registers block zero = true
block_in_masks registers block (suc reg) =
    let rest = block_in_masks registers block reg in
    not (nonzero (bit_and (registers block reg) (255 - register_masks block reg))) && rest

unfoldable pub all_in_masks : Registers → Bool
unfolding block_in_masks
all_in_masks registers =
    block_in_masks registers 0 13
    && block_in_masks registers 1 13
    && block_in_masks registers 2 13
    && block_in_masks registers 3 13

unfoldable pub valid_raw_hour : Registers → Bool
unfolding decode_pair twenty_four_hour_mode
valid_raw_hour registers =
    let raw_hour = decode_pair registers 0 4 in
    if twenty_four_hour_mode registers
    then ltb raw_hour 24
    else ltb raw_hour 12 || (leb 20 raw_hour && ltb raw_hour 32)

unfoldable pub valid_date : Registers → Bool
valid_date registers =
    let day = decode_pair registers 0 7 in
    let month = decode_pair registers 0 9 in
    leb 1 day && leb 1 month && leb day (days_in_month month (registers 1 11))

unfoldable pub valid_persisted_registers : Registers → Bool
valid_persisted_registers registers =
    all_in_masks registers
    && valid_bcd_pair registers 0 59
    && valid_bcd_pair registers 2 59
    && leb (registers 0 4) 9
    && ltb (registers 0 6) 7
    && valid_bcd_pair registers 7 31
    && valid_bcd_pair registers 9 12
    && valid_bcd_pair registers 11 99
    && valid_date registers
    && valid_raw_hour registers

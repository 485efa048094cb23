-- ===== src/Rtc/Chip.antt =====
-- The state of the clock, its register file, and the decimal digits in it.
use model_lib.Base.{
  ℕ, ◌+◌, ◌-◌, ◌*◌, ◌/◌, ◌%◌, Bool, not, ◌&&◌, List, [], ◌∷◌, leb, ◌==◌, if◌then◌else◌, nonzero, u8,
  get_or, replicate, bit_and,
}

-- The array `registers[4][13]`, by block and register.
abbrev pub Registers : Type 0
Registers = ℕ → ℕ → ℕ

pub record MsxRtc : Type 0 where
  pub registers : Registers
  pub latch : ℕ
  pub mode : ℕ
  pub test : ℕ
  pub reset : ℕ
  pub cycle_accumulator : ℕ
  pub test_cycle_accumulator : ℕ
  pub dirty : Bool

abbrev pub block_masks : List (List ℕ)
block_masks =
    (0x0f ∷ 0x07 ∷ 0x0f ∷ 0x07 ∷ 0x0f ∷ 0x03 ∷ 0x07 ∷ 0x0f ∷ 0x03 ∷ 0x0f ∷ 0x01 ∷ 0x0f ∷ 0x0f ∷ [])
    ∷ (0x00 ∷ 0x00 ∷ 0x0f ∷ 0x07 ∷ 0x0f ∷ 0x03 ∷ 0x07 ∷ 0x0f ∷ 0x03 ∷ 0x00 ∷ 0x01 ∷ 0x03 ∷ 0x00
        ∷ [])
    ∷ replicate 13 0x0f
    ∷ replicate 13 0x0f
    ∷ []

unfoldable pub register_masks : Registers
register_masks block reg = get_or (get_or block_masks block []) reg 0

-- `registers[block][reg] = value`.
abbrev pub store : Registers → ℕ → ℕ → ℕ → Registers
store registers block reg value b r = if (b == block) && (r == reg) then value else registers b r

unfoldable pub decode_pair : Registers → ℕ → ℕ → ℕ
decode_pair registers block low = registers block low + 10 * registers block (low + 1)

unfoldable pub encode_pair : Registers → ℕ → ℕ → ℕ → Registers
encode_pair registers block low value =
    store (store registers block low (u8 (value % 10))) block (low + 1) (u8 (value / 10))

unfoldable pub twenty_four_hour_mode : Registers → Bool
twenty_four_hour_mode registers = nonzero (bit_and (registers 1 10) 1)

unfoldable pub decode_hour : Registers → ℕ
unfolding decode_pair twenty_four_hour_mode
decode_hour registers =
    let hour = decode_pair registers 0 4 in
    (if not (twenty_four_hour_mode registers) && leb 20 hour then hour - 20 + 12 else hour) % 24

unfoldable pub encode_hour : Registers → ℕ → Registers
unfolding encode_pair twenty_four_hour_mode
encode_hour registers hour =
    encode_pair registers 0 4
      (if not (twenty_four_hour_mode registers) && leb 12 hour then hour - 12 + 20 else hour)

-- ===== src/Ata/Laws/Words.antt =====
-- The words of a sector, low byte first.
use model_lib.Base.{
  ℕ, ◌+◌, ◌*◌, ◌/◌, ◌%◌, ◌^◌, ◌<◌, ◌≡◌, ap, ◌∙◌, List, arith, ◌==◌, if◌then◌else◌, u8, u16, ◌<<<◌,
  ◌>>>◌, get_or, bit_or,
}
use model_lib.Base.Bits.{bit_or-fields, bit_or_comm}

-- The word at index `k` of a sector.
unfoldable pub word_at : List ℕ → ℕ → ℕ
word_at bytes k = bit_or (get_or bytes (2 * k) 0) (u16 (get_or bytes (2 * k + 1) 0 <<< 8))

-- The byte at index `j` of a stream of words.
unfoldable pub byte_of : (ℕ → ℕ) → ℕ → ℕ
byte_of words j = if j % 2 == 0 then u8 (words (j / 2)) else u8 (words (j / 2) >>> 8)

joined : (v : ℕ) → v < 65536 → bit_or (u8 v) (u16 (u8 (v >>> 8) <<< 8)) ≡ v
joined v h =
    let high : u16 (u8 (v >>> 8) <<< 8) ≡ u8 (v >>> 8) * 2 ^ 8 = omega arith in
    ap (bit_or (u8 v)) high
    ∙ bit_or_comm (u8 v) (u8 (v >>> 8) * 2 ^ 8)
    ∙ bit_or-fields 8 (u8 (v >>> 8)) (u8 v) (omega arith)
    ∙ omega arith

-- A sector that holds the bytes of a stream from index `512 * s` on holds its words.
pub word_at-byte_of :
    (bytes : List ℕ) (words : ℕ → ℕ) (s k : ℕ)
    → words (256 * s + k) < 65536
    → get_or bytes (2 * k) 0 ≡ byte_of words (512 * s + 2 * k)
    → get_or bytes (2 * k + 1) 0 ≡ byte_of words (512 * s + (2 * k + 1))
    → word_at bytes k ≡ words (256 * s + k)
unfolding word_at byte_of
word_at-byte_of bytes words s k h low high =
    let even : (512 * s + 2 * k) % 2 ≡ 0 = omega arith in
    let odd : (512 * s + (2 * k + 1)) % 2 ≡ 1 = omega arith in
    let here : (512 * s + 2 * k) / 2 ≡ 256 * s + k = omega arith in
    let there : (512 * s + (2 * k + 1)) / 2 ≡ 256 * s + k = omega arith in
    rw (low, high, even, odd, here, there) (joined (words (256 * s + k)) h)

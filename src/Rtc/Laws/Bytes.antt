-- ===== src/Rtc/Laws/Bytes.antt =====
-- The little-endian numbers of the saved record, and its checksum.
use model_lib.Base.{
  ℕ, zero, suc, ◌+◌, ◌*◌, ◌%◌, ◌^◌, ◌≤◌, ◌<◌, ◌≡◌, refl, ap, ◌∙◌, List, [], ◌∷◌, arith, u8, u32,
  ◌<<<◌, ◌>>>◌, length, get_or, set, length-set, get_or-set_self, get_or-set_ne, bit_or, bit_xor,
}
use native.Mathlib.Nat.{mod-eq_of_lt}
use model_lib.Base.Bits.{bit_or-fields, bit_or_comm}
use model_lib.Rtc.Record.{
  write_le32, read_le32, read_le64, persistence_checksum, persistence_checksum_from,
}

-- A byte above `k` bits that are read already.
join : (k low b : ℕ) → low < 2 ^ k → bit_or low (b * 2 ^ k) ≡ low + b * 2 ^ k
join k low b h = bit_or_comm low (b * 2 ^ k) ∙ bit_or-fields k b low h ∙ omega arith

-- Four bytes of a word, joined as `read_le32` does.
joined32 :
    (v : ℕ)
    → v < 4294967296
    → bit_or
        (bit_or (bit_or (u8 v) (u32 (u8 (v >>> 8) <<< 8))) (u32 (u8 (v >>> 16) <<< 16)))
        (u32 (u8 (v >>> 24) <<< 24))
      ≡ v
joined32 v h =
    let w1 : u32 (u8 (v >>> 8) <<< 8) ≡ u8 (v >>> 8) * 2 ^ 8 = omega arith in
    let w2 : u32 (u8 (v >>> 16) <<< 16) ≡ u8 (v >>> 16) * 2 ^ 16 = omega arith in
    let w3 : u32 (u8 (v >>> 24) <<< 24) ≡ u8 (v >>> 24) * 2 ^ 24 = omega arith in
    let b1 = u8 (v >>> 8) in
    let b2 = u8 (v >>> 16) in
    let b3 = u8 (v >>> 24) in
    ap (bit_or (bit_or (bit_or (u8 v) (u32 (b1 <<< 8))) (u32 (b2 <<< 16)))) w3
    ∙ ap (λ m. bit_or (bit_or (bit_or (u8 v) (u32 (b1 <<< 8))) m) (b3 * 2 ^ 24)) w2
    ∙ ap (λ m. bit_or (bit_or (bit_or (u8 v) m) (b2 * 2 ^ 16)) (b3 * 2 ^ 24)) w1
    ∙ ap (λ m. bit_or (bit_or m (b2 * 2 ^ 16)) (b3 * 2 ^ 24)) (join 8 (u8 v) b1 (omega arith))
    ∙ ap (λ m. bit_or m (b3 * 2 ^ 24)) (join 16 (u8 v + b1 * 2 ^ 8) b2 (omega arith))
    ∙ join 24 (u8 v + b1 * 2 ^ 8 + b2 * 2 ^ 16) b3 (omega arith)
    ∙ omega arith

-- One round of `read_le64`, at a shift of `k` bits.
join64 :
    (k low b : ℕ)
    → low < 2 ^ k
    → b * 2 ^ k < 18446744073709551616
    → bit_or low ((b <<< k) % 18446744073709551616) ≡ low + b * 2 ^ k
join64 k low b h w = ap (bit_or low) (mod-eq_of_lt w) ∙ join k low b h

module _ (bytes : List ℕ) (i v : ℕ) where
  byte_at : i < length bytes → get_or (set bytes i v) i 0 ≡ v
  byte_at h = get_or-set_self bytes i v 0 h

  byte_past : (j : ℕ) → i < j → get_or (set bytes i v) j 0 ≡ get_or bytes j 0
  byte_past j h = get_or-set_ne bytes i j v 0 (λ e. omega (arith, e))

  byte_before : (j : ℕ) → j < i → get_or (set bytes i v) j 0 ≡ get_or bytes j 0
  byte_before j h = get_or-set_ne bytes i j v 0 (λ e. omega (arith, e))

-- The four bytes that `write_le32` stores.
stored32 :
    (bytes : List ℕ) (i a b c d : ℕ)
    → i + 3 < length bytes
    → let stored = set (set (set (set bytes i a) (i + 1) b) (i + 2) c) (i + 3) d in
      (get_or stored i 0 ≡ a)
      × (get_or stored (i + 1) 0 ≡ b)
      × (get_or stored (i + 2) 0 ≡ c)
      × (get_or stored (i + 3) 0 ≡ d)
stored32 bytes i a b c d h =
    let one = set bytes i a in
    let two = set one (i + 1) b in
    let three = set two (i + 2) c in
    let n1 : length one ≡ length bytes = length-set bytes i a in
    let n2 : length two ≡ length one = length-set one (i + 1) b in
    let n3 : length three ≡ length two = length-set two (i + 2) c in
    (
      byte_before three (i + 3) d i (omega arith)
          ∙ byte_before two (i + 2) c i (omega arith)
          ∙ byte_before one (i + 1) b i (omega arith)
          ∙ byte_at bytes i a (omega arith),
      byte_before three (i + 3) d (i + 1) (omega arith)
          ∙ byte_before two (i + 2) c (i + 1) (omega arith)
          ∙ byte_at one (i + 1) b (omega arith),
      byte_before three (i + 3) d (i + 2) (omega arith) ∙ byte_at two (i + 2) c (omega arith),
      byte_at three (i + 3) d (omega arith),
    )

-- A number of 32 bits that is stored inside the array is read back.
pub read_le32-write_le32 :
    (bytes : List ℕ) (offset value : ℕ)
    → offset + 3 < length bytes
    → value < 4294967296
    → read_le32 (write_le32 bytes offset value) offset ≡ value
unfolding read_le32 write_le32
read_le32-write_le32 bytes offset v h k =
    let (b0, b1, b2, b3) =
      stored32 bytes offset (u8 v) (u8 (v >>> 8)) (u8 (v >>> 16)) (u8 (v >>> 24)) h in
    rw (b0, b1, b2, b3) (joined32 v k)

-- The bytes of a number of 64 bits, joined as `read_le64` does.
pub joined64 :
    (v : ℕ)
    → v < 18446744073709551616
    → read_le64
        (u8 (v >>> 0)
          ∷ u8 (v >>> 8)
          ∷ u8 (v >>> 16)
          ∷ u8 (v >>> 24)
          ∷ u8 (v >>> 32)
          ∷ u8 (v >>> 40)
          ∷ u8 (v >>> 48)
          ∷ u8 (v >>> 56)
          ∷ [])
        0
      ≡ v
unfolding read_le64
joined64 v h =
    let e0 : bit_or 0 ((u8 (v >>> 0) <<< 0) % 18446744073709551616) ≡ v % 2 ^ 8 =
      join64 0 0 (u8 (v >>> 0)) (omega arith) (omega arith) ∙ omega arith in
    let e1 : bit_or (v % 2 ^ 8) ((u8 (v >>> 8) <<< 8) % 18446744073709551616) ≡ v % 2 ^ 16 =
      join64 8 (v % 2 ^ 8) (u8 (v >>> 8)) (omega arith) (omega arith) ∙ omega arith in
    let e2 : bit_or (v % 2 ^ 16) ((u8 (v >>> 16) <<< 16) % 18446744073709551616) ≡ v % 2 ^ 24 =
      join64 16 (v % 2 ^ 16) (u8 (v >>> 16)) (omega arith) (omega arith) ∙ omega arith in
    let e3 : bit_or (v % 2 ^ 24) ((u8 (v >>> 24) <<< 24) % 18446744073709551616) ≡ v % 2 ^ 32 =
      join64 24 (v % 2 ^ 24) (u8 (v >>> 24)) (omega arith) (omega arith) ∙ omega arith in
    let e4 : bit_or (v % 2 ^ 32) ((u8 (v >>> 32) <<< 32) % 18446744073709551616) ≡ v % 2 ^ 40 =
      join64 32 (v % 2 ^ 32) (u8 (v >>> 32)) (omega arith) (omega arith) ∙ omega arith in
    let e5 : bit_or (v % 2 ^ 40) ((u8 (v >>> 40) <<< 40) % 18446744073709551616) ≡ v % 2 ^ 48 =
      join64 40 (v % 2 ^ 40) (u8 (v >>> 40)) (omega arith) (omega arith) ∙ omega arith in
    let e6 : bit_or (v % 2 ^ 48) ((u8 (v >>> 48) <<< 48) % 18446744073709551616) ≡ v % 2 ^ 56 =
      join64 48 (v % 2 ^ 48) (u8 (v >>> 48)) (omega arith) (omega arith) ∙ omega arith in
    let e7 : bit_or (v % 2 ^ 56) ((u8 (v >>> 56) <<< 56) % 18446744073709551616) ≡ v % 2 ^ 64 =
      join64 56 (v % 2 ^ 56) (u8 (v >>> 56)) (omega arith) (omega arith) ∙ omega arith in
    rw (e0, e1, e2, e3, e4, e5, e6, e7) (omega arith)

-- The checksum of the first bytes does not depend on a byte after them.
checksum_from-set :
    (bytes : List ℕ) (hash size i v : ℕ)
    → size ≤ i
    → persistence_checksum_from hash (set bytes i v) size
      ≡ persistence_checksum_from hash bytes size
unfolding persistence_checksum_from
checksum_from-set bytes hash zero i v h = refl
checksum_from-set [] hash (suc size) i v h = refl
checksum_from-set (b ∷ bytes) hash (suc size) zero v h = absurd (omega arith)
checksum_from-set (b ∷ bytes) hash (suc size) (suc i) v h =
    checksum_from-set bytes (u32 (bit_xor hash b * 16777619)) size i v (omega arith)

pub checksum-write_le32 :
    (bytes : List ℕ) (size offset v : ℕ)
    → size ≤ offset
    → persistence_checksum (write_le32 bytes offset v) size ≡ persistence_checksum bytes size
unfolding persistence_checksum write_le32
checksum-write_le32 bytes size offset v h =
    checksum_from-set _ 2166136261 size (offset + 3) _ (omega arith)
    ∙ checksum_from-set _ 2166136261 size (offset + 2) _ (omega arith)
    ∙ checksum_from-set _ 2166136261 size (offset + 1) _ (omega arith)
    ∙ checksum_from-set bytes 2166136261 size offset _ h

checksum_from_bound :
    (bytes : List ℕ) (hash size : ℕ)
    → hash < 4294967296
    → persistence_checksum_from hash bytes size < 4294967296
unfolding persistence_checksum_from
checksum_from_bound bytes hash zero h = h
checksum_from_bound [] hash (suc size) h = h
checksum_from_bound (b ∷ bytes) hash (suc size) h =
    checksum_from_bound bytes (u32 (bit_xor hash b * 16777619)) size (omega arith)

pub checksum_bound : (bytes : List ℕ) (size : ℕ) → persistence_checksum bytes size < 4294967296
unfolding persistence_checksum
checksum_bound bytes size = checksum_from_bound bytes 2166136261 size (omega arith)

-- ===== src/Ata/Laws/Stored.antt =====
-- A sector of which the first bytes are those of the words that were written.
use model_lib.Base.{
  ℕ, ◌+◌, ◌*◌, ◌/◌, ◌%◌, ◌<◌, ◌≡◌, ◌≢◌, ◌⊎◌, inl, inr, sym, ap, ◌∙◌, List, arith, u8, ◌>>>◌, length,
  get_or, set, length-set, get_or-set_self, get_or-set_ne,
}
use model_lib.Ata.Device.{Disk}
use model_lib.Ata.Sectors.{put_sector}
use model_lib.Ata.Laws.Words.{byte_of}

-- The first `n` bytes of a list are those of the stream from `base` on.
abbrev pub Holds : (ℕ → ℕ) → ℕ → ℕ → List ℕ → Type 0
Holds words base n bytes = (j : ℕ) → j < n → get_or bytes j 0 ≡ byte_of words (base + j)

byte_low : (words : ℕ → ℕ) (i j : ℕ) → j ≡ 2 * i → byte_of words j ≡ u8 (words i)
unfolding byte_of
byte_low words i j e =
    let even : j % 2 ≡ 0 = omega arith in let half : j / 2 ≡ i = omega arith in rw (even, half)

byte_high : (words : ℕ → ℕ) (i j : ℕ) → j ≡ 2 * i + 1 → byte_of words j ≡ u8 (words i >>> 8)
unfolding byte_of
byte_high words i j e =
    let odd : j % 2 ≡ 1 = omega arith in let half : j / 2 ≡ i = omega arith in rw (odd, half)

-- One more word in the buffer.
pub Holds-set :
    (words : ℕ → ℕ) (i base n : ℕ) (bytes : List ℕ)
    → base + n ≡ 2 * i
    → n + 1 < length bytes
    → Holds words base n bytes
    → Holds words base (n + 2) (set (set bytes n (u8 (words i))) (n + 1) (u8 (words i >>> 8)))
Holds-set words i base n bytes e h old j lt =
    let one = set bytes n (u8 (words i)) in
    let size : length one ≡ length bytes = length-set bytes n (u8 (words i)) in
    elim (place j n lt) [
      | inl below ↦
          get_or-set_ne one (n + 1) j (u8 (words i >>> 8)) 0 (λ q. omega (arith, q))
          ∙ get_or-set_ne bytes n j (u8 (words i)) 0 (λ q. omega (arith, q))
          ∙ old j below
      | inr (inl here) ↦
          let low : get_or one n 0 ≡ u8 (words i) =
            get_or-set_self bytes n (u8 (words i)) 0 (omega arith) in
          get_or-set_ne one (n + 1) j (u8 (words i >>> 8)) 0 (λ q. omega (arith, q))
          ∙ ap (λ k. get_or one k 0) here
          ∙ low
          ∙ sym (byte_low words i (base + j) (omega arith))
      | inr (inr there) ↦
          ap (λ k. get_or (set one (n + 1) (u8 (words i >>> 8))) k 0) there
          ∙ get_or-set_self one (n + 1) (u8 (words i >>> 8)) 0 (omega arith)
          ∙ sym (byte_high words i (base + j) (omega arith))
    ]
  where
    place : (j n : ℕ) → j < n + 2 → (j < n) ⊎ (j ≡ n) ⊎ (j ≡ n + 1)
    place j n lt = omega arith

pub put_sector_here :
    (disk : Disk) (lba s : ℕ) (bytes : List ℕ) → s ≡ lba → put_sector disk lba bytes s ≡ bytes
put_sector_here disk lba s bytes e = ground arith

pub put_sector_other :
    (disk : Disk) (lba s : ℕ) (bytes : List ℕ) → s ≢ lba → put_sector disk lba bytes s ≡ disk s
put_sector_other disk lba s bytes e = ground arith

-- ===== src/Cartridge/Laws/Switching.antt =====
-- Bank switching as a program sees it: writes to the registers of a mapper in src/cartridge.c,
-- and what the windows then show.
use model_lib.Base.{
  ℕ, ◌+◌, ◌-◌, ◌*◌, ◌/◌, ◌%◌, ◌^◌, ◌<◌, ◌≤◌, ◌≡◌, inl, inr, refl, ap, sym, ◌∙◌, arith, true, false,
  ◌&&◌, none, some,
}
use model_lib.Base.{
  ltb, leb, ◌==◌, ==_iff, if◌then◌else◌, bit_and, length, get_or, set, get_or-set_self,
  get_or-set_ne, Bool-cases,
}
use model_lib.Base.Bits.{bit_and-mask}
use native.Mathlib.Nat.{div-eq_of_lt, mul-add-div_right, mod-lt, one-le-pow}
use model_lib.Cartridge.Mapper.{MsxCartridgeMapper, mapper_ascii8}
use model_lib.Cartridge.Slot.{MsxCartridge}
use model_lib.Cartridge.Access.{
  bank_count, byte_at, read_bank, is_konami, outside, read_window8, read_mapped, write_mapped,
}
use model_lib.Cartridge.Access.{write_ascii8, msx_cartridge_read, msx_cartridge_write}
use model_lib.Cartridge.Laws.Banks.{selected_bank_lem}

-- The data is so many whole banks.
bank_count_lem :
    (n bank_size : ℕ) (s : MsxCartridge)
    → 0 < bank_size
    → length s.data_bytes ≡ n * bank_size
    → bank_count s bank_size ≡ n
unfolding bank_count
bank_count_lem n b s hb h =
    let regrouped : length s.data_bytes + b - 1 ≡ n * b + (b - 1) = omega arith in
    let rest : (b - 1) / b ≡ 0 = div-eq_of_lt (omega arith) in
    ap (λ m. m / b) regrouped ∙ omega (arith, mul-add-div_right hb n (b - 1))

-- What a window on bank `v` shows, at the place of the address.
abbrev pub shown : ℕ → ℕ → ℕ → ℕ → MsxCartridge → ℕ
shown k bank_size v address s =
    get_or s.data_bytes (v % 2 ^ k * bank_size + address % bank_size) 0xff

inside_banks : (r n b x : ℕ) → r < n → x < b → r * b + x < n * b
inside_banks r n b x hr hx = grind arith

read_bank_lem :
    (k bank_size v at : ℕ) (s : MsxCartridge)
    → length s.data_bytes ≡ 2 ^ k * bank_size
    → is_konami s.mapper ≡ false
    → at < bank_size
    → read_bank s v bank_size at ≡ get_or s.data_bytes (v % 2 ^ k * bank_size + at) 0xff
unfolding read_bank byte_at
read_bank_lem k b v at s h other hat =
    let counted = bank_count_lem (2 ^ k) b s (omega arith) h in
    let selected = (selected_bank_lem s v b).2 k counted other in
    let within =
      inside_banks (v % 2 ^ k) (2 ^ k) b at (mod-lt v {m = 2 ^ k} (one-le-pow k 2 (omega arith)))
        hat in
    let inside : ltb (v % 2 ^ k * b + at) (length s.data_bytes) ≡ true = ground arith in
    ap (λ o. elim o [ none ↦ 0xff | some bank ↦ byte_at s (bank * b + at) ]) selected ∙ rw inside

pub mapper_path :
    {A : Type 0} (s : MsxCartridge) (m : MsxCartridgeMapper) (f : MsxCartridgeMapper → A) (d : A)
    → s.loaded ≡ true
    → s.mapper ≡ m
    → (if s.loaded then f s.mapper else d) ≡ f m
mapper_path s m f d l h = rw (l, h)

ascii8_other : is_konami mapper_ascii8 ≡ false
unfolding is_konami
ascii8_other = refl

ascii8_path :
    (r v : ℕ) (s : MsxCartridge)
    → s.loaded ≡ true
    → s.mapper ≡ mapper_ascii8
    → 0x6000 ≤ r
    → r < 0x8000
    → msx_cartridge_write r v s ≡ record s { banks = set s.banks (r / 0x800 % 4) v }
unfolding msx_cartridge_write write_mapped write_ascii8
ascii8_path r v s l m hl hu =
    let inside : leb 0x6000 r && ltb r 0x8000 ≡ true = ground arith in
    let window : bit_and (r / 0x800) 3 ≡ r / 0x800 % 4 = bit_and-mask 2 (r / 0x800) in
    mapper_path s mapper_ascii8 (λ k. write_mapped r v k s) s l m ∙ rw (inside, window)

ascii8_read :
    (k x : ℕ) (s : MsxCartridge)
    → s.loaded ≡ true
    → s.mapper ≡ mapper_ascii8
    → length s.data_bytes ≡ 2 ^ k * 0x2000
    → 0x4000 ≤ x
    → x < 0xc000
    → (msx_cartridge_read x s).0 ≡ shown k 0x2000 (get_or s.banks ((x - 0x4000) / 0x2000) 0) x s
unfolding msx_cartridge_read read_mapped outside read_window8
ascii8_read k x s l m h hl hu =
    let inside : leb 0x4000 x && ltb x 0xc000 ≡ true = ground arith in
    let other : is_konami s.mapper ≡ false = ap is_konami m ∙ ascii8_other in
    ap (λ (q : ℕ × MsxCartridge). q.0)
      (mapper_path s mapper_ascii8 (λ n. read_mapped x n s) (0xff, s) l m)
    ∙ rw inside (
        ap (read_bank s _ 0x2000) (bit_and-mask 13 x)
        ∙ read_bank_lem k 0x2000 _ (x % 0x2000) s h other (omega arith))

-- The ASCII 8 KB mapper on data of `2 ^ k` banks: after a write of `v` to a bank register, a read
-- of the window of that register gives the byte of bank `v`, taken round the banks that there
-- are, and a read of another window what it gave before.
pub ascii8_lem :
    (k r v x : ℕ) (s : MsxCartridge)
    → s.loaded ≡ true
    → s.mapper ≡ mapper_ascii8
    → length s.banks ≡ 4
    → length s.data_bytes ≡ 2 ^ k * 0x2000
    → 0x6000 ≤ r
    → r < 0x8000
    → 0x4000 ≤ x
    → x < 0xc000
    → (msx_cartridge_read x (msx_cartridge_write r v s)).0 ≡ (
        if r / 0x800 % 4 == (x - 0x4000) / 0x2000
        then shown k 0x2000 v x s
        else (msx_cartridge_read x s).0)
ascii8_lem k r v x s l m hb h rl ru xl xu =
    let t : MsxCartridge = record s { banks = set s.banks (r / 0x800 % 4) v } in
    let window = (x - 0x4000) / 0x2000 in
    rw (ascii8_path r v s l m rl ru, ascii8_read k x s l m h xl xu)
      (ascii8_read k x t l m h xl xu ∙ elim (Bool-cases (r / 0x800 % 4 == window)) [
        | inl e ↦
            let same : window ≡ r / 0x800 % 4 = sym ((==_iff _ _).0 e) in
            rw (e, same)
              (ap (λ b. shown k 0x2000 b x s)
                (get_or-set_self s.banks (r / 0x800 % 4) v 0 (omega (arith, hb))))
        | inr e ↦ rw e (
            ap (λ b. shown k 0x2000 b x s)
              (get_or-set_ne s.banks (r / 0x800 % 4) window v 0 (λ g. ground arith)))
      ])

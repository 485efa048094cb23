-- ===== src/Cartridge/Laws/Linear.antt =====
-- A cartridge without a mapper, in src/cartridge.c: all of its data is in the address space.
use model_lib.Base.{ℕ, ◌+◌, ◌-◌, ◌<◌, ◌≤◌, ◌≡◌, refl, ap, sym, ◌∙◌, arith, true, false, List, some}
use model_lib.Base.{ltb, length, get_or}
use model_lib.Cartridge.Mapper.{mapper_linear, mapper_of, mapper_max_size}
use model_lib.Cartridge.Detect.{linear_base}
use model_lib.Cartridge.Slot.{MsxCartridge, resolve, base_of, msx_cartridge_install}
use model_lib.Cartridge.Access.{byte_at, read_linear, read_mapped, msx_cartridge_read}
use model_lib.Cartridge.Laws.Switching.{mapper_path}
use model_lib.Cartridge.Laws.Install.{msx_cartridge_install_lem}

pub linear_base-fits :
    (bytes : List ℕ) → length bytes ≤ 0x10000 → linear_base bytes + length bytes ≤ 0x10000
unfolding linear_base
linear_base-fits bytes h = ground arith

read_linear-byte :
    (i : ℕ) (s : MsxCartridge)
    → i < length s.data_bytes
    → read_linear (s.base + i) s ≡ get_or s.data_bytes i 0xff
unfolding read_linear byte_at
read_linear-byte i s h =
    let above : ltb (s.base + i) s.base ≡ false = ground arith in
    let place : s.base + i - s.base ≡ i = omega arith in
    let inside : ltb i (length s.data_bytes) ≡ true = ground arith in rw (above, place, inside)

read_at :
    (bytes : List ℕ) (i base : ℕ) (t : MsxCartridge)
    → t.loaded ≡ true
    → t.mapper ≡ mapper_linear
    → t.base ≡ base
    → t.data_bytes ≡ bytes
    → i < length bytes
    → (msx_cartridge_read (base + i) t).0 ≡ get_or bytes i 0xff
unfolding msx_cartridge_read read_mapped
read_at bytes i base t l m hb hd hi =
    ap (λ (q : ℕ × MsxCartridge). q.0)
      (mapper_path t mapper_linear (λ k. read_mapped (base + i) k t) (0xff, t) l m)
    ∙ ap (λ x. read_linear (x + i) t) (sym hb)
    ∙ read_linear-byte i t (omega (arith, ap length hd))
    ∙ ap (λ d. get_or d i 0xff) hd

linear_code : mapper_of 1 ≡ some mapper_linear
unfolding mapper_of
linear_code = refl

linear_size : (bytes : List ℕ) → mapper_max_size (resolve mapper_linear bytes) ≡ 0x10000
unfolding mapper_max_size resolve
linear_size bytes = refl

linear_resolved : (bytes : List ℕ) → resolve mapper_linear bytes ≡ mapper_linear
unfolding resolve
linear_resolved bytes = refl

linear_address : (bytes : List ℕ) → base_of (resolve mapper_linear bytes) bytes ≡ linear_base bytes
unfolding resolve base_of
linear_address bytes = refl

-- After data of 1 to 64 KB without a mapper is inserted, each of its bytes is read at its place
-- after the base, which is an address of the machine.
pub linear_lem :
    (bytes : List ℕ) (i : ℕ) (s : MsxCartridge)
    → length bytes ≤ 0x10000
    → i < length bytes
    → let t = (msx_cartridge_install true bytes 1 s).1 in
      (linear_base bytes + i < 0x10000)
      × ((msx_cartridge_read (linear_base bytes + i) t).0 ≡ get_or bytes i 0xff)
linear_lem bytes i s h hi =
    let fits : length bytes ≤ mapper_max_size (resolve mapper_linear bytes) =
      omega (arith, linear_size bytes) in
    let ins = msx_cartridge_install_lem bytes 1 mapper_linear s linear_code (omega arith) fits in
    (
      omega (arith, linear_base-fits bytes h),
      read_at bytes i (linear_base bytes) _ ins.present (ins.resolved ∙ linear_resolved bytes)
          (ins.address ∙ linear_address bytes) ins.contents hi,
    )

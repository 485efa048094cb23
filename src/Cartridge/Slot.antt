-- ===== src/Cartridge/Slot.antt =====
-- A cartridge in its slot: the struct of src/cartridge.h, and what inserts, removes and resets it
-- in src/cartridge.c. `data` and `size` are one list; an empty list is the null pointer.
use model_lib.Base.{ℕ, Bool, true, false, not, ◌||◌, List, [], ◌∷◌, none, some}
use model_lib.Base.{ltb, ◌==◌, if◌then◌else◌, length, replicate, ℤ, pos, negsuc}
use model_lib.Scc.Chip.{Scc, scc_init, scc_reset, scc_set_mode, scc_mode_compatible}
use model_lib.Cartridge.Mapper.{
  MsxCartridgeMapper, mapper_auto, mapper_linear, mapper_ascii8, mapper_ascii16, mapper_konami,
  mapper_konami_scc, mapper_of, mapper_max_size,
}
use model_lib.Cartridge.Detect.{linear_base, msx_cartridge_detect_mapper}

abbrev pub msx_cart_max_size : ℕ
msx_cart_max_size = 0x400000

pub record MsxCartridge : Type 0 where
  pub data_bytes : List ℕ
  pub base : ℕ
  pub requested_mapper : MsxCartridgeMapper
  pub mapper : MsxCartridgeMapper
  pub banks : List ℕ
  pub scc : Scc
  pub loaded : Bool
  pub scc_enabled : Bool

unfoldable pub msx_cartridge_init : MsxCartridge
msx_cartridge_init = record {
  data_bytes = [];
  base = 0;
  requested_mapper = mapper_auto;
  mapper = mapper_linear;
  banks = replicate 4 0;
  scc = scc_init;
  loaded = false;
  scc_enabled = false;
}

-- `free`, and the state of a new one.
unfoldable pub msx_cartridge_destroy : MsxCartridge → MsxCartridge
msx_cartridge_destroy s = msx_cartridge_init

unfoldable pub msx_cartridge_eject : MsxCartridge → MsxCartridge
msx_cartridge_eject s = msx_cartridge_destroy s

-- The banks that a reset selects.
unfoldable pub first_banks : MsxCartridgeMapper → List ℕ
first_banks mapper_auto = replicate 4 0
first_banks mapper_linear = replicate 4 0
first_banks mapper_ascii8 = replicate 4 0
first_banks mapper_ascii16 = replicate 4 0
first_banks mapper_konami = 0 ∷ 1 ∷ 2 ∷ 3 ∷ []
first_banks mapper_konami_scc = 0 ∷ 1 ∷ 2 ∷ 3 ∷ []

unfoldable pub msx_cartridge_reset : MsxCartridge → MsxCartridge
msx_cartridge_reset s = record s {
  scc = scc_set_mode scc_mode_compatible (scc_reset s.scc);
  scc_enabled = false;
  banks = first_banks s.mapper;
}

unfoldable pub resolve : MsxCartridgeMapper → List ℕ → MsxCartridgeMapper
resolve mapper_auto bytes = msx_cartridge_detect_mapper bytes
resolve mapper_linear bytes = mapper_linear
resolve mapper_ascii8 bytes = mapper_ascii8
resolve mapper_ascii16 bytes = mapper_ascii16
resolve mapper_konami bytes = mapper_konami
resolve mapper_konami_scc bytes = mapper_konami_scc

unfoldable pub base_of : MsxCartridgeMapper → List ℕ → ℕ
base_of mapper_auto bytes = 0x4000
base_of mapper_linear bytes = linear_base bytes
base_of mapper_ascii8 bytes = 0x4000
base_of mapper_ascii16 bytes = 0x4000
base_of mapper_konami bytes = 0x4000
base_of mapper_konami_scc bytes = 0x4000

-- From the copy on: `allocated` says that `malloc` gave memory.
unfoldable pub install_as : Bool → List ℕ → MsxCartridgeMapper → MsxCartridge → ℤ × MsxCartridge
install_as allocated bytes mapper s =
    let resolved = resolve mapper bytes in
    if ltb (mapper_max_size resolved) (length bytes) || not allocated then (negsuc 0, s) else (
      pos 0,
      msx_cartridge_reset (record s {
        data_bytes = bytes;
        base = base_of resolved bytes;
        requested_mapper = mapper;
        mapper = resolved;
        loaded = true;
      }),
    )

-- `code` is the caller's `mapper` as a number.
unfoldable pub msx_cartridge_install : Bool → List ℕ → ℕ → MsxCartridge → ℤ × MsxCartridge
msx_cartridge_install allocated bytes code s =
    if (length bytes == 0) || ltb msx_cart_max_size (length bytes)
    then (negsuc 0, s)
    else elim (mapper_of code) [
      | none ↦ (negsuc 0, s)
      | some mapper ↦ install_as allocated bytes mapper s
    ]

unfoldable pub remap : MsxCartridgeMapper → MsxCartridge → ℤ × MsxCartridge
remap mapper s =
    let resolved = resolve mapper s.data_bytes in
    if ltb (mapper_max_size resolved) (length s.data_bytes) then (negsuc 0, s) else (
      pos 0,
      msx_cartridge_reset (record s {
        requested_mapper = mapper;
        mapper = resolved;
        base = base_of resolved s.data_bytes;
      }),
    )

unfoldable pub msx_cartridge_set_mapper : ℕ → MsxCartridge → ℤ × MsxCartridge
msx_cartridge_set_mapper code s =
    if s.loaded
    then elim (mapper_of code) [ none ↦ (negsuc 0, s) | some mapper ↦ remap mapper s ]
    else (negsuc 0, s)

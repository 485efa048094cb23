-- ===== src/Cartridge/Mapper.antt =====
-- The mappers of src/cartridge.h, their names and limits in src/cartridge.c.
-- A C string is the list of its characters' codes, without the final 0.
use model_lib.Base.{ℕ, ◌+◌, Bool, true, false, ◌&&◌, List, [], ◌∷◌, Option, none, some}
use model_lib.Base.{leb, ◌==◌, if◌then◌else◌, switch}

pub data MsxCartridgeMapper : Type 0 where
  mapper_auto mapper_linear mapper_ascii8 mapper_ascii16 mapper_konami mapper_konami_scc :
      MsxCartridgeMapper

-- The values below MSX_CART_MAPPER_COUNT, in the order of the enumeration.
abbrev pub all_mappers : List MsxCartridgeMapper
all_mappers =
    mapper_auto ∷ mapper_linear ∷ mapper_ascii8 ∷ mapper_ascii16 ∷ mapper_konami ∷ mapper_konami_scc
    ∷ []

-- `(unsigned)mapper` read as a mapper: none at MSX_CART_MAPPER_COUNT and above.
unfoldable pub mapper_of : ℕ → Option MsxCartridgeMapper
mapper_of code =
    switch code
      ((0 ∷ [], some mapper_auto)
        ∷ (1 ∷ [], some mapper_linear)
        ∷ (2 ∷ [], some mapper_ascii8)
        ∷ (3 ∷ [], some mapper_ascii16)
        ∷ (4 ∷ [], some mapper_konami)
        ∷ (5 ∷ [], some mapper_konami_scc)
        ∷ [])
      none

-- "auto", "linear", "ascii8", "ascii16", "konami", "konami-scc"
unfoldable pub msx_cartridge_mapper_name : MsxCartridgeMapper → List ℕ
msx_cartridge_mapper_name mapper_auto = 0x61 ∷ 0x75 ∷ 0x74 ∷ 0x6f ∷ []
msx_cartridge_mapper_name mapper_linear = 0x6c ∷ 0x69 ∷ 0x6e ∷ 0x65 ∷ 0x61 ∷ 0x72 ∷ []
msx_cartridge_mapper_name mapper_ascii8 = 0x61 ∷ 0x73 ∷ 0x63 ∷ 0x69 ∷ 0x69 ∷ 0x38 ∷ []
msx_cartridge_mapper_name mapper_ascii16 = 0x61 ∷ 0x73 ∷ 0x63 ∷ 0x69 ∷ 0x69 ∷ 0x31 ∷ 0x36 ∷ []
msx_cartridge_mapper_name mapper_konami = 0x6b ∷ 0x6f ∷ 0x6e ∷ 0x61 ∷ 0x6d ∷ 0x69 ∷ []
msx_cartridge_mapper_name mapper_konami_scc =
    0x6b ∷ 0x6f ∷ 0x6e ∷ 0x61 ∷ 0x6d ∷ 0x69 ∷ 0x2d ∷ 0x73 ∷ 0x63 ∷ 0x63 ∷ []

-- "Auto", "Linear", "ASCII8", "ASCII16", "Konami", "Konami SCC"
unfoldable pub msx_cartridge_mapper_display_name : MsxCartridgeMapper → List ℕ
msx_cartridge_mapper_display_name mapper_auto = 0x41 ∷ 0x75 ∷ 0x74 ∷ 0x6f ∷ []
msx_cartridge_mapper_display_name mapper_linear = 0x4c ∷ 0x69 ∷ 0x6e ∷ 0x65 ∷ 0x61 ∷ 0x72 ∷ []
msx_cartridge_mapper_display_name mapper_ascii8 = 0x41 ∷ 0x53 ∷ 0x43 ∷ 0x49 ∷ 0x49 ∷ 0x38 ∷ []
msx_cartridge_mapper_display_name mapper_ascii16 =
    0x41 ∷ 0x53 ∷ 0x43 ∷ 0x49 ∷ 0x49 ∷ 0x31 ∷ 0x36 ∷ []
msx_cartridge_mapper_display_name mapper_konami = 0x4b ∷ 0x6f ∷ 0x6e ∷ 0x61 ∷ 0x6d ∷ 0x69 ∷ []
msx_cartridge_mapper_display_name mapper_konami_scc =
    0x4b ∷ 0x6f ∷ 0x6e ∷ 0x61 ∷ 0x6d ∷ 0x69 ∷ 0x20 ∷ 0x53 ∷ 0x43 ∷ 0x43 ∷ []

-- `tolower` of the C library on the codes of ASCII.
abbrev pub to_lower : ℕ → ℕ
to_lower c = if leb 0x41 c && leb c 0x5a then c + 0x20 else c

unfoldable pub names_equal : List ℕ → List ℕ → Bool
names_equal [] [] = true
names_equal [] (r ∷ rs) = false
names_equal (l ∷ ls) [] = false
names_equal (l ∷ ls) (r ∷ rs) = if to_lower l == to_lower r then names_equal ls rs else false

abbrev pub named : List ℕ → List MsxCartridgeMapper → Option MsxCartridgeMapper
named name [] = none
named name (m ∷ ms) =
    if names_equal name (msx_cartridge_mapper_name m) then some m else named name ms

-- `*mapper` when the result is true, and none when it is false.
unfoldable pub msx_cartridge_mapper_from_name : List ℕ → Option MsxCartridgeMapper
msx_cartridge_mapper_from_name name = named name all_mappers

unfoldable pub mapper_max_size : MsxCartridgeMapper → ℕ
mapper_max_size mapper_auto = 0
mapper_max_size mapper_linear = 0x10000
mapper_max_size mapper_ascii8 = 0x200000
mapper_max_size mapper_ascii16 = 0x400000
mapper_max_size mapper_konami = 0x40000
mapper_max_size mapper_konami_scc = 0x80000

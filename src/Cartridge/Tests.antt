-- ===== src/Cartridge/Tests.antt =====
-- Runs of a cartridge of src/cartridge.c.
use model_lib.Base.{ℕ, ◌<◌, ◌≡◌, refl, arith, true, List, [], ◌∷◌, replicate, length-replicate}
use model_lib.Cartridge.Mapper.{mapper_ascii8}
use model_lib.Cartridge.Detect.{linear_base}
use model_lib.Cartridge.Slot.{MsxCartridge, msx_cartridge_init, msx_cartridge_install}
use model_lib.Cartridge.Access.{msx_cartridge_read, msx_cartridge_write}
use model_lib.Cartridge.Laws.Switching.{shown, ascii8_lem}
use model_lib.Cartridge.Laws.Valid.{IsValid}
use model_lib.Cartridge.Laws.Reach.{starts, follows, installs, writes, ReachableCartridge-IsValid}
use model_lib.Cartridge.Laws.Linear.{linear_lem}

-- A small program that starts at 0x8000.
abbrev small : List ℕ
small = 0x41 ∷ 0x42 ∷ 0x00 ∷ 0x80 ∷ 0xc9 ∷ []

abbrev bank : List ℕ
bank = replicate 0x2000 7

-- One bank of 8 KB.
abbrev game : MsxCartridge
game = record msx_cartridge_init {
  data_bytes = bank;
  base = 0x4000;
  mapper = mapper_ascii8;
  loaded = true;
  banks = replicate 4 0;
}

ascii8_example :
    (msx_cartridge_read 0x4001 (msx_cartridge_write 0x6000 3 game)).0 ≡ shown 0 0x2000 3 0x4001 game
ascii8_example =
    ascii8_lem 0 0x6000 3 0x4001 game refl refl refl (length-replicate {A = ℕ} 0x2000 7)
      (omega arith) (omega arith) (omega arith) (omega arith)

linear_example :
    let t = (msx_cartridge_install true small 1 msx_cartridge_init).1 in
    (0x8004 < 0x10000) × ((msx_cartridge_read 0x8004 t).0 ≡ 0xc9)
unfolding linear_base
linear_example = linear_lem small 4 msx_cartridge_init (omega arith) (omega arith)

reachable_cartridge_example :
    IsValid
      (msx_cartridge_write 0x9000 0x3f (msx_cartridge_install true small 5 msx_cartridge_init).1)
reachable_cartridge_example = ReachableCartridge-IsValid (
    follows (follows starts (installs true small 5 msx_cartridge_init))
      (writes 0x9000 0x3f (msx_cartridge_install true small 5 msx_cartridge_init).1 (omega arith)))

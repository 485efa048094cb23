-- ===== src/Cartridge.antt =====
-- The cartridges, src/cartridge.c and src/cartridge.h.
pub mod Mapper
pub mod Detect
pub mod Slot
pub mod Access
pub mod Laws
pub mod Tests

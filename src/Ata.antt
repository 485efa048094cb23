-- ===== src/Ata.antt =====
-- The IDE disk of src/ata.c and src/ata.h.
pub mod Device
pub mod Sectors
pub mod Identify
pub mod Mount
pub mod Execute
pub mod Transfer
pub mod Laws
pub mod Tests

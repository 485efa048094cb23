-- ===== src/Ata/Laws.antt =====
-- What src/ata.c computes, and what its state keeps.
pub mod Words
pub mod Access
pub mod Reading
pub mod Stored
pub mod Writing
pub mod Valid
pub mod Commands
pub mod Safety

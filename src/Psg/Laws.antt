-- ===== src/Psg/Laws.antt =====
-- What src/psg.c computes, and what its state keeps.
pub mod Registers
pub mod Noise
pub mod Levels
pub mod Envelope

-- ===== src/Psg.antt =====
-- The programmable sound generator, src/psg.c and src/psg.h.
pub mod Chip
pub mod Ticks
pub mod Render
pub mod Laws
pub mod Tests

-- ===== src/Scc.antt =====
-- The wavetable sound chip, src/scc.c and src/scc.h.
pub mod Chip
pub mod Render
pub mod Laws
pub mod Tests

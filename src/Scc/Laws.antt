-- ===== src/Scc/Laws.antt =====
-- What src/scc.c computes, and what its state keeps.
pub mod Counters
pub mod Mixer
pub mod Valid
pub mod Reads
pub mod Writes
pub mod Rendering
pub mod Sound
pub mod Wave
pub mod Reach

-- ===== src/Z80.antt =====
-- The processor core, src/z80.c and src/z80.h. Its children follow the file from top to bottom.
pub mod Cpu
pub mod Bus
pub mod Alu
pub mod Regs
pub mod ExecCb
pub mod Ed
pub mod Xy
pub mod Main
pub mod Tables
pub mod Step
pub mod Ram
pub mod Laws
pub mod Tests

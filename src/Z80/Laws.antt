-- ===== src/Z80/Laws.antt =====
-- What is proved of the processor.
pub mod Alu
pub mod Cycles
pub mod Timing
pub mod Decimal
pub mod Stack
pub mod Dispatch
pub mod Block
pub mod Ldir
pub mod Copy
pub mod Interrupts
pub mod Words
pub mod Index
pub mod Refresh
pub mod Decode
pub mod Prefix
pub mod Logic
pub mod Enable

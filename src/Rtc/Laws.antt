-- ===== src/Rtc/Laws.antt =====
-- What src/rtc.c computes.
pub mod Calendar
pub mod Time
pub mod Digits
pub mod Advance
pub mod Slices
pub mod Ports
pub mod Bytes
pub mod Persist
pub mod Load

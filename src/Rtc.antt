-- ===== src/Rtc.antt =====
-- The real-time clock RP5C01, src/rtc.c and src/rtc.h.
pub mod Chip
pub mod Calendar
pub mod Ports
pub mod Record
pub mod Persist
pub mod Laws
pub mod Tests

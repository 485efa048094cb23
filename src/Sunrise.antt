-- ===== src/Sunrise.antt =====
-- The Sunrise interface of the IDE disk, src/sunrise.c and src/sunrise.h.
pub mod Device
pub mod Access
pub mod Laws
pub mod Tests

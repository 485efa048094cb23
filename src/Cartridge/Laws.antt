-- ===== src/Cartridge/Laws.antt =====
-- What src/cartridge.c computes, and what a cartridge keeps.
pub mod Names
pub mod Banks
pub mod Switching
pub mod Valid
pub mod Reach
pub mod Install
pub mod Linear

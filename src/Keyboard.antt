-- ===== src/Keyboard.antt =====
-- The keyboard matrix of src/msx.c and the paste queue of src/paste.c, which types on it.
pub mod Matrix
pub mod Keymap
pub mod Paste
pub mod Laws
pub mod Tests

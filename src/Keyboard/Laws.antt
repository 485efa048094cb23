-- ===== src/Keyboard/Laws.antt =====
-- Properties of the matrix and of the queue.
pub mod Matrix
pub mod Keys
pub mod Text
pub mod Phases
pub mod Typing

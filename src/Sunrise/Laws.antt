-- ===== src/Sunrise/Laws.antt =====
-- Properties of the interface.
pub mod Window
pub mod Reach

-- ===== src/Repair.antt =====
-- The repair foundation (immich_doctor/repair/).
pub mod Items
pub mod Models
pub mod Guards
pub mod Store
pub mod Undo

-- ===== src/Repair/Undo.antt =====
-- Targeted undo of a repair run (immich_doctor/repair/undo_models.py and undo_service.py).
pub mod Models
pub mod Plan
pub mod Restore
pub mod Execute

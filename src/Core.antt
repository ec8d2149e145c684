-- ===== src/Core.antt =====
-- Check results and the reports that collect them (immich_doctor/core/models.py).
pub mod Value
pub mod Models
pub mod Status

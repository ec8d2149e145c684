-- ===== src/Backup.antt =====
-- Backups (immich_doctor/backup/).
pub mod Models
pub mod Store
pub mod Verify
pub mod Instructions
pub mod Restore
pub mod Results

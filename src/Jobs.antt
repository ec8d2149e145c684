-- ===== src/Jobs.antt =====
-- Background jobs (immich_doctor/services/backup_job_service.py, immich_doctor/backup/core/).
pub mod Models
pub mod Handle
pub mod Runtime
pub mod Steps
pub mod Consistent
pub mod Ends

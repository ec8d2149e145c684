-- ===== src/Integrity.antt =====
-- Physical file integrity (immich_doctor/runtime/integrity/).
pub mod Models
pub mod Probes
pub mod Analyzer
pub mod Installation
pub mod Inspect

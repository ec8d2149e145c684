-- ===== src/MetadataFailures.antt =====
-- Failed metadata extraction (immich_doctor/runtime/metadata_failures/).
pub mod Models
pub mod Causes
pub mod Diagnose
pub mod Repair
pub mod Scope
pub mod Run

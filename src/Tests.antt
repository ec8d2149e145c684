-- ===== src/Tests.antt =====
-- Runs, and the theorems at concrete data.
mod Platform
mod Code
mod MetadataCode
mod Integrity
mod Metadata
mod Jobs
mod Repair
mod Storage
mod Catalog
mod Backup
mod EmptyFolders
mod Quarantine

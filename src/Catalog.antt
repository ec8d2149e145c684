-- ===== src/Catalog.antt =====
-- Consistency of the catalog with the database.
pub mod Models
pub mod Snapshots
pub mod Classify
pub mod Orphans
pub mod Window
pub mod Collect
pub mod Rows
pub mod Validate

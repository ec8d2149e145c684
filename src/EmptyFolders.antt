-- ===== src/EmptyFolders.antt =====
-- Empty folders of the storage (immich_doctor/storage/empty_folders/).
pub mod Scan
pub mod Report
pub mod Items
pub mod QuarantineIndex
pub mod Moves
pub mod Quarantine

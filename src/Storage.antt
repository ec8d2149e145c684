-- ===== src/Storage.antt =====
-- The storage of an installation: how database paths are mapped into it.
pub mod Text
pub mod PosixPath
pub mod PathMapping
pub mod Names
pub mod Printed
pub mod Located
pub mod Resolve

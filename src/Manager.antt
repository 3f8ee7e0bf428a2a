-- ===== src/Manager.antt =====
-- crates/sandbox-manager: the records of the sandboxes and their registry on disk.
pub mod Model
pub mod Disk
pub mod Store
pub mod Lifecycle
pub mod Forward

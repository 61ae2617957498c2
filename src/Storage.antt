-- ===== src/Storage.antt =====
-- src/storage.rs: the snapshots of the world on the disk.
pub mod Disk
pub mod Schema
pub mod Formats
pub mod Decode
pub mod Save
pub mod Load
pub mod Rules
pub mod Recovery
pub mod Crash
pub mod Safety
pub mod Progress
pub mod Store

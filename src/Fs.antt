-- ===== src/Fs.antt =====
-- crates/vault-fs/src/lib.rs: path components, the physical files, sealing and wiping.
pub mod Paths
pub mod World
pub mod Files
pub mod Kept
pub mod Saved

-- ===== src/Store.antt =====
-- crates/vault-store/src/lib.rs: the state of the vault's database. Its operations are in the
-- children, one for each section of `VaultDb`.
pub mod State
pub mod Documents
pub mod Users
pub mod Versions
pub mod Submissions
pub mod Audit

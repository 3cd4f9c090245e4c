-- ===== src/Core.antt =====
-- crates/vault-core/src/lib.rs: the data types of the vault, identifiers and dates.
pub mod Category
pub mod Role
pub mod Records
pub mod Envelope
pub mod Calendar
pub mod Ids

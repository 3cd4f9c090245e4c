-- ===== src/Crypto.antt =====
-- crates/vault-crypto: the encrypted blob of the database and the DER helpers.
pub mod Bytes
pub mod Der
pub mod Tsa
pub mod Blob

-- ===== src/Index.antt =====
-- crates/vault-index/src/lib.rs: the classification of files, the search, and the text of documents.
pub mod Query
pub mod Rules
pub mod Text

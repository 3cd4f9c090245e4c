-- ===== src/Crypto/Tsa.antt =====
-- crates/vault-crypto/src/tsa.rs: the errors of the time stamp authority.
use ubod.Base.{String}

pub data TsaError : Type 0 where
  bad_response network crypto : String → TsaError

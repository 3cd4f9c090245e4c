-- ===== src/Core/Envelope.antt =====
-- crates/vault-core/src/lib.rs: the envelope that goes before a file on the channel.
use ubod.Base.{ℕ, String, Option}

pub record TransferHeader : Type 0 where
  pub device_id : String
  pub timestamp_utc : String
  pub protocol_version : String

pub record TransferPayload : Type 0 where
  pub file_name : String
  pub file_category : String
  pub file_size_bytes : ℕ
  pub sha256 : String
  pub department : String
  pub author : String
  pub title : String
  pub id_number : Option String
  pub academic_year : Option ℕ

pub record TransferEnvelope : Type 0 where
  pub header : TransferHeader
  pub payload : TransferPayload

-- `TransferEnvelope::PROTOCOL_VERSION`
abbrev pub protocol_version : String
protocol_version = "1.0"

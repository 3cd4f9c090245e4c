-- ===== src/Store/State.antt =====
-- crates/vault-store/src/lib.rs: the records of the database and its errors.
use ubod.Base.{ℕ, String, Bool, Option, none, List, [], ◌*◌}
use ubod.Core.Records.{Document, DocumentVersion, Submission, TrashedDocument, User}

pub data StoreError : Type 0 where
  io crypto serde read_only : StoreError
  not_found locked : String → StoreError

pub record AuditEntry : Type 0 where
  pub seq : ℕ
  pub timestamp : String
  pub actor : String
  pub action : String
  pub subject : String
  pub detail : String
  pub prev_hash : String

pub record Settings : Type 0 where
  pub tsa_url : Option String
  pub admission_required_categories : List String
  pub destruction_grace_secs : ℕ
  pub sweep_interval_secs : ℕ
  pub extra : List (String × String)

-- `impl Default for Settings`, with `default_sweep_interval`
abbrev pub default_settings : Settings
default_settings = record {
  tsa_url = none;
  admission_required_categories = [];
  destruction_grace_secs = 0;
  sweep_interval_secs = 6 * 3600;
  extra = [];
}

pub record DeviceRecord : Type 0 where
  pub device_id : String
  pub cert_fingerprint : String
  pub paired_at : String
  pub enabled : Bool

pub record DbState : Type 0 where
  pub documents : List Document
  pub submissions : List Submission
  pub audit : List AuditEntry
  pub devices : List DeviceRecord
  pub admin_pin_hash : Option String
  pub settings : Settings
  pub users : List User
  pub trashed : List TrashedDocument
  pub versions : List DocumentVersion
  pub text_index : List (String × String)

-- `DbState::default()`
abbrev pub empty_state : DbState
empty_state = record {
  documents = [];
  submissions = [];
  audit = [];
  devices = [];
  admin_pin_hash = none;
  settings = default_settings;
  users = [];
  trashed = [];
  versions = [];
  text_index = [];
}

-- `VaultDb`: the state in memory, the mode it was opened in, and the snapshot that the encrypted
-- file holds.
pub record VaultDb : Type 0 where
  pub state : DbState
  pub read_only : Bool
  pub saved : Option DbState

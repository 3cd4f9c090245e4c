-- ===== src/Sync.antt =====
-- crates/vault-sync/src: the state of the channel, its requests and its answers. An answer is a value
-- here, where the program writes JSON.
pub mod Pairing
pub mod Server
pub mod Http
use ubod.Base.{ℕ, String, Bool, List, Option}
use ubod.Core.Records.{Submission}
use ubod.Admin.{AdminService}

pub data SyncError : Type 0 where
  io : SyncError
  tls pki : String → SyncError
  client_cert_required : SyncError
  unauthorized_device http : String → SyncError

pub record PairingCode : Type 0 where
  pub code : String
  pub expires_at : ℕ

-- The fields of `SyncState` that its methods change, and the two that bound a request.
pub record SyncState : Type 0 where
  pub staging_dir : String
  pub max_body : ℕ
  pub pairings : List PairingCode
  pub devices : List (String × String)

-- What a connection presents: the name and the fingerprint of the client's certificate.
abbrev pub Identity : Type 0
Identity = Option (String × String)

pub record Request : Type 0 where
  pub method : String
  pub path : String
  pub close : Bool
  pub body : Option (List ℕ)

pub data Reply : Type 0 where
  pong : Reply
  manifest : String → List String → Reply
  queued : Submission → Reply
  paired : String → String → String → Reply
  error : String → Reply

-- The state of the channel beside the service behind it.
pub record Channel : Type 0 where
  pub sync : SyncState
  pub admin : AdminService

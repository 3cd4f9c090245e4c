-- ===== src/Webui.antt =====
-- crates/vault-webui/src/lib.rs: the panel of the administrator, its sessions and its routes. An answer is
-- a value here, where the program writes JSON.
pub mod Decode
pub mod Routes
pub mod Guarded
pub mod Chain
use ubod.Base.{ℕ, ◌+◌, ◌*◌, String, Bool, true, false, ltb, if◌then◌else◌, Option, none, some, List}
use ubod.Core.Records.{Document, SealAck}
use ubod.Store.State.{DbState, AuditEntry}
use ubod.Fs.World.{lookup, without, insert}
use ubod.Audit.{AuditError, SweepReport}
use ubod.Admin.{AdminError}
use ubod.Sync.{Channel}

-- The service, with the channel that it is connected to, and the sessions of the panel.
pub record WebUiState : Type 0 where
  pub channel : Channel
  pub sessions : List (String × ℕ)

pub data Reply : Type 0 where
  page : Reply
  token code message : String → Reply
  done executed : Reply
  refused : AdminError → Reply
  sealed : SealAck → Reply
  swept : SweepReport → Reply
  unswept : AuditError → Reply
  state_of : DbState → Reply
  found : List Document → Reply
  entries : Bool → List AuditEntry → Reply

pub record Response : Type 0 where
  pub status : ℕ
  pub json : Reply

abbrev pub response : ℕ → Reply → Response
response status json = record { status = status; json = json }

abbrev pub session_ttl_secs : ℕ
session_ttl_secs = 15 * 60

abbrev pub now_of : WebUiState → ℕ
now_of st = st.channel.admin.vault.now

-- `fresh` is what the 32 random bytes are in hex.
unfoldable pub create_session : String → WebUiState → String × WebUiState
create_session fresh st =
    (fresh, record st { sessions = insert fresh (now_of st + session_ttl_secs) st.sessions })

abbrev pub is_live : ℕ → Option ℕ → Bool
is_live now none = false
is_live now (some exp) = ltb now exp

unfoldable pub check_session : String → WebUiState → Bool × WebUiState
check_session tok st =
    if is_live (now_of st) (lookup tok st.sessions)
    then (true, record st { sessions = insert tok (now_of st + session_ttl_secs) st.sessions })
    else (false, record st { sessions = without tok st.sessions })

unfoldable pub drop_session : String → WebUiState → WebUiState
drop_session tok st = record st { sessions = without tok st.sessions }

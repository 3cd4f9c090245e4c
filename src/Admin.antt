-- ===== src/Admin.antt =====
-- crates/vault-admin/src/lib.rs: the state and errors of `AdminService`, and how its methods reach the
-- vault.
pub mod Pins
pub mod Destruction
pub mod Devices
pub mod Admission
pub mod Sealing
pub mod Admit
pub mod Sealed
pub mod Admitted
pub mod Requests
pub mod Unique
pub mod Installed
pub mod Entered
pub mod Lockout
pub mod Counted
pub mod Attempts
pub mod Control
pub mod Service
pub mod Kept
pub mod Chain
pub mod Executed
pub mod Effect
pub mod Grace
use ubod.Base.{ℕ, ◌*◌, String, Bool, if◌then◌else◌, Option, none, List, []}
use ubod.Base.Exec.{Exec, Result, pure, raise, on_err, ◌>>=◌, ◌>>◌, gets}
use ubod.Crypto.Tsa.{TsaError}
use ubod.Fs.World.{World}
use ubod.Fs.Files.{FsError}
use ubod.Store.State.{DbState, StoreError}

pub data AdminError : Type 0 where
  wrong_pin no_pin destruction_pin_required io : AdminError
  locked_out : ℕ → AdminError
  submission_not_found document_not_found collision : String → AdminError
  store : StoreError → AdminError
  tsa : TsaError → AdminError
  fs : FsError → AdminError

-- `LockoutState`; the monotonic clock is the clock of the world, in seconds.
pub record LockoutState : Type 0 where
  pub failures : ℕ
  pub locked_until : Option ℕ

-- The second `LockoutState` of the source, for the PIN of destruction, is never written to.
pub record AdminService : Type 0 where
  pub vault : World
  pub pin_lockout : LockoutState
  pub sessions : List (String × ℕ)
  pub pending_destructions : List (String × ℕ)
  pub session_ttl_secs : ℕ

-- `AdminService::new`
abbrev pub new_service : World → AdminService
new_service w = record {
  vault = w;
  pin_lockout = record { failures = 0; locked_until = none };
  sessions = [];
  pending_destructions = [];
  session_ttl_secs = 15 * 60;
}

-- A method of the vault as one of the service, with the conversion of its errors.
unfoldable pub on_vault :
    {E A : Type 0} → (E → AdminError) → Exec World E A → Exec AdminService AdminError A
on_vault e m s = let (r, w) = m s.vault in (on_err e r, record s { vault = w })

-- A change of the database that may be refused, with its `?`.
unfoldable pub try_state :
    (DbState → Result StoreError (Unit {0}) × DbState) → Exec World StoreError (Unit {0})
try_state g w = let (r, st) = g w.db.state in (r, record w { db = record w.db { state = st } })

-- An early return of an error when the condition does not hold.
unfoldable pub ensure : Bool → AdminError → Exec AdminService AdminError (Unit {0})
ensure b e = if b then pure tt else raise e

-- ===== src/Roles.antt =====
-- crates/vault-roles/src/lib.rs: the sessions and errors of `RoleService`, and its guards. The
-- service is the `World` of Fs/World: the database and the files it acts on.
pub mod Users
pub mod Queries
pub mod Moves
pub mod Trash
pub mod Edit
pub mod Service
pub mod Steps
pub mod Moved
pub mod Numbering
pub mod Chain
pub mod Custody
pub mod Denials
use ubod.Base.{String, Bool, not, if◌then◌else◌, Option, none, some, ◌==◌, string_eq}
use ubod.Base.Exec.{Exec, pure, raise, gets, or_raise, map_err, ◌>>=◌, ◌>>◌}
use ubod.Base.Foreign.{Foreign}
use ubod.Core.Records.{Document}
use ubod.Core.Role.{Role}
use ubod.Fs.World.{World, log, flush}
use ubod.Fs.Files.{FsError}
use ubod.Store.State.{StoreError}
use ubod.Store.Documents.{find_by_vault_id}

pub data RoleError : Type 0 where
  bad_credentials disabled io : RoleError
  denied not_found collision : String → RoleError
  store : StoreError → RoleError
  fs : FsError → RoleError

pub record Session : Type 0 where
  pub username : String
  pub display_name : String
  pub role : Role

-- An early return of an error when the condition does not hold.
unfoldable pub guard : Bool → RoleError → Exec World RoleError (Unit {0})
guard b e = if b then pure tt else raise e

unfoldable pub require_writable : Exec World RoleError (Unit {0})
require_writable = do
  read_only ← gets (λ w. w.db.read_only)
  guard (not read_only) (store StoreError.read_only)

-- `self.db.find_by_vault_id(vault_id).cloned().ok_or_else(…)?`
unfoldable pub the_document : String → Exec World RoleError Document
the_document id = do
  found ← gets (λ w. find_by_vault_id id w.db.state)
  or_raise found (not_found id)

-- `self.db.flush()?`
unfoldable pub save : Exec World RoleError (Unit {0})
save = map_err store flush

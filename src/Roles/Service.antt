-- ===== src/Roles/Service.antt =====
-- crates/vault-roles/src/lib.rs: the methods of `RoleService` that take `&mut self`, as the requests
-- that a session makes, and a history of them.
use ubod.Base.{String, Bool, Option, List, [], ◌∷◌, ℕ}
use ubod.Base.Exec.{Exec, pure, ◌>>◌}
use ubod.Base.Foreign.{Foreign}
use ubod.Core.Category.{Category}
use ubod.Core.Role.{Role}
use ubod.Fs.World.{World}
use ubod.Roles.{RoleError, Session}
use ubod.Roles.Users.{set_user_pin, set_user_enabled, upsert_user, login}
use ubod.Roles.Moves.{rename, move_to_category}
use ubod.Roles.Trash.{soft_delete, restore}
use ubod.Roles.Edit.{edit_meta, view}

-- The operations on documents, and those on users.
pub data DocumentRequest : Type 0 where
  to_rename : String → String → DocumentRequest
  to_move : String → Category → DocumentRequest
  to_delete : String → String → DocumentRequest
  to_restore : String → DocumentRequest
  to_edit : String → Option String → Option String → Option ℕ → String → DocumentRequest
  to_view : String → DocumentRequest

pub data UserRequest : Type 0 where
  to_set_pin : String → String → UserRequest
  to_set_enabled : String → Bool → UserRequest
  to_upsert : String → String → Role → String → UserRequest
  to_login : String → String → UserRequest

pub data Request : Type 0 where
  on_document : DocumentRequest → Request
  on_user : UserRequest → Request

module _ ⦃f : Foreign⦄ where
  unfoldable pub serve_document : Session → DocumentRequest → Exec World RoleError (Unit {0})
  serve_document s (to_rename id name) = do rename s id name; pure tt
  serve_document s (to_move id c) = do move_to_category s id c; pure tt
  serve_document s (to_delete id why) = soft_delete s id why
  serve_document s (to_restore id) = do restore s id; pure tt
  serve_document s (to_edit id title department year note) = do
    edit_meta s id title department year note
    pure tt
  serve_document s (to_view id) = do view s id; pure tt

  unfoldable pub serve_user : UserRequest → Exec World RoleError (Unit {0})
  serve_user (to_set_pin name pin) = set_user_pin name pin
  serve_user (to_set_enabled name enabled) = set_user_enabled name enabled
  serve_user (to_upsert name display role pin) = upsert_user name display role pin
  serve_user (to_login name password) = do login name password; pure tt

  unfoldable pub serve : Session → Request → Exec World RoleError (Unit {0})
  serve s (on_document r) = serve_document s r
  serve s (on_user r) = serve_user r

  -- Requests one after the other; an error of one does not stop the service.
  unfoldable pub serve_all : List (Session × Request) → World → World
  serve_all [] w = w
  serve_all ((s, r) ∷ rs) w = serve_all rs (serve s r w).1

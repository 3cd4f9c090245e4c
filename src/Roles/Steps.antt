-- ===== src/Roles/Steps.antt =====
-- One rule for each operation of `RoleService`, for the properties of the database that it keeps: crates/vault-roles/src/lib.rs.
use ubod.Base.{String, Bool, Option, List, [], ◌∷◌, refl, ℕ}
use ubod.Base.Exec.Keeps.{Keeps}
use ubod.Base.Foreign.{Foreign}
use ubod.Core.Category.{Category}
use ubod.Core.Records.{Document, DocumentVersion, User}
use ubod.Core.Role.{Role}
use ubod.Fs.World.{World, on_state, log}
use ubod.Fs.Kept.{OnState, Keeps-same, Keeps-on_state, Keeps-log, world_rules}
use ubod.Store.Documents.{restore_trashed, update_document}
use ubod.Store.Users.{upsert_user as put_user}
use ubod.Store.Versions.{add_version}
use ubod.Store.State.{DbState}
use ubod.Store.Audit.{append_audit}
use ubod.Roles.{RoleError, Session, guard, require_writable, the_document, save}
use ubod.Roles.Users.{
  set_user_pin, set_user_enabled, upsert_user, upsert_user_with_pin, login, the_user, draw,
  store_user, note_login,
}
use ubod.Roles.Moves.{rename, move_to_category, relocate, record_move}
use ubod.Roles.Trash.{soft_delete, restore}
use ubod.Roles.Edit.{edit_meta, view, keep_version}
use ubod.Roles.Service.{Request, serve, serve_document, serve_user, serve_all}
use ubod.Roles.Service.{
  to_rename, to_move, to_delete, to_restore, to_edit, to_view, to_set_pin, to_set_enabled,
  to_upsert, to_login, on_document, on_user,
}

-- What the operations do to the database keeps the property, but for `soft_delete`.
pub record IsClosed ⦃f : Foreign⦄ (P : DbState → Type 0) : Type 0 where
  pub logs : (now a b c d : String) (st : DbState) → P st → P (append_audit now a b c d st).1
  pub puts_user : (u : User) (st : DbState) → P st → P (put_user u st)
  pub updates : (d : Document) (st : DbState) → P st → P (update_document d st)
  pub adds_version : (v : DocumentVersion) (st : DbState) → P st → P (add_version v st)
  pub restores : (id : String) (st : DbState) → P st → P (restore_trashed id st).1

module _ ⦃f : Foreign⦄ {P : DbState → Type 0} (closed : IsClosed P) where
  pub Keeps-noted : (a b c d : String) → Keeps {E = RoleError} (OnState P) (log a b c d)
  Keeps-noted a b c d = Keeps-log a b c d (λ now. closed.logs now a b c d)

  pub Keeps-restored :
      (id : String) → Keeps {E = RoleError} (OnState P) (on_state (λ st. (restore_trashed id st).1))
  Keeps-restored id = Keeps-on_state _ (closed.restores id)

  pub Keeps-put_user : (u : User) → Keeps {E = RoleError} (OnState P) (on_state (put_user u))
  Keeps-put_user u = Keeps-on_state _ (closed.puts_user u)

  pub Keeps-update_document :
      (d : Document) → Keeps {E = RoleError} (OnState P) (on_state (update_document d))
  Keeps-update_document d = Keeps-on_state _ (closed.updates d)

  pub Keeps-add_version :
      (v : DocumentVersion) → Keeps {E = RoleError} (OnState P) (on_state (add_version v))
  Keeps-add_version v = Keeps-on_state _ (closed.adds_version v)

  pub Keeps-draw : Keeps {E = RoleError} (OnState P) draw
  unfolding draw
  Keeps-draw = Keeps-same draw (λ w. refl)

  pub Keeps-guard : (b : Bool) (e : RoleError) → Keeps (OnState P) (guard b e)
  unfolding guard
  Keeps-guard b e = search world_rules

  pub Keeps-require_writable : Keeps (OnState P) require_writable
  unfolding require_writable
  Keeps-require_writable = search (world_rules, Keeps-guard)

  pub Keeps-the_document : (id : String) → Keeps (OnState P) (the_document id)
  unfolding the_document
  Keeps-the_document id = search world_rules

  pub Keeps-the_user : (name : String) (e : RoleError) → Keeps (OnState P) (the_user name e)
  unfolding the_user
  Keeps-the_user name e = search world_rules

  pub Keeps-save : Keeps (OnState P) save
  unfolding save
  Keeps-save = search world_rules

  pub Keeps-store_user : (u : User) → Keeps (OnState P) (store_user u)
  unfolding store_user
  Keeps-store_user u = search (world_rules, Keeps-put_user, Keeps-save)

  pub ruleset role_rules = (
    world_rules, Keeps-guard, Keeps-require_writable, Keeps-the_document, Keeps-the_user,
    Keeps-save, Keeps-draw, Keeps-store_user, Keeps-restored, Keeps-update_document,
    Keeps-add_version, Keeps-noted,
  )

  Keeps-set_user_pin : (name pin : String) → Keeps (OnState P) (set_user_pin name pin)
  unfolding set_user_pin
  Keeps-set_user_pin name pin = search role_rules depth 12

  Keeps-set_user_enabled :
      (name : String) (enabled : Bool) → Keeps (OnState P) (set_user_enabled name enabled)
  unfolding set_user_enabled
  Keeps-set_user_enabled name enabled = search role_rules depth 12

  Keeps-upsert_user :
      (name display : String) (role : Role) (pin : String)
      → Keeps (OnState P) (upsert_user name display role pin)
  unfolding upsert_user upsert_user_with_pin
  Keeps-upsert_user name display role pin = search role_rules depth 12

  Keeps-login : (name password : String) → Keeps (OnState P) (login name password)
  unfolding login note_login
  Keeps-login name password = search role_rules depth 16

  Keeps-relocate : (a b : String) → Keeps (OnState P) (relocate a b)
  unfolding relocate
  Keeps-relocate a b = search role_rules depth 16

  Keeps-keep_version :
      (s : Session) (id : String) (d : Document) (note : String)
      → Keeps (OnState P) (keep_version s id d note)
  unfolding keep_version
  Keeps-keep_version s id d note = search (role_rules) depth 16

  ruleset document_rules = (role_rules, Keeps-relocate, Keeps-keep_version)

  Keeps-record_move :
      (actor action id old : String) (d : Document)
      → Keeps (OnState P) (record_move actor action id old d)
  unfolding record_move
  Keeps-record_move actor action id old d = search document_rules depth 12

  Keeps-rename : (s : Session) (id name : String) → Keeps (OnState P) (rename s id name)
  unfolding rename
  Keeps-rename s id name = search (document_rules, Keeps-record_move) depth 16

  Keeps-move_to_category :
      (s : Session) (id : String) (c : Category) → Keeps (OnState P) (move_to_category s id c)
  unfolding move_to_category
  Keeps-move_to_category s id c = search (document_rules, Keeps-record_move) depth 16

  Keeps-restore : (s : Session) (id : String) → Keeps (OnState P) (restore s id)
  unfolding restore
  Keeps-restore s id = search document_rules depth 16

  Keeps-edit_meta :
      (s : Session) (id : String) (title department : Option String) (year : Option ℕ)
      (note : String)
      → Keeps (OnState P) (edit_meta s id title department year note)
  unfolding edit_meta
  Keeps-edit_meta s id title department year note = search document_rules depth 16

  Keeps-view : (s : Session) (id : String) → Keeps (OnState P) (view s id)
  unfolding view
  Keeps-view s id = search document_rules depth 16

module _ ⦃f : Foreign⦄ {P : DbState → Type 0} (closed : IsClosed P)
    (deletes : (s : Session) (id why : String) → Keeps (OnState P) (soft_delete s id why)) where
  ruleset service_rules = (
    role_rules, Keeps-rename, Keeps-move_to_category, Keeps-restore, Keeps-edit_meta, Keeps-view,
    Keeps-set_user_pin, Keeps-set_user_enabled, Keeps-upsert_user, Keeps-login,
  )

  pub Keeps-serve : (s : Session) (r : Request) → Keeps (OnState P) (serve s r)
  unfolding serve serve_document serve_user
  Keeps-serve s (on_document (to_rename id name)) = search service_rules
  Keeps-serve s (on_document (to_move id c)) = search service_rules
  Keeps-serve s (on_document (to_delete id why)) = search service_rules
  Keeps-serve s (on_document (to_restore id)) = search service_rules
  Keeps-serve s (on_document (to_edit id title department year note)) = search service_rules
  Keeps-serve s (on_document (to_view id)) = search service_rules
  Keeps-serve s (on_user (to_set_pin name pin)) = search service_rules
  Keeps-serve s (on_user (to_set_enabled name enabled)) = search service_rules
  Keeps-serve s (on_user (to_upsert name display role pin)) = search service_rules
  Keeps-serve s (on_user (to_login name password)) = search service_rules

  pub Keeps-serve_all :
      (rs : List (Session × Request)) (w : World) → OnState P w → OnState P (serve_all rs w)
  unfolding serve_all
  Keeps-serve_all [] w h = h
  Keeps-serve_all ((s, r) ∷ rs) w h = Keeps-serve_all rs (serve s r w).1 ((Keeps-serve s r).at w h)

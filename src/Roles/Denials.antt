-- ===== src/Roles/Denials.antt =====
-- What `RoleService` refuses, and that a refusal changes nothing: crates/vault-roles/src/lib.rs.
use ubod.Base.{String, Bool, true, false, ◌≡◌, arith}
use ubod.Base.Exec.{err, ◌>>=◌}
use ubod.Base.Foreign.{Foreign}
use ubod.Core.Role.{
  Role, administrativo, coordinacion, can_rename_or_move, can_soft_delete, can_restore,
  can_edit_meta,
}
use ubod.Fs.World.{World}
use ubod.Roles.{denied, Session, guard, require_writable}
use ubod.Roles.Users.{set_user_pin, set_user_enabled, upsert_user, login, note_login, the_user}
use ubod.Roles.Moves.{rename, move_to_category}
use ubod.Roles.Trash.{soft_delete, restore}
use ubod.Roles.Edit.{edit_meta, view}
use ubod.Roles.Service.{
  Request, DocumentRequest, serve, serve_document, serve_user, to_rename, to_move, to_delete,
  to_restore, to_edit, to_view,
}

-- The matrix of the documentation: Docente and Director only look, Coordinación edits too, and
-- Administrativo does everything.
abbrev pub permits : Role → DocumentRequest → Bool
permits administrativo r = true
permits coordinacion (to_edit id title department year note) = true
permits _ (to_view id) = true
permits _ _ = false

-- The name of the operation in the message of a refusal.
abbrev pub operation : DocumentRequest → String
operation (to_rename id name) = "renombrar"
operation (to_move id c) = "mover"
operation (to_delete id why) = "enviar a papelera"
operation (to_restore id) = "restaurar"
operation (to_edit id title department year note) = "editar metadatos"
operation (to_view id) = "ver"

module _ ⦃f : Foreign⦄ where
  -- A request on a document that the matrix does not allow to the role of the session is refused,
  -- with the name of the operation, and leaves the database and the files as they were.
  pub serve_document_denied :
      (s : Session) (r : DocumentRequest) (w : World)
      → permits s.role r ≡ false
      → serve_document s r w ≡ (err (denied (operation r)), w)
  unfolding serve_document rename move_to_category soft_delete restore edit_meta view guard
      can_rename_or_move can_soft_delete can_restore can_edit_meta ◌>>=◌
  serve_document_denied s r w h = ground arith

  -- While another process holds the database, no request changes anything, whether it is answered or
  -- refused.
  pub serve_read_only :
      (s : Session) (r : Request) (w : World) → w.db.read_only ≡ true → (serve s r w).1 ≡ w
  unfolding serve serve_user serve_document rename move_to_category soft_delete restore edit_meta
      view guard require_writable set_user_pin set_user_enabled upsert_user login note_login
      the_user ◌>>=◌
  serve_read_only s r w h = ground arith

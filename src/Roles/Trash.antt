-- ===== src/Roles/Trash.antt =====
-- crates/vault-roles/src/lib.rs: `soft_delete` and `restore`.
use ubod.Base.{String, append}
use ubod.Base.Exec.{Exec, pure, gets, or_raise, ◌>>=◌, ◌>>◌}
use ubod.Base.Foreign.{Foreign}
use ubod.Base.Text.{trim}
use ubod.Core.Records.{Document}
use ubod.Core.Role.{can_soft_delete, can_restore}
use ubod.Fs.World.{World, on_state, log, now_text}
use ubod.Store.Documents.{trash_document, restore_trashed}
use ubod.Roles.{RoleError, denied, not_found, Session, guard, require_writable, the_document, save}

module _ ⦃f : Foreign⦄ where
  unfoldable pub soft_delete : Session → String → String → Exec World RoleError (Unit {0})
  soft_delete s id why = do
    guard (can_soft_delete s.role) (denied "enviar a papelera")
    require_writable
    doc ← the_document id
    now ← gets now_text
    on_state (trash_document doc s.username now (trim why))
    log s.username "soft_delete" id
        (append "a papelera (motivo: " (append (trim why) "); archivo intacto, restaurable"))
    save

  unfoldable pub restore : Session → String → Exec World RoleError Document
  restore s id = do
    guard (can_restore s.role) (denied "restaurar")
    require_writable
    found ← gets (λ w. (restore_trashed id w.db.state).0)
    doc ← or_raise found (not_found id)
    on_state (λ st. (restore_trashed id st).1)
    log s.username "restore" doc.sha256
        (append "vault_id=" (append id " restaurado desde papelera"))
    save
    pure doc

-- ===== src/Roles/Queries.antt =====
-- crates/vault-roles/src/lib.rs: the queries, open to the roles that the matrix names.
use ubod.Base.{String, List}
use ubod.Base.Exec.{Exec, gets, ◌>>◌}
use ubod.Base.Foreign.{Foreign}
use ubod.Index.Query.{parse, search_documents}
use ubod.Core.Records.{Document, TrashedDocument, DocumentVersion}
use ubod.Core.Role.{can_restore, can_view, can_audit}
use ubod.Fs.World.{World}
use ubod.Store.State.{AuditEntry}
use ubod.Store.Versions.{versions_of as stored_versions}
use ubod.Roles.{RoleError, denied, Session, guard}

unfoldable pub documents : Session → Exec World RoleError (List Document)
documents s = gets (λ w. w.db.state.documents)

unfoldable pub trashed : Session → Exec World RoleError (List TrashedDocument)
trashed s = do guard (can_restore s.role) (denied "ver papelera"); gets (λ w. w.db.state.trashed)

unfoldable pub versions_of : Session → String → Exec World RoleError (List DocumentVersion)
versions_of s id = do
  guard (can_view s.role) (denied "ver versiones")
  gets (λ w. stored_versions id w.db.state)

unfoldable pub audit : Session → Exec World RoleError (List AuditEntry)
audit s = do guard (can_audit s.role) (denied "consultar auditoría"); gets (λ w. w.db.state.audit)

-- `search`, open to every role.
unfoldable pub search_by : ⦃f : Foreign⦄ → Session → String → Exec World RoleError (List Document)
search_by s query = gets (λ w. search_documents w.db.state (parse query))

-- ===== src/Roles/Chain.antt =====
-- The audit chain under the operations of `RoleService`: crates/vault-roles/src/lib.rs.
use mathlib.Core.List.{append_assoc, append-nil}
use ubod.Base.{String, List, [], ◌∷◌, subst, ◌++◌, ◌≡◌, sym, ap, ◌∙◌, arith}
use ubod.Base.Exec.{ok}
use ubod.Base.Exec.Keeps.{Keeps}
use ubod.Base.Foreign.{Foreign}
use ubod.Core.Records.{Document}
use ubod.Fs.World.{World, on_state}
use ubod.Fs.Kept.{OnState, Keeps-on_state}
use ubod.Roles.Steps.{IsClosed, Keeps-serve_all, role_rules}
use ubod.Store.Documents.{restore_trashed, trash_document, update_document}
use ubod.Store.Users.{upsert_user as put_user}
use ubod.Store.Versions.{add_version}
use ubod.Store.State.{DbState, AuditEntry}
use ubod.Store.Audit.{append_audit, next_entry, audit_genesis, verify_from, verify_audit_chain}
use ubod.Store.Audit.Chain.{append_audit-verify}
use ubod.Roles.{RoleError, Session}
use ubod.Roles.Trash.{soft_delete}
use ubod.Roles.Service.{Request, serve_all}

-- The operations change the entries only by `append_audit`.
trash_document-audit :
    (d : Document) (by at why : String) (st : DbState)
    → (trash_document d by at why st).audit ≡ st.audit
unfolding trash_document
trash_document-audit d by at why st = ground arith

restore_trashed-audit : (id : String) (st : DbState) → (restore_trashed id st).1.audit ≡ st.audit
unfolding restore_trashed
restore_trashed-audit id st = ground arith

module _ ⦃f : Foreign⦄ (P : List AuditEntry → Type 0)
    (logs : (now a b c d : String) (st : DbState)
      → P st.audit
      → P (append_audit now a b c d st).1.audit) where
  abbrev OnAudit : DbState → Type 0
  OnAudit st = P st.audit

  audit_closed : IsClosed OnAudit
  unfolding put_user update_document add_version
  audit_closed = record {
    logs = logs;
    puts_user = λ u st h. h;
    updates = λ d st h. h;
    adds_version = λ v st h. h;
    restores = λ id st h. subst P (sym (restore_trashed-audit id st)) h;
  }

  Keeps-trash :
      (d : Document) (by at why : String)
      → Keeps {E = RoleError} (OnState OnAudit) (on_state (trash_document d by at why))
  Keeps-trash d by at why =
      Keeps-on_state _ (λ st h. subst P (sym (trash_document-audit d by at why st)) h)

  Keeps-soft_delete :
      (s : Session) (id why : String) → Keeps (OnState OnAudit) (soft_delete s id why)
  unfolding soft_delete
  Keeps-soft_delete s id why = search (role_rules, audit_closed, Keeps-trash) depth 16

  audit_kept :
      (rs : List (Session × Request)) (w : World)
      → P w.db.state.audit
      → P (serve_all rs w).db.state.audit
  audit_kept rs w h =
      (Keeps-serve_all audit_closed Keeps-soft_delete rs w (record { kept = h })).kept

module _ ⦃f : Foreign⦄ where
  -- Whatever the requests, the sessions that make them and the calls of the system that fail, a valid
  -- audit chain stays valid.
  pub serve_all-Verified :
      (rs : List (Session × Request)) (w : World)
      → verify_audit_chain w.db.state ≡ ok tt
      → verify_audit_chain (serve_all rs w).db.state ≡ ok tt
  unfolding verify_audit_chain
  serve_all-Verified rs w h =
      audit_kept (λ es. verify_from audit_genesis es ≡ ok tt)
        (λ now a b c d st k. (append_audit-verify now a b c d st k).0) rs w h

  -- And the entries that were there stay in front: the requests only append.
  pub serve_all-append :
      (rs : List (Session × Request)) (w : World)
      → (added : List AuditEntry) × ((serve_all rs w).db.state.audit ≡ w.db.state.audit ++ added)
  unfolding append_audit
  serve_all-append rs w =
      audit_kept (λ es. (added : List AuditEntry) × (es ≡ w.db.state.audit ++ added))
        (λ now a b c d st k.
          let e = next_entry now a b c d st in
          (k.0 ++ e ∷ [], ap (λ es. es ++ e ∷ []) k.1 ∙ append_assoc w.db.state.audit k.0 (e ∷ [])))
        rs w ([], sym (append-nil _))

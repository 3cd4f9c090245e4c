-- ===== src/Roles/Custody.antt =====
-- No operation of `RoleService` destroys, duplicates or makes up a document:
-- crates/vault-roles/src/lib.rs.
use mathlib.Core.List.{Perm, map-append}
use mathlib.Core.List.Perm
use ubod.Base.{
  String, some, List, [], ◌∷◌, ◌++◌, map, ◌≡◌, refl, sym, ap, ◌∙◌, arith, update_first, eq_iff,
  ◌==◌, string_eq, Option-cases, inl, inr,
}
use ubod.Base.Exec.{Exec, gets, ◌>>=◌, ◌>>◌}
use ubod.Base.Exec.Keeps.{Keeps, Keeps-bind}
use ubod.Base.Foreign.{Foreign}
use ubod.Base.Text.{trim}
use ubod.Core.Records.{Document}
use ubod.Fs.World.{World, on_state, now_text}
use ubod.Fs.Kept.{OnState}
use ubod.Store.State.{DbState}
use ubod.Store.Audit.{append_audit}
use ubod.Store.Documents.{find_by_vault_id, trash_document, update_document}
use ubod.Store.Documents.Custody.{custody, binned, custody-trash_document, custody-restore_trashed}
use ubod.Store.Users.{upsert_user as put_user}
use ubod.Store.Versions.{add_version}
use ubod.Roles.{RoleError, Session, the_document}
use ubod.Roles.Service.{Request, serve_all}
use ubod.Roles.Trash.{soft_delete}
use ubod.Roles.Steps.{IsClosed, Keeps-serve_all, role_rules}

-- The identities of the documents in custody.
unfoldable pub vault_ids : DbState → List String
vault_ids st = map (λ (d : Document). d.vault_id) (custody st)

update_first-ids :
    (doc : Document) (ds : List Document)
    → map
        (λ (d : Document). d.vault_id)
        (update_first (λ d. d.vault_id == doc.vault_id) (λ _. doc) ds)
      ≡ map (λ (d : Document). d.vault_id) ds
update_first-ids doc [] = refl
update_first-ids doc (d ∷ ds) =
    ground (arith, update_first-ids doc ds, eq_iff d.vault_id doc.vault_id)

update_document-ids :
    (doc : Document) (st : DbState) → vault_ids (update_document doc st) ≡ vault_ids st
unfolding vault_ids custody update_document
update_document-ids doc st =
    map-append _ (update_document doc st).documents (binned st)
    ∙ ap (λ ids. ids ++ map (λ (d : Document). d.vault_id) (binned st))
        (update_first-ids doc st.documents)
    ∙ sym (map-append _ st.documents (binned st))

module _ {P : World → Type 0} {A : Type 0} where
  Keeps-found :
      (id : String) (k : Document → Exec World RoleError A)
      → ((d : Document) (w : World) → find_by_vault_id id w.db.state ≡ some d → P w → P (k d w).1)
      → Keeps P (the_document id >>= k)
  unfolding the_document ◌>>=◌
  Keeps-found id k h = record {
    at = λ w p. elim (Option-cases (find_by_vault_id id w.db.state)) [
      | inl e ↦ rw e p
      | inr (d, e) ↦ rw e (h d w e p)
    ];
  }

module _ ⦃f : Foreign⦄ (ids : List String) where
  abbrev HasIds : DbState → Type 0
  HasIds st = Perm (vault_ids st) ids

  ids_closed : IsClosed HasIds
  unfolding vault_ids custody append_audit put_user add_version
  ids_closed = record {
    logs = λ now a b c d st h. h;
    puts_user = λ u st h. h;
    updates = λ d st h. rw (update_document-ids d st) h;
    adds_version = λ v st h. h;
    restores = λ id st h. Perm.trans (Perm.map _ (custody-restore_trashed id st)) h;
  }

  Keeps-deletion :
      (by id why : String) (d : Document) (k : String → Exec World RoleError (Unit {0}))
      → ((now : String) → Keeps (OnState HasIds) (k now))
      → (w : World) → find_by_vault_id id w.db.state ≡ some d
      → OnState HasIds w
      → OnState HasIds
          ((gets now_text >>= λ now. on_state (trash_document d by now why) >> k now) w).1
  unfolding on_state ◌>>=◌ vault_ids
  Keeps-deletion by id why d k kk w found h = (kk (now_text w)).at _ (record {
    kept =
        Perm.trans (Perm.map _ (custody-trash_document id by (now_text w) why d w.db.state found))
          h.kept;
  })

  Keeps-soft_delete :
      (s : Session) (id why : String) → Keeps (OnState HasIds) (soft_delete s id why)
  unfolding soft_delete
  Keeps-soft_delete s id why = Keeps-bind _ _ (search (role_rules, ids_closed)) λ _.
      Keeps-bind _ _ (search (role_rules, ids_closed)) λ _. Keeps-found id _ λ d.
        Keeps-deletion s.username id (trim why) d _
          (λ now. search (role_rules, ids_closed) depth 12)

module _ ⦃f : Foreign⦄ where
  -- Whatever the requests and whatever fails, the documents in the index and in the trash together are
  -- the ones that were there before: the same identities, each as many times.
  pub serve_all-vault_ids :
      (rs : List (Session × Request)) (w : World)
      → Perm (vault_ids (serve_all rs w).db.state) (vault_ids w.db.state)
  serve_all-vault_ids rs w =
      (Keeps-serve_all (ids_closed (vault_ids w.db.state))
        (Keeps-soft_delete (vault_ids w.db.state)) rs w (record { kept = Perm.rfl })).kept

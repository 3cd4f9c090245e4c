-- ===== src/Store/Documents/Custody.antt =====
-- What the vault has in custody: the documents of the active index and those in the trash
-- (crates/vault-store/src/lib.rs).
use mathlib.Core.List.{Perm, append_assoc, map-append, perm_append_singleton}
use mathlib.Core.List.Perm
use ubod.Base.{
  String, List, [], ◌∷◌, ◌++◌, map, some, ◌≡◌, arith, find, remove_first, ◌==◌, string_eq, eq_iff,
  Option-cases, inl, inr,
}
use ubod.Base.Search.{find-holds, remove_first-perm}
use ubod.Core.Records.{Document, TrashedDocument}
use ubod.Store.State.{DbState}
use ubod.Store.Documents.{find_by_vault_id, trash_document, restore_trashed}

unfoldable pub binned : DbState → List Document
binned st = map (λ (t : TrashedDocument). t.document) st.trashed

unfoldable pub custody : DbState → List Document
unfolding binned
custody st = st.documents ++ binned st

module _ {A : Type 0} (a : A) where
  to_the_bin : (xs rest ys : List A) → Perm xs (a ∷ rest) → Perm (rest ++ (ys ++ a ∷ [])) (xs ++ ys)
  to_the_bin xs rest ys h =
      rw (← append_assoc rest ys (a ∷ []))
        (Perm.trans (perm_append_singleton a (rest ++ ys)) (Perm.append_right ys (Perm.symm h)))

  from_the_bin :
      (xs ys rest : List A) → Perm ys (a ∷ rest) → Perm ((xs ++ a ∷ []) ++ rest) (xs ++ ys)
  from_the_bin xs ys rest h = rw (append_assoc xs (a ∷ []) rest) (Perm.append_left xs (Perm.symm h))

found_id :
    (id : String) (d : Document) (st : DbState) → find_by_vault_id id st ≡ some d → d.vault_id ≡ id
unfolding find_by_vault_id
found_id id d st h = (eq_iff d.vault_id id).0 (find-holds (λ x. x.vault_id == id) st.documents d h)

-- The state after a document that `find_by_vault_id` found goes to the trash.
pub trash_document_lem :
    (id by at reason : String) (d : Document) (st : DbState)
    → find_by_vault_id id st ≡ some d
    → trash_document d by at reason st ≡ record st {
      documents = remove_first (λ x. x.vault_id == id) st.documents;
      trashed =
          st.trashed
          ++ record { document = d; trashed_by = by; trashed_at = at; reason = reason } ∷ [];
    }
unfolding find_by_vault_id trash_document
trash_document_lem id by at reason d st h = ground (arith, found_id id d st h)

-- Sending a document to the trash loses none and makes none up.
pub custody-trash_document :
    (id by at reason : String) (d : Document) (st : DbState)
    → find_by_vault_id id st ≡ some d
    → Perm (custody (trash_document d by at reason st)) (custody st)
unfolding custody find_by_vault_id
custody-trash_document id by at reason d st h =
    rw (trash_document_lem id by at reason d st h, map-append)
      (to_the_bin d st.documents _ (binned st)
        (remove_first-perm (λ x. x.vault_id == id) st.documents d h))

-- Nor does restoring one.
pub custody-restore_trashed :
    (id : String) (st : DbState) → Perm (custody (restore_trashed id st).1) (custody st)
unfolding custody restore_trashed
custody-restore_trashed id st =
    elim (Option-cases (find (λ (t : TrashedDocument). t.document.vault_id == id) st.trashed)) [
      | inl e ↦ rw (e, restore_trashed) Perm.rfl
      | inr (t, e) ↦
          rw (e, restore_trashed)
            (from_the_bin t.document st.documents (binned st) _
              (Perm.map (λ (x : TrashedDocument). x.document) (remove_first-perm _ st.trashed t e)))
    ]

-- ===== src/Roles/Moved.antt =====
-- The full effect of a successful `rename`: crates/vault-roles/src/lib.rs.
use ubod.Base.{
  String, Bool, true, false, not, none, some, List, [], ◌≡◌, ◌≢◌, refl, sym, ap, ◌∙◌, ◌==◌, ◌∷◌,
  ◌++◌, append, length, update_first, string_eq,
}
use ubod.Base.Exec.{Result, ok, pure, gets, map_err, continue, ◌>>=◌}
use ubod.Base.Foreign.{Foreign}
use ubod.Base.Text.{trim}
use ubod.Core.Records.{Document}
use ubod.Core.Role.{can_rename_or_move}
use ubod.Fs.World.{
  World, File, lookup, without, insert, attempt, call, flush, save_state, on_state, log, now_text,
}
use ubod.Fs.Files.{is_taken, is_taken-lookup}
use ubod.Fs.Files.Sealing.{
  bind_ok, map_err_ok, attempt_calm, call_calm, rename_file_calm, seal_file_calm, unseal_file_calm,
  with_files, sealed, lookup-insert, lookup-insert_other, lookup-without, lookup-without_other,
}
use ubod.Fs.Paths.{abs_path}
use ubod.Store.Audit.{append_audit, chain_head}
use ubod.Store.Documents.{find_by_vault_id, update_document}
use ubod.Store.State.{DbState, StoreError, AuditEntry}
use ubod.Roles.{
  RoleError, collision, store, fs, Session, guard, require_writable, the_document, save,
}
use ubod.Roles.Moves.{rename, relocate, record_move, renamed_path, is_bad_name}

-- The database after a flush.
abbrev pub flushed : DbState → World → World
flushed st w = record w { db = record w.db { state = st; saved = some st } }

save_calm :
    (w : World) → w.faults ≡ [] → w.db.read_only ≡ false → save w ≡ (ok tt, flushed w.db.state w)
unfolding save flush save_state call attempt map_err ◌>>=◌
save_calm w calm writable = rw (writable, calm)

guard_ok : (b : Bool) (e : RoleError) (w : World) → b ≡ true → guard b e w ≡ (ok tt, w)
unfolding guard pure
guard_ok b e w h = rw h

writable_ok : (w : World) → w.db.read_only ≡ false → require_writable w ≡ (ok tt, w)
unfolding require_writable gets
writable_ok w h =
    bind_ok _ _ refl (guard_ok (not w.db.read_only) (store StoreError.read_only) w (ap not h))

the_document_ok :
    (id : String) (doc : Document) (w : World)
    → find_by_vault_id id w.db.state ≡ some doc
    → the_document id w ≡ (ok doc, w)
unfolding the_document ◌>>=◌
the_document_ok id doc w h = rw h

module _ (w : World) (calm : w.faults ≡ []) (old_rel new_rel : String) (file : File)
    (found : lookup (abs_path w.root old_rel) w.files ≡ some file)
    (room : is_taken (abs_path w.root new_rel) w.files ≡ false) where
  abbrev src : String
  src = abs_path w.root old_rel

  abbrev dst : String
  dst = abs_path w.root new_rel

  absent : lookup dst w.files ≡ none
  absent = is_taken-lookup dst w.files room

  src≢dst : dst ≢ src
  src≢dst h = cc (found, absent, h)

  abbrev released : File
  released = record file { mode = 384; immutable = false }

  abbrev files_released : List (String × File)
  files_released = insert src released (insert src (record file { immutable = false }) w.files)

  abbrev files_there : List (String × File)
  files_there = insert dst released (without src files_released)

  abbrev files_moved : List (String × File)
  files_moved =
      insert dst (sealed released) (insert dst (record released { mode = 288 }) files_there)

  free : guard (not (is_taken dst w.files)) (collision new_rel) w ≡ (ok tt, w)
  unfolding guard pure
  free = rw (room, not)

  relocate_calm : relocate old_rel new_rel w ≡ (ok tt, with_files w files_moved)
  unfolding relocate gets pure
  relocate_calm =
      let w1 = with_files w files_released in
      let w2 = with_files w files_there in
      let found1 = lookup-insert src released _ in
      let absent1 =
        lookup-insert_other dst src released _ src≢dst
        ∙ lookup-insert_other dst src _ w.files src≢dst
        ∙ absent in
      bind_ok _ _ refl (
        bind_ok _ _ refl (
          bind_ok _ _ free (
            bind_ok _ _ (map_err_ok fs _ (unseal_file_calm w calm src file found)) (
              bind_ok _ _ (call_calm RoleError.io w1 calm) (
                bind_ok _ _
                  (rename_file_calm RoleError.io w1 calm src released found1 dst refl absent1)
                  (bind_ok _ _
                    (map_err_ok fs _
                      (seal_file_calm w2 calm dst released (lookup-insert dst released _) refl))
                    (bind_ok _ _ (attempt_calm RoleError.io (with_files w files_moved) calm)
                      refl)))))))

  moved_dst : lookup dst files_moved ≡ some (sealed file)
  moved_dst = lookup-insert dst (sealed released) _

  moved_src : lookup src files_moved ≡ none
  moved_src =
      lookup-insert_other src dst _ _ (λ h. src≢dst (sym h))
      ∙ lookup-insert_other src dst _ _ (λ h. src≢dst (sym h))
      ∙ lookup-insert_other src dst _ _ (λ h. src≢dst (sym h))
      ∙ lookup-without src files_released

  moved_other : (p : String) → p ≢ src → p ≢ dst → lookup p files_moved ≡ lookup p w.files
  moved_other p a b =
      lookup-insert_other p dst _ _ b
      ∙ lookup-insert_other p dst _ _ b
      ∙ lookup-insert_other p dst _ _ b
      ∙ lookup-without_other p src _ a
      ∙ lookup-insert_other p src _ _ a
      ∙ lookup-insert_other p src _ _ a

module _ ⦃f : Foreign⦄ (s : Session) (id new_name : String) (w : World) (doc : Document)
    (file : File) where
  abbrev new_rel : String
  new_rel = renamed_path (trim new_name) doc.rel_path

  abbrev pub new_doc : Document
  new_doc = record doc { meta = record doc.meta { file_name = trim new_name }; rel_path = new_rel }

  -- What the rename enters in the audit chain.
  abbrev pub renamed_entry : AuditEntry
  renamed_entry = record {
    seq = length w.db.state.audit;
    timestamp = now_text w;
    actor = s.username;
    action = "rename";
    subject = doc.sha256;
    detail =
        append "vault_id="
          (append id (append " «" (append doc.rel_path (append "» → «" (append new_rel "»")))));
    prev_hash = chain_head w.db.state.audit;
  }

  -- The database after the rename: the document in the place of the first of its identifier, and the
  -- entry at the end of the chain.
  abbrev pub renamed_state : DbState
  renamed_state = record w.db.state {
    documents = update_first (λ d. d.vault_id == doc.vault_id) (λ _. new_doc) w.db.state.documents;
    audit = w.db.state.audit ++ renamed_entry ∷ [];
  }

  record_move_calm :
      (files : List (String × File))
      → w.faults ≡ []
      → w.db.read_only ≡ false
      → record_move s.username "rename" id doc.rel_path new_doc (with_files w files)
        ≡ (ok new_doc, flushed renamed_state (with_files w files))
  unfolding record_move on_state log ◌>>=◌ now_text append_audit update_document
  record_move_calm files calm writable =
      ap (λ (r : Result RoleError (Unit {0}) × World). continue r.0 (λ _. pure new_doc) r.1)
        (save_calm (record (with_files w files) { db = record w.db { state = renamed_state } }) calm
          writable)

  -- `rename` succeeds for a session that may move documents, on a vault that can be written and has no
  -- fault, if the new name is a proper one and gives another path, the document is there with its file,
  -- and its new place is free: no file is there, no directory that holds a file, and the name is not
  -- `.` or `..`. The first document of the identifier then has the new name and path in the index, one
  -- new entry at the end of the audit chain says so, nothing else of the database changed and it is
  -- saved. The file is in its new place with its content, sealed, nothing is left in the old place,
  -- and no other file changed.
  pub rename_effect :
      can_rename_or_move s.role ≡ true
      → w.db.read_only ≡ false
      → w.faults ≡ []
      → is_bad_name (trim new_name) ≡ false
      → find_by_vault_id id w.db.state ≡ some doc
      → (new_rel == doc.rel_path) ≡ false
      → lookup (abs_path w.root doc.rel_path) w.files ≡ some file
      → is_taken (abs_path w.root new_rel) w.files ≡ false
      → (files : List (String × File)) × (rename s id new_name w
          ≡ (ok new_doc, flushed renamed_state (with_files w files)))
        × (lookup (abs_path w.root new_rel) files ≡ some (sealed file))
        × (lookup (abs_path w.root doc.rel_path) files ≡ none)
        × ((p : String)
            → p ≢ abs_path w.root doc.rel_path
            → p ≢ abs_path w.root new_rel
            → lookup p files ≡ lookup p w.files)
  unfolding rename
  rename_effect may writable calm proper here moves found room = (
    files_moved w calm doc.rel_path new_rel file found room,
    bind_ok _ _ (guard_ok _ _ w may) (
        bind_ok _ _ (writable_ok w writable) (
          bind_ok _ _ (guard_ok _ _ w (ap not proper)) (
            bind_ok _ _ (the_document_ok id doc w here) (
              rw moves (
                bind_ok _ _ (relocate_calm w calm doc.rel_path new_rel file found room)
                  (record_move_calm _ calm writable)))))),
    moved_dst w calm doc.rel_path new_rel file found room,
    moved_src w calm doc.rel_path new_rel file found room,
    moved_other w calm doc.rel_path new_rel file found room,
  )

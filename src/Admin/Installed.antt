-- ===== src/Admin/Installed.antt =====
-- `seal_document` of a staged file on a system without faults: crates/vault-admin/src/lib.rs and
-- crates/vault-fs/src/lib.rs.
use ubod.Base.{
  ◌+◌, ◌*◌, String, append, false, Option, none, some, List, [], ◌≡◌, ◌≢◌, refl, sym, ap, subst,
  arith, ◌∙◌, length, ◌∷◌, ◌++◌,
}
use ubod.Base.Exec.{ok, pure, gets, modify, ◌>>=◌}
use ubod.Base.Foreign.{Foreign}
use ubod.Core.Ids.{new_id}
use ubod.Core.Records.{Document, IntegrityStatus}
use ubod.Fs.World.{World, File, lookup, without, insert, on_state, log, now_text, fresh_id}
use ubod.Fs.Files.{
  FsError, read_file, is_taken, is_taken-lookup, prepare_parent, move_staged, install_staged,
}
use ubod.Fs.Files.Sealing.{
  bind_ok, map_err_ok, call_calm, metadata_calm, rename_file_calm, set_permissions_calm,
  seal_file_calm, with_files, sealed, lookup-insert, lookup-insert_other, lookup-without,
}
use ubod.Fs.Paths.{abs_path, rel_path_for}
use ubod.Store.Audit.{append_audit, chain_head}
use ubod.Store.Documents.{add_document, find_by_sha256, set_text, map_insert}
use ubod.Store.State.{DbState, AuditEntry}
use ubod.Admin.{AdminError, io}
use ubod.Admin.Sealing.{
  SealOutcome, staged_file, SealRequest, Outside, Authority, source_content, install, with_stamp,
  index_document, keep_sealed, seal_at, unplaced, seal_new, seal_once, seal_document,
}

module _ {E : Type 0} (e : E) (w : World) (calm : w.faults ≡ []) (path : String) (file : File)
    (found : lookup path w.files ≡ some file) where
  pub read_file_calm : read_file e path w ≡ (ok file.bytes, w)
  unfolding read_file pure
  read_file_calm = bind_ok _ _ (metadata_calm e w calm path file found) refl

module _ (w : World) (calm : w.faults ≡ []) (staged rel : String) (file : File)
    (found : lookup staged w.files ≡ some file) (free : file.immutable ≡ false)
    (room : is_taken (abs_path w.root rel) w.files ≡ false) where
  abbrev dest : String
  dest = abs_path w.root rel

  abbrev files_there : List (String × File)
  files_there = insert dest file (without staged w.files)

  abbrev opened : File
  opened = record file { mode = 384 }

  abbrev pub files_installed : List (String × File)
  files_installed =
      let files = insert dest opened files_there in
      insert dest (sealed opened) (insert dest (record opened { mode = 288 }) files)

  absent : lookup dest w.files ≡ none
  absent = is_taken-lookup dest w.files room

  prepare_parent_calm : prepare_parent rel w ≡ (ok dest, w)
  unfolding prepare_parent gets pure
  prepare_parent_calm =
      bind_ok _ _ (call_calm FsError.io w calm)
        (bind_ok _ _ (call_calm FsError.io w calm) (bind_ok _ _ refl refl))

  pub install_staged_calm :
      install_staged false rel staged w ≡ (ok dest, with_files w files_installed)
  unfolding install_staged move_staged gets pure
  install_staged_calm =
      let w1 = with_files w files_there in
      let w2 = with_files w (insert dest opened files_there) in
      bind_ok _ _ prepare_parent_calm (
        bind_ok _ _ refl (
          rw room (
            bind_ok _ _ (rename_file_calm FsError.io w calm staged file found dest free absent) (
              bind_ok _ _
                (set_permissions_calm FsError.io w1 calm dest file (lookup-insert dest _ _) 384
                  free)
                (bind_ok _ _ (seal_file_calm w2 calm dest opened (lookup-insert dest _ _) free)
                  refl)))))

  dest≢staged : dest ≢ staged
  dest≢staged h = cc (found, absent, h)

  pub lookup-installed : lookup dest files_installed ≡ some (sealed opened)
  lookup-installed = lookup-insert dest _ _

  pub lookup-installed_other :
      (p : String) → p ≢ dest → lookup p files_installed ≡ lookup p (without staged w.files)
  lookup-installed_other p a =
      lookup-insert_other p dest _ _ a
      ∙ lookup-insert_other p dest _ _ a
      ∙ lookup-insert_other p dest _ _ a
      ∙ lookup-insert_other p dest _ _ a

  pub lookup-staged : lookup staged files_installed ≡ none
  lookup-staged =
      lookup-installed_other staged (λ h. dest≢staged (sym h)) ∙ lookup-without staged w.files

-- The stamp leaves the place of the document alone.
module _ ⦃f : Foreign⦄ (out : Outside) where
  with_stamp-rel_path :
      (tsa : Option Authority) (doc : Document) → (with_stamp out tsa doc).rel_path ≡ doc.rel_path
  with_stamp-rel_path none doc = refl
  with_stamp-rel_path (some tsa) doc = ground arith

-- The document that a sealing makes of a file, and the database with it.
module _ ⦃f : Foreign⦄ (out : Outside) (w : World) (req : SealRequest) (file : File) where
  abbrev pub new_document : Document
  new_document =
      let bare =
        unplaced out req (new_id (w.now * 1000 + f.milliseconds w.drawn) (f.random_bytes w.drawn))
          (file.bytes, length file.bytes) in
      record bare { rel_path = rel_path_for req.meta.author bare }

module _ ⦃f : Foreign⦄ (out : Outside) (w : World) (tsa : Option Authority) (req : SealRequest)
    (file : File) where
  abbrev pub sealed_document : Document
  sealed_document = record (with_stamp out tsa (new_document out w req file)) {
    integrity = IntegrityStatus.ok;
  }

  -- What the sealing enters in the audit chain.
  abbrev pub sealed_entry : AuditEntry
  sealed_entry = record {
    seq = length w.db.state.audit;
    timestamp = now_text w;
    actor = req.actor;
    action = req.audit_action;
    subject = sealed_document.sha256;
    detail =
        append "vault_id="
          (append sealed_document.vault_id (append " ruta=" sealed_document.rel_path));
    prev_hash = chain_head w.db.state.audit;
  }

  -- The database after the sealing, before the decision on the submission: the document at the end of
  -- the index, its text under its identifier, and the entry at the end of the chain.
  abbrev pub entered_state : DbState
  entered_state = record w.db.state {
    documents = w.db.state.documents ++ sealed_document ∷ [];
    audit = w.db.state.audit ++ sealed_entry ∷ [];
    text_index =
        map_insert sealed_document.vault_id
          (out.extract_text (abs_path w.root sealed_document.rel_path) file.bytes)
          w.db.state.text_index;
  }

-- Sealing content that no document of the active index has.
module _ ⦃f : Foreign⦄ (out : Outside) (same_device : out.other_device ≡ false) (w : World)
    (calm : w.faults ≡ []) (tsa : Option Authority) (req : SealRequest) (staged : String)
    (file : File) (found : lookup staged w.files ≡ some file) (free : file.immutable ≡ false) where
  abbrev bare : Document
  bare = new_document out w req file

  abbrev whole : Document
  whole = sealed_document out w tsa req file

  -- The same request as for the file.
  abbrev of_file : SealRequest
  of_file = record req { source = staged_file staged }

  abbrev drawn_world : World
  drawn_world = record w { drawn = w.drawn + 1 }

  source_calm : source_content (staged_file staged) w ≡ (ok (file.bytes, length file.bytes), w)
  unfolding source_content pure
  source_calm =
      bind_ok _ _ (read_file_calm io w calm staged file found)
        (bind_ok _ _ (metadata_calm io w calm staged file found) refl)

  module _ (room : is_taken (abs_path w.root bare.rel_path) w.files ≡ false) where
    abbrev pub installed : World
    installed =
        with_files drawn_world
          (files_installed drawn_world calm staged bare.rel_path file found free room)

    abbrev pub entered : World
    entered = (keep_sealed out of_file whole installed).1

    install_calm :
        install out (staged_file staged) bare.rel_path drawn_world
        ≡ (ok (abs_path w.root bare.rel_path), installed)
    unfolding install
    install_calm =
        rw same_device
          (install_staged_calm drawn_world calm staged bare.rel_path file found free room)

    kept_calm : keep_sealed out of_file whole installed ≡ (ok (SealOutcome.sealed whole), entered)
    unfolding keep_sealed index_document on_state log gets modify pure ◌>>=◌
    kept_calm = refl

    seal_at_calm :
        seal_at out tsa of_file bare drawn_world ≡ (ok (SealOutcome.sealed whole), entered)
    unfolding seal_at install gets
    seal_at_calm =
        bind_ok _ _ refl (rw room (bind_ok _ _ (map_err_ok AdminError.fs _ install_calm) kept_calm))

    seal_new_calm :
        seal_new out tsa of_file (file.bytes, length file.bytes) w
        ≡ (ok (SealOutcome.sealed whole), entered)
    unfolding seal_new fresh_id
    seal_new_calm = bind_ok _ _ refl seal_at_calm

    pub seal_document_calm :
        find_by_sha256 (f.sha256 file.bytes) w.db.state ≡ none
        → seal_document out tsa of_file w ≡ (ok (SealOutcome.sealed whole), entered)
    unfolding seal_document seal_once gets
    seal_document_calm unseen = bind_ok _ _ source_calm (bind_ok _ _ refl (rw unseen seal_new_calm))

    pub sealed_there :
        lookup (abs_path w.root whole.rel_path) installed.files
        ≡ some (sealed (record file { mode = 384 }))
    sealed_there =
        subst
          (λ rel.
            lookup (abs_path w.root rel) installed.files
            ≡ some (sealed (record file { mode = 384 })))
          (sym (with_stamp-rel_path out tsa bare))
          (lookup-installed drawn_world calm staged bare.rel_path file found free room)

    pub entered-state :
        entered ≡ record installed { db = record w.db { state = entered_state out w tsa req file } }
    unfolding keep_sealed index_document on_state log gets modify pure now_text append_audit
        add_document set_text ◌>>=◌
    entered-state = rw sealed_there refl

    abbrev pub sealed_world : World
    sealed_world = record installed {
      db = record w.db { state = entered_state out w tsa req file };
    }

    pub seal_document_ok :
        find_by_sha256 (f.sha256 file.bytes) w.db.state ≡ none
        → seal_document out tsa of_file w ≡ (ok (SealOutcome.sealed whole), sealed_world)
    seal_document_ok unseen =
        seal_document_calm unseen ∙ ap (λ v. (ok (SealOutcome.sealed whole), v)) entered-state

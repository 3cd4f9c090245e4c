-- ===== src/Admin/Executed.antt =====
-- `execute_destruction` on a system without faults: crates/vault-admin/src/lib.rs.
use ubod.Base.{
  ℕ, String, append, false, none, some, List, [], ◌≡◌, ◌≢◌, refl, sym, ap, ◌∙◌, ◌∷◌, ◌++◌, ◌==◌,
  string_eq, length, remove_first, find, Option-cases, inl, inr,
}
use ubod.Base.Search.{remove_first-none}
use ubod.Base.Exec.{Exec, ok, gets, modify}
use ubod.Base.Exec.Runs.{runs}
use ubod.Base.Foreign.{Foreign}
use ubod.Base.Text.{as_bytes}
use ubod.Core.Records.{Document}
use ubod.Fs.World.{World, File, lookup, without, insert, on_state, log, now_text}
use ubod.Fs.Files.{exists}
use ubod.Fs.Files.Sealing.{
  call_calm, unseal_file_calm, seal_file_calm, with_files, sealed, lookup-insert,
  lookup-insert_other, lookup-without, lookup-without_other,
}
use ubod.Fs.Files.Wiping.{written, passes, write_file_calm, secure_wipe_calm}
use ubod.Fs.Paths.{abs_path}
use ubod.Store.Audit.{append_audit, chain_head}
use ubod.Store.Documents.{remove_document}
use ubod.Store.State.{DbState, AuditEntry}
use ubod.Admin.{AdminError, AdminService, io, fs, store, on_vault}
use ubod.Admin.Control.{note_calm}
use ubod.Admin.Destruction.{wipe_document, execute_destruction, tombstone_text, tombstone_path}

-- A method of the vault that succeeds.
on_vault_ok :
    {E A : Type 0} (e : E → AdminError) (m : Exec World E A) (s : AdminService) {a : A} {w : World}
    → m s.vault ≡ (ok a, w)
    → on_vault e m s ≡ (ok a, record s { vault = w })
unfolding on_vault
on_vault_ok e m s h = rw h refl

module _ ⦃f : Foreign⦄ where
  -- What the destruction enters in the audit chain.
  abbrev pub destroyed_entry : AdminService → Document → String → String → AuditEntry
  destroyed_entry s doc why actor = record {
    seq = length s.vault.db.state.audit;
    timestamp = now_text s.vault;
    actor = actor;
    action = "destroy_executed";
    subject = doc.sha256;
    detail = append "vault_id=" (
        append doc.vault_id (
          append " motivo=" (append why (append " tombstone=" (tombstone_path s.vault.root doc)))));
    prev_hash = chain_head s.vault.db.state.audit;
  }

  -- The database after the destruction: the index without the first document of the identifier, and
  -- the entry at the end of the chain.
  abbrev pub destroyed_state : AdminService → Document → String → String → DbState
  destroyed_state s doc why actor = record s.vault.db.state {
    documents = remove_first (λ d. d.vault_id == doc.vault_id) s.vault.db.state.documents;
    audit = s.vault.db.state.audit ++ destroyed_entry s doc why actor ∷ [];
  }

  remove_document_lem :
      (id : String) (st : DbState)
      → (remove_document id st).1
        ≡ record st { documents = remove_first (λ d. d.vault_id == id) st.documents }
  unfolding remove_document
  remove_document_lem id st = elim (Option-cases (find (λ d. d.vault_id == id) st.documents)) [
    | inl absent ↦
        rw (absent, remove_document)
          (ap (λ ds. record st { documents = ds })
            (sym (remove_first-none (λ d. d.vault_id == id) st.documents absent)))
    | inr (d, present) ↦ rw (present, remove_document) refl
  ]

  logged_removal :
      (s : AdminService) (doc : Document) (why actor : String)
      → (append_audit
          (now_text s.vault)
          actor
          "destroy_executed"
          doc.sha256
          (destroyed_entry s doc why actor).detail
          (remove_document doc.vault_id s.vault.db.state).1).1
        ≡ destroyed_state s doc why actor
  unfolding append_audit
  logged_removal s doc why actor = rw (remove_document_lem doc.vault_id s.vault.db.state) refl

module _ ⦃f : Foreign⦄ (noise : ℕ → ℕ) (s : AdminService) (doc : Document) (file : File)
    (calm : s.vault.faults ≡ []) where
  abbrev doomed : String
  doomed = abs_path s.vault.root doc.rel_path

  abbrev tomb : String
  tomb = tombstone_path s.vault.root doc

  abbrev released : File
  released = record file { mode = 384; immutable = false }

  abbrev files_wiped : List (String × File)
  files_wiped = without doomed (
      passes noise doomed released
        (insert doomed released (insert doomed (record file { immutable = false }) s.vault.files)))

  abbrev with_vault_files : List (String × File) → AdminService
  with_vault_files files = record s { vault = with_files s.vault files }

  wipe_calm :
      lookup doomed s.vault.files ≡ some file
      → wipe_document noise doc s ≡ (ok tt, with_vault_files files_wiped)
  unfolding wipe_document exists gets lookup
  wipe_calm found = runs _ _ refl (
      runs _ _ refl (
        rw found (
          runs _ _ (on_vault_ok fs _ s (unseal_file_calm s.vault calm doomed file found)) (
            on_vault_ok fs _ _ (
              secure_wipe_calm noise _ doomed released calm (lookup-insert doomed released _)
                refl)))))

  abbrev content : String → String → List ℕ
  content why actor = as_bytes (tombstone_text doc why (now_text s.vault) actor)

  abbrev files_after : String → String → List (String × File)
  files_after why actor =
      let new = written (content why actor) in
      insert tomb (sealed new)
        (insert tomb (record new { mode = 288 }) (insert tomb new files_wiped))

  abbrev saved_with : DbState → String → String → AdminService
  saved_with st why actor = record s {
    vault = record s.vault {
      files = files_after why actor;
      db = record s.vault.db { state = st; saved = some st };
    };
  }

  abbrev pub after : String → String → AdminService
  after why actor = saved_with (destroyed_state s doc why actor) why actor

  wiped_other : (p : String) → p ≢ doomed → lookup p files_wiped ≡ lookup p s.vault.files
  wiped_other p a =
      lookup-without_other p doomed _ a
      ∙ lookup-insert_other p doomed _ _ a
      ∙ lookup-insert_other p doomed _ _ a
      ∙ lookup-insert_other p doomed _ _ a
      ∙ lookup-insert_other p doomed _ _ a
      ∙ lookup-insert_other p doomed _ _ a

  module _ (writable : s.vault.db.read_only ≡ false)
      (found : lookup doomed s.vault.files ≡ some file)
      (absent : lookup tomb s.vault.files ≡ none) where
    tomb≢doomed : tomb ≢ doomed
    tomb≢doomed h = cc (found, absent, h)

    pub execute_calm :
        (why actor : String) → execute_destruction noise doc why actor s ≡ (ok tt, after why actor)
    unfolding execute_destruction on_state modify gets log now_text
    execute_calm why actor =
        let s1 = with_vault_files files_wiped in
        let new = written (content why actor) in
        let s2 = with_vault_files (insert tomb new files_wiped) in
        let s3 = with_vault_files (files_after why actor) in
        runs _ _ (wipe_calm found) (
          runs _ _ refl (
            runs _ _ refl (
              runs _ _ (on_vault_ok (λ e. e) _ s1 (call_calm io s1.vault calm)) (
                runs _ _
                  (on_vault_ok (λ e. e) _ s1
                    (write_file_calm io s1.vault tomb _ calm
                      (wiped_other tomb tomb≢doomed ∙ absent)))
                  (runs _ _
                    (on_vault_ok fs _ s2 (
                      seal_file_calm s2.vault calm tomb new (lookup-insert tomb new files_wiped)
                        refl))
                    (runs _ _ (on_vault_ok store _ s3 refl) (
                      note_calm actor "destroy_executed" doc.sha256 _ _ calm writable
                      ∙ ap (λ st. (ok tt, saved_with st why actor))
                          (logged_removal s doc why actor))))))))

    pub lookup-doomed : (why actor : String) → lookup doomed (files_after why actor) ≡ none
    lookup-doomed why actor =
        lookup-insert_other doomed tomb _ _ (λ h. tomb≢doomed (sym h))
        ∙ lookup-insert_other doomed tomb _ _ (λ h. tomb≢doomed (sym h))
        ∙ lookup-insert_other doomed tomb _ _ (λ h. tomb≢doomed (sym h))
        ∙ lookup-without doomed _

  pub after_other :
      (why actor p : String)
      → p ≢ doomed
      → p ≢ tomb
      → lookup p (files_after why actor) ≡ lookup p s.vault.files
  after_other why actor p a b =
      lookup-insert_other p tomb _ _ b
      ∙ lookup-insert_other p tomb _ _ b
      ∙ lookup-insert_other p tomb _ _ b
      ∙ wiped_other p a

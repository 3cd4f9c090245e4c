-- ===== src/Admin/Entered.antt =====
-- The full effect of an admission on a system without faults: crates/vault-admin/src/lib.rs.
use ubod.Base.{
  ◌+◌, String, true, false, ◌==◌, string_eq, none, some, [], ◌≡◌, ◌≢◌, refl, ◌∙◌, update_first,
  arith,
}
use ubod.Base.Exec.{ok, pure, gets, or_raise, modify, map_err, ◌>>=◌}
use ubod.Base.Foreign.{Foreign}
use ubod.Core.Records.{Document, Submission, SealAck, AdmissionState, admission_eq}
use ubod.Fs.World.{World, File, lookup, attempt, call, flush, save_state}
use ubod.Fs.Files.{is_taken}
use ubod.Fs.Files.Sealing.{bind_ok, map_err_ok, sealed, lookup-without_other}
use ubod.Fs.Paths.{abs_path}
use ubod.Index.Rules.{Ruleset, classify}
use ubod.Store.Documents.{find_by_sha256}
use ubod.Store.State.{DbState}
use ubod.Store.Submissions.{find_submission, update_submission_state}
use ubod.Admin.{AdminService, io, store, on_vault, try_state}
use ubod.Admin.Admission.{staging_path}
use ubod.Admin.Sealing.{Outside, SealOutcome, staged_file, SealRequest}
use ubod.Admin.Admit.{
  ack, reclassify, mark, settle, admit_file, admit_content, admit_pending, admit_in, admit,
}
use ubod.Admin.Installed.{
  read_file_calm, new_document, sealed_document, entered_state, sealed_world, seal_document_ok,
  sealed_there, lookup-staged, lookup-installed_other,
}

abbrev pub saved : DbState → World → World
saved st w = record w { db = record w.db { state = st; saved = some st } }

flush_calm :
    (w : World) → w.faults ≡ [] → w.db.read_only ≡ false → flush w ≡ (ok tt, saved w.db.state w)
unfolding flush save_state call attempt ◌>>=◌ gets modify
flush_calm w calm writable = rw (writable, calm) refl

abbrev pub decided : String → AdmissionState → DbState → DbState
decided id new st = record st {
  submissions =
      update_first (λ s. s.submission_id == id) (λ s. record s { state = new }) st.submissions;
}

update_ok :
    (id : String) (new : AdmissionState) (sub : Submission) (st : DbState)
    → find_submission id st ≡ some sub
    → update_submission_state id new st ≡ (ok tt, decided id new st)
unfolding update_submission_state find_submission
update_ok id new sub st h = ground (arith, h)

mark_ok :
    ⦃f : Foreign⦄ (id : String) (new : AdmissionState) (sub : Submission) (w : World)
    → find_submission id w.db.state ≡ some sub
    → mark id new w ≡ (ok tt, record w { db = record w.db { state = decided id new w.db.state } })
unfolding mark try_state map_err
mark_ok id new sub w h = rw (update_ok id new sub w.db.state h) refl

-- What an admission makes.
module _ ⦃f : Foreign⦄ (out : Outside) (s : AdminService) (actor : String) (sub : Submission)
    (file : File) where
  abbrev pub staged : String
  staged = staging_path s.vault.root sub.staging_path

  abbrev pub request : SealRequest
  request = record {
    source = staged_file staged;
    meta = sub.meta;
    origin_device = some sub.device_id;
    actor = actor;
    audit_action = "admit";
  }

  abbrev pub admitted_document : Document
  admitted_document = sealed_document out s.vault (some out.stamp_document) request file

  -- Where it is to stand.
  abbrev pub place : String
  place = abs_path s.vault.root (new_document out s.vault request file).rel_path

  abbrev pub the_ack : SealAck
  the_ack =
      ack (some admitted_document.vault_id) admitted_document.sha256 admitted_document.blake3
        admitted_document.rfc3161_time "sellado e inmutable"

  abbrev pub state_after : String → DbState
  state_after id =
      decided id AdmissionState.admitted
        (entered_state out s.vault (some out.stamp_document) request file)

module _ ⦃f : Foreign⦄ (out : Outside) (rules : Ruleset) (s : AdminService) (id actor : String)
    (sub : Submission) (file : File) (same_device : out.other_device ≡ false)
    (calm : s.vault.faults ≡ []) (writable : s.vault.db.read_only ≡ false)
    (found : find_submission id s.vault.db.state ≡ some sub)
    (waits : (sub.state == AdmissionState.pending) ≡ true) where
  abbrev path : String
  path = staged out s actor sub file

  abbrev req : SealRequest
  req = request out s actor sub file

  module _ (there : lookup path s.vault.files ≡ some file) (free : file.immutable ≡ false)
      (sha256 : (f.sha256 file.bytes == sub.sha256) ≡ true)
      (blake3 : (f.blake3 file.bytes == sub.blake3) ≡ true)
      (unclassified : classify rules sub.meta.file_name ≡ none)
      (unseen : find_by_sha256 (f.sha256 file.bytes) s.vault.db.state ≡ none) where
    abbrev doc : Document
    doc = admitted_document out s actor sub file

    abbrev acked : SealAck
    acked = the_ack out s actor sub file

    abbrev new_state : DbState
    new_state = state_after out s actor sub file id

    module _ (room : is_taken (place out s actor sub file) s.vault.files ≡ false) where
      abbrev world_after_seal : World
      world_after_seal =
          sealed_world out same_device s.vault calm (some out.stamp_document) req path file there
            free room

      abbrev world_after : World
      world_after = saved new_state world_after_seal

      still_found : find_submission id world_after_seal.db.state ≡ some sub
      unfolding find_submission
      still_found = found

      settle_ok :
          settle id actor path (SealOutcome.sealed doc) world_after_seal ≡ (ok acked, world_after)
      unfolding settle pure
      settle_ok =
          bind_ok _ _ (mark_ok id AdmissionState.admitted sub world_after_seal still_found) (
            bind_ok _ _
              (map_err_ok store flush (
                flush_calm
                  (record world_after_seal {
                    db = record world_after_seal.db { state = new_state };
                  })
                  calm writable))
              refl)

      reclassify_ok :
          reclassify actor sub (classify rules sub.meta.file_name) s.vault ≡ (ok sub.meta, s.vault)
      unfolding reclassify pure
      reclassify_ok = rw unclassified refl

      admit_file_ok : admit_file out rules id actor sub path s.vault ≡ (ok acked, world_after)
      unfolding admit_file
      admit_file_ok = bind_ok _ _ reclassify_ok (
          bind_ok _ _
            (seal_document_ok out same_device s.vault calm (some out.stamp_document) req path file
              there free room unseen)
            settle_ok)

      admit_content_ok :
          admit_content out rules id actor sub path file.bytes s.vault ≡ (ok acked, world_after)
      unfolding admit_content
      admit_content_ok = rw (sha256, blake3) admit_file_ok

      admit_pending_ok : admit_pending out rules id actor sub s.vault ≡ (ok acked, world_after)
      unfolding admit_pending gets
      admit_pending_ok = rw waits (
          bind_ok _ _ refl
            (bind_ok _ _ (read_file_calm io s.vault calm path file there) admit_content_ok))

      admit_in_ok : admit_in out rules id actor s.vault ≡ (ok acked, world_after)
      unfolding admit_in gets or_raise pure
      admit_in_ok = bind_ok _ _ refl (rw found (bind_ok _ _ refl admit_pending_ok))

      -- The administrator admits a submission that waits, on a system without faults and a database that
      -- can be written. Its file in staging, on the file system of the vault, is not immutable and is
      -- the one that was received; no document of the active index has its content, no rule classifies
      -- its name, and its place is free. The admission succeeds. The document is where its path says,
      -- sealed; staging no longer has the file; no other file has changed. The document is at the end
      -- of the index and its text in the index of texts, the entry is at the end of the audit chain,
      -- the submission is admitted, nothing else of the database changed, and it is saved.
      pub admit_effect :
          (s' : AdminService) × (admit out rules id actor s ≡ (ok acked, s'))
          × (lookup (abs_path s.vault.root doc.rel_path) s'.vault.files
              ≡ some (sealed (record file { mode = 384 })))
          × (lookup path s'.vault.files ≡ none)
          × ((p : String)
              → p ≢ place out s actor sub file
              → p ≢ path
              → lookup p s'.vault.files ≡ lookup p s.vault.files)
          × (s'.vault.db ≡ record s.vault.db { state = new_state; saved = some new_state })
      unfolding admit on_vault
      admit_effect = (
        record s { vault = world_after },
        rw admit_in_ok refl,
        sealed_there out same_device s.vault calm (some out.stamp_document) req path file there free
            room,
        lookup-staged (record s.vault { drawn = s.vault.drawn + 1 }) calm path
            (new_document out s.vault req file).rel_path file there free room,
        (λ p a b.
            lookup-installed_other (record s.vault { drawn = s.vault.drawn + 1 }) calm path
              (new_document out s.vault req file).rel_path file there free room p a
            ∙ lookup-without_other p path _ b),
        refl,
      )

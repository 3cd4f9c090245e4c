-- ===== src/Admin/Admit.antt =====
-- crates/vault-admin/src/lib.rs: `admit`, which seals what waits in the queue.
use ubod.Base.{
  ℕ, String, append, ◌&&◌, not, ◌==◌, string_eq, if◌then◌else◌, Option, none, some, List,
}
use ubod.Base.Exec.{Exec, pure, raise, gets, or_raise, map_err, ◌>>=◌, ◌>>◌}
use ubod.Base.Foreign.{Foreign}
use ubod.Core.Category.{
  Category, tesis, expediente_profesor, resolucion, evaluacion, fotografia_documental,
  material_grafico, category_eq,
}
use ubod.Core.Records.{DocumentMeta, Submission, SealAck, SealStatus, AdmissionState, admission_eq}
use ubod.Fs.World.{World, log, flush}
use ubod.Fs.Files.{read_file}
use ubod.Index.Rules.{Ruleset, classify}
use ubod.Store.Submissions.{find_submission, update_submission_state}
use ubod.Admin.{AdminError, AdminService, io, submission_not_found, fs, store, on_vault, try_state}
use ubod.Admin.Admission.{discard, staging_path}
use ubod.Admin.Sealing.{Outside, SealOutcome, sealed, duplicate, staged_file, seal_document}

-- `{:?}` of a category
unfoldable pub debug_name : Category → String
debug_name tesis = "Tesis"
debug_name expediente_profesor = "ExpedienteProfesor"
debug_name resolucion = "Resolucion"
debug_name evaluacion = "Evaluacion"
debug_name fotografia_documental = "FotografiaDocumental"
debug_name material_grafico = "MaterialGrafico"

abbrev pub ack : Option String → String → String → Option String → String → SealAck
ack vault_id sha256 blake3 time message = record {
  status = SealStatus.sealed;
  vault_id = vault_id;
  sha256 = sha256;
  blake3 = blake3;
  rfc3161_time = time;
  message = some message;
}

module _ ⦃f : Foreign⦄ where
  -- The rules of the institution go before what the device declares.
  unfoldable pub reclassify :
      String → Submission → Option Category → Exec World AdminError DocumentMeta
  reclassify actor sub none = pure sub.meta
  reclassify actor sub (some decided) = if decided == sub.meta.category then pure sub.meta else do
    log actor "admit_reclassify" sub.sha256 (
        append (debug_name sub.meta.category)
          (append " -> " (append (debug_name decided) " (ruleset institucional)")))
    pure (record sub.meta { category = decided })

  unfoldable pub mark : String → AdmissionState → Exec World AdminError (Unit {0})
  mark id new = map_err store (try_state (update_submission_state id new))

  -- What `admit` does with the outcome of the sealing.
  unfoldable pub settle : String → String → String → SealOutcome → Exec World AdminError SealAck
  settle id actor path (duplicate existing sha256 blake3) = do
    mark id AdmissionState.rejected
    map_err fs (discard path)
    log actor "admit_dup" sha256 "duplicado descartado"
    map_err store flush
    pure (ack none sha256 blake3 none "duplicado: ya existía en la bóveda")
  settle id actor path (sealed doc) = do
    mark id AdmissionState.admitted
    map_err store flush
    pure (ack (some doc.vault_id) doc.sha256 doc.blake3 doc.rfc3161_time "sellado e inmutable")

  unfoldable pub refuse_changed : String → Submission → Exec World AdminError SealAck
  refuse_changed actor sub = do
    log actor "admit_failed" sub.sha256 "hash divergente en staging"
    map_err store flush
    raise io

  module _ (out : Outside) (rules : Ruleset) where
    unfoldable pub admit_file :
        String → String → Submission → String → Exec World AdminError SealAck
    admit_file id actor sub path = do
      meta ← reclassify actor sub (classify rules sub.meta.file_name)
      outcome ← seal_document out (some out.stamp_document) (record {
        source = staged_file path;
        meta = meta;
        origin_device = some sub.device_id;
        actor = actor;
        audit_action = "admit";
      })
      settle id actor path outcome

    unfoldable pub admit_content :
        String → String → Submission → String → List ℕ → Exec World AdminError SealAck
    admit_content id actor sub path content =
        if (f.sha256 content == sub.sha256) && (f.blake3 content == sub.blake3)
        then admit_file id actor sub path
        else refuse_changed actor sub

    unfoldable pub admit_pending : String → String → Submission → Exec World AdminError SealAck
    admit_pending id actor sub =
        if not (sub.state == AdmissionState.pending)
        then raise (submission_not_found (append id " (ya decidida)"))
        else do
          path ← gets (λ w. staging_path w.root sub.staging_path)
          content ← read_file io path
          admit_content id actor sub path content

    unfoldable pub admit_in : String → String → Exec World AdminError SealAck
    admit_in id actor = do
      found ← gets (λ w. find_submission id w.db.state)
      sub ← or_raise found (submission_not_found id)
      admit_pending id actor sub

    unfoldable pub admit : String → String → Exec AdminService AdminError SealAck
    admit id actor = on_vault (λ e. e) (admit_in id actor)

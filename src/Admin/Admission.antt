-- ===== src/Admin/Admission.antt =====
-- crates/vault-admin/src/lib.rs: the submissions that the administrator turns down.
use ubod.Base.{String, append, ◌==◌}
use ubod.Base.Exec.{Exec, ok, gets, or_raise, ◌>>=◌, ◌>>◌}
use ubod.Base.Foreign.{Foreign}
use ubod.Core.Records.{AdmissionState, admission_eq}
use ubod.Fs.World.{World}
use ubod.Fs.Files.{FsError, remove_file}
use ubod.Fs.Paths.{abs_path}
use ubod.Store.Submissions.{find_submission, update_submission_state}
use ubod.Admin.{AdminError, AdminService, submission_not_found, store, on_vault, ensure, try_state}
use ubod.Admin.Pins.{note}

-- `let _ = remove_file(…)`: an error of it is not looked at.
unfoldable pub discard : String → Exec World FsError (Unit {0})
discard path w = (ok tt, (remove_file FsError.io path w).1)

-- `staging().join(…)`
abbrev pub staging_path : String → String → String
staging_path root path = abs_path (abs_path root ".staging") path

module _ ⦃f : Foreign⦄ where
  unfoldable pub reject : String → String → String → Exec AdminService AdminError (Unit {0})
  reject submission_id reason actor = do
    found ← gets (λ s. find_submission submission_id s.vault.db.state)
    sub ← or_raise found (submission_not_found submission_id)
    ensure (sub.state == AdmissionState.pending)
        (submission_not_found (append submission_id " (ya decidida)"))
    root ← gets (λ s. s.vault.root)
    on_vault AdminError.fs (discard (staging_path root sub.staging_path))
    on_vault store (try_state (update_submission_state submission_id AdmissionState.rejected))
    note actor "reject" sub.sha256 reason

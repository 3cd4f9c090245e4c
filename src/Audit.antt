-- ===== src/Audit.antt =====
-- crates/vault-audit/src/lib.rs: the sweep that hashes every document again.
pub mod Adds
pub mod Steps
pub mod Report
pub mod Chain
use ubod.Base.{
  ℕ, ◌+◌, String, append, Bool, not, ◌&&◌, if◌then◌else◌, Option, none, some, List, [], ◌∷◌, ◌++◌,
  ◌==◌, string_eq,
}
use ubod.Base.Exec.{Exec, pure, raise, gets, map_err, ◌>>=◌, ◌>>◌}
use ubod.Base.Foreign.{Foreign}
use ubod.Base.Text.{decimal}
use ubod.Core.Records.{Document, IntegrityStatus, status_eq}
use ubod.Fs.World.{World, on_state, log, flush, now_text}
use ubod.Fs.Files.{exists, read_file}
use ubod.Fs.Paths.{abs_path}
use ubod.Store.Documents.{update_integrity}
use ubod.Store.State.{StoreError}

pub data AuditError : Type 0 where
  io : AuditError
  store : StoreError → AuditError

pub record SweepReport : Type 0 where
  pub checked : ℕ
  pub missing : ℕ
  pub tampered : ℕ
  pub ok : ℕ
  pub repaired_status : ℕ
  pub problems : List String
  pub finished_at : String

-- `SweepReport::default()`
abbrev pub empty_report : SweepReport
empty_report = record {
  checked = 0;
  missing = 0;
  tampered = 0;
  ok = 0;
  repaired_status = 0;
  problems = [];
  finished_at = "";
}

-- The report after one more document, by what was found.
abbrev pub count_missing : String → SweepReport → SweepReport
count_missing id r = record r {
  checked = r.checked + 1;
  missing = r.missing + 1;
  problems = r.problems ++ id ∷ [];
}

abbrev pub count_tampered : String → SweepReport → SweepReport
count_tampered id r = record r {
  checked = r.checked + 1;
  tampered = r.tampered + 1;
  problems = r.problems ++ id ∷ [];
}

abbrev pub count_ok : Bool → SweepReport → SweepReport
count_ok repaired r = record r {
  checked = r.checked + 1;
  ok = r.ok + 1;
  repaired_status = if repaired then r.repaired_status + 1 else r.repaired_status;
}

module _ ⦃f : Foreign⦄ where
  unfoldable pub note_missing : Document → SweepReport → Exec World AuditError SweepReport
  note_missing doc r = do
    on_state (update_integrity doc.vault_id IntegrityStatus.tampered)
    log "vault-audit" "integrity_missing" doc.sha256
        (append "vault_id=" (append doc.vault_id (append " ruta=" doc.rel_path)))
    pure (count_missing doc.vault_id r)

  unfoldable pub note_tampered : Document → String → SweepReport → Exec World AuditError SweepReport
  note_tampered doc found r = do
    on_state (update_integrity doc.vault_id IntegrityStatus.tampered)
    log "vault-audit" "integrity_tampered" doc.sha256 (
        append "vault_id=" (
          append doc.vault_id (
            append " esperado=" (
              append doc.sha256
                (append " encontrado=" (append found " (bit rot o manipulación)"))))))
    pure (count_tampered doc.vault_id r)

  unfoldable pub note_ok : Document → SweepReport → Exec World AuditError SweepReport
  note_ok doc r = if doc.integrity == IntegrityStatus.ok then pure (count_ok Bool.false r) else do
    on_state (update_integrity doc.vault_id IntegrityStatus.ok)
    pure (count_ok Bool.true r)

  unfoldable pub compare_digests :
      Document → List ℕ → SweepReport → Exec World AuditError SweepReport
  compare_digests doc content r =
      if (f.sha256 content == doc.sha256) && (f.blake3 content == doc.blake3)
      then note_ok doc r
      else note_tampered doc (f.sha256 content) r

  -- One document: `HashPair::from_file` is the pair of digests of the bytes that are read.
  unfoldable pub check_document : Document → SweepReport → Exec World AuditError SweepReport
  check_document doc r = do
    root ← gets (λ w. w.root)
    there ← gets (exists (abs_path root doc.rel_path))
    if not there then note_missing doc r else do
      content ← read_file AuditError.io (abs_path root doc.rel_path)
      compare_digests doc content r

  unfoldable pub check_all : List Document → SweepReport → Exec World AuditError SweepReport
  check_all [] r = pure r
  check_all (doc ∷ docs) r = check_document doc r >>= check_all docs

  abbrev pub sweep_text : SweepReport → String
  sweep_text r = append "verificados=" (
      append (decimal r.checked) (
        append " ok=" (
          append (decimal r.ok) (
            append " perdidos="
              (append (decimal r.missing) (append " manipulados=" (decimal r.tampered)))))))

  unfoldable pub sweep : Exec World AuditError SweepReport
  sweep = do
    docs ← gets (λ w. w.db.state.documents)
    r ← check_all docs empty_report
    now ← gets now_text
    log "vault-audit" "sweep" "vault" (sweep_text r)
    map_err store flush
    pure (record r { finished_at = now })

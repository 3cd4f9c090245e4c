-- ===== src/Audit/Report.antt =====
-- What a sweep finds and reports: crates/vault-audit/src/lib.rs.
use ubod.Base.{◌+◌, false, not, some, [], map, ◌≡◌, refl, ◌∙◌, arith, length, keep, string_eq}
use ubod.Base.Exec.{ok, pure, gets, modify}
use ubod.Base.Foreign.{Foreign}
use ubod.Core.Records.{Document, status_eq}
use ubod.Fs.World.{World, log, flush, now_text}
use ubod.Fs.Files.Sealing.{bind_ok, map_err_ok}
use ubod.Audit.{AuditError, store, SweepReport, empty_report, sweep, sweep_text}
use ubod.Audit.Adds.{is_gone, is_intact, flush_calm}
use ubod.Audit.Steps.{check_all-Step}

module _ ⦃f : Foreign⦄ where
  abbrev pub Counted : World → SweepReport → Type 0
  Counted w r =
      let docs = w.db.state.documents in
      (r.checked ≡ length docs)
      × (r.checked ≡ r.ok + r.missing + r.tampered)
      × (r.ok ≡ length (keep (is_intact w.root w.files) docs))
      × (r.missing ≡ length (keep (is_gone w.root w.files) docs))
      × (r.problems
          ≡ map (λ (d : Document). d.vault_id) (keep (λ d. not (is_intact w.root w.files d)) docs))

  -- A sweep of a vault that can be written, without faults, succeeds, leaves the files alone, and its
  -- report counts every document once: as intact if its file has the two digests of the index, as
  -- missing if it has no file, as tampered otherwise. The problems are the documents that are not
  -- intact, in the order of the index.
  pub sweep_report :
      (w : World)
      → w.faults ≡ []
      → w.db.read_only ≡ false
      → (r : SweepReport) × (w' : World) × (sweep w ≡ (ok r, w'))
        × (w'.files ≡ w.files)
        × Counted w r
  unfolding sweep gets log modify pure
  sweep_report w calm writable =
      let docs = w.db.state.documents in
      let all = check_all-Step docs empty_report w calm in
      let logged : World =
        (log {E = AuditError} "vault-audit" "sweep" "vault" (sweep_text all.report) all.after).1 in
      (
        record all.report { finished_at = now_text all.after },
        record logged { db = record logged.db { saved = some logged.db.state } },
        bind_ok _ _ refl (
            bind_ok _ _ all.runs (
              bind_ok _ _ refl (
                bind_ok _ _ refl (
                  bind_ok _ _
                    (map_err_ok store flush
                      (flush_calm logged all.calm.no_faults (all.calm.same_mode ∙ writable)))
                    refl)))),
        all.calm.same_files,
        (
          omega (arith, all.adds.all_checked),
          omega (arith, all.adds.total),
          omega (arith, all.adds.all_ok),
          omega (arith, all.adds.all_missing),
          all.adds.all_problems,
        ),
      )

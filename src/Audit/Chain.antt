-- ===== src/Audit/Chain.antt =====
-- The audit chain under a sweep: crates/vault-audit/src/lib.rs.
use ubod.Base.{ℕ, String, ◌≡◌, List, [], ◌∷◌}
use ubod.Base.Exec.{ok}
use ubod.Base.Exec.Keeps.{Keeps}
use ubod.Base.Foreign.{Foreign}
use ubod.Core.Records.{Document, IntegrityStatus}
use ubod.Fs.World.{World, on_state, log}
use ubod.Fs.Kept.{OnState, Keeps-on_state, Keeps-log, world_rules}
use ubod.Store.Audit.{verify_audit_chain}
use ubod.Store.Audit.Chain.{append_audit-verify}
use ubod.Store.Documents.{update_integrity}
use ubod.Store.State.{DbState}
use ubod.Audit.{
  AuditError, SweepReport, note_missing, note_tampered, note_ok, compare_digests, check_document,
  check_all, sweep,
}

module _ ⦃f : Foreign⦄ where
  abbrev IsVerified : DbState → Type 0
  IsVerified st = verify_audit_chain st ≡ ok tt

  Keeps-integrity :
      (id : String) (s : IntegrityStatus)
      → Keeps {E = AuditError} (OnState IsVerified) (on_state (update_integrity id s))
  unfolding update_integrity verify_audit_chain
  Keeps-integrity id s = Keeps-on_state _ (λ st h. h)

  Keeps-noted : (a b c d : String) → Keeps {E = AuditError} (OnState IsVerified) (log a b c d)
  Keeps-noted a b c d = Keeps-log a b c d (λ now st h. (append_audit-verify now a b c d st h).0)

  ruleset sweep_rules = (world_rules, Keeps-integrity, Keeps-noted)

  Keeps-compare_digests :
      (d : Document) (content : List ℕ) (r : SweepReport)
      → Keeps (OnState IsVerified) (compare_digests d content r)
  unfolding compare_digests note_ok note_tampered
  Keeps-compare_digests d content r = search sweep_rules depth 12

  Keeps-check_document :
      (d : Document) (r : SweepReport) → Keeps (OnState IsVerified) (check_document d r)
  unfolding check_document note_missing
  Keeps-check_document d r = search (sweep_rules, Keeps-compare_digests) depth 12

  Keeps-check_all :
      (docs : List Document) (r : SweepReport) → Keeps (OnState IsVerified) (check_all docs r)
  unfolding check_all
  Keeps-check_all [] r = search sweep_rules
  Keeps-check_all (d ∷ docs) r = search (sweep_rules, Keeps-check_document, Keeps-check_all docs)

  -- A sweep keeps the audit chain valid, wherever a fault may stop it.
  pub sweep-Verified :
      (w : World)
      → verify_audit_chain w.db.state ≡ ok tt
      → verify_audit_chain (sweep w).1.db.state ≡ ok tt
  unfolding sweep
  sweep-Verified w h = (kept.at w (record { kept = h })).kept
    where
      kept : Keeps (OnState IsVerified) sweep
      kept = search (sweep_rules, Keeps-check_all) depth 12

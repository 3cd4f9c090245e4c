-- ===== src/Admin/Chain.antt =====
-- The audit chain under any sequence of requests to `AdminService`, admissions included:
-- crates/vault-admin/src/lib.rs.
use ubod.Base.{ℕ, String, List, ◌≡◌, refl, sym, subst, arith}
use ubod.Base.Exec.{ok}
use ubod.Base.Foreign.{Foreign}
use ubod.Core.Records.{AdmissionState}
use ubod.Index.Rules.{Ruleset}
use ubod.Store.State.{DbState}
use ubod.Store.Audit.{verify_audit_chain, verify_from, audit_genesis}
use ubod.Store.Audit.Chain.{append_audit-verify}
use ubod.Store.Documents.{remove_document, add_document, set_text}
use ubod.Store.Submissions.{update_submission_state}
use ubod.Store.Users.{set_admin_pin_hash, upsert_device}
use ubod.Admin.{AdminService}
use ubod.Admin.Kept.{IsApart, IsKept}
use ubod.Admin.Requests.{Keeps-administer_all}
use ubod.Admin.Sealed.{IsCustody}
use ubod.Admin.Sealing.{Outside}
use ubod.Admin.Service.{AdminRequest, administer_all}

module _ ⦃f : Foreign⦄ where
  abbrev pub IsVerified : DbState → Type 0
  IsVerified st = verify_audit_chain st ≡ ok tt

  -- A change that leaves the entries of the log alone.
  unaudited : (st st' : DbState) → st'.audit ≡ st.audit → IsVerified st → IsVerified st'
  unfolding verify_audit_chain
  unaudited st st' same h = subst (λ es. verify_from audit_genesis es ≡ ok tt) (sym same) h

  remove_document-audit : (id : String) (st : DbState) → (remove_document id st).1.audit ≡ st.audit
  unfolding remove_document
  remove_document-audit id st = ground arith

  update_submission_state-audit :
      (id : String) (new : AdmissionState) (st : DbState)
      → (update_submission_state id new st).1.audit ≡ st.audit
  unfolding update_submission_state
  update_submission_state-audit id new st = ground arith

  pub IsVerified-IsApart : IsApart IsVerified
  unfolding upsert_device
  IsVerified-IsApart = record {
    logged = λ now a b c d st h. (append_audit-verify now a b c d st h).0;
    registered = λ d st h. unaudited st _ refl h;
  }

  pub IsVerified-IsKept : IsKept IsVerified
  unfolding set_admin_pin_hash
  IsVerified-IsKept = record {
    apart = IsVerified-IsApart;
    hashed = λ hash st h. unaudited st _ refl h;
    configured = λ key v st h. unaudited st _ refl h;
    removed = λ id st h. unaudited st _ (remove_document-audit id st) h;
    decided = λ id new st h. unaudited st _ (update_submission_state-audit id new st) h;
  }

  pub IsVerified-IsCustody : IsCustody IsVerified
  unfolding set_text add_document
  IsVerified-IsCustody = record {
    kept = IsVerified-IsKept;
    indexed = λ id text st h. unaudited st _ refl h;
    added = λ doc st _ h. unaudited st _ refl h;
  }

  -- Whatever sequence of requests the administrator's service serves, admissions and destructions
  -- included, whether each returns or fails and whatever faults the system has, the audit chain of the
  -- database in memory verifies after it if it verified before.
  pub administer_all-IsVerified :
      (noise : ℕ → ℕ) (out : Outside) (rules : Ruleset) (rs : List AdminRequest) (s : AdminService)
      → verify_audit_chain s.vault.db.state ≡ ok tt
      → verify_audit_chain (administer_all noise out rules rs s).vault.db.state ≡ ok tt
  administer_all-IsVerified noise out rules rs s h =
      (Keeps-administer_all IsVerified-IsCustody noise out rules rs s
        (record { world = record { kept = h } })).world.kept

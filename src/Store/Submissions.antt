-- ===== src/Store/Submissions.antt =====
-- crates/vault-store/src/lib.rs: the queue of submissions.
use ubod.Base.{String, Option, none, some, List, [], ◌∷◌, ◌++◌}
use ubod.Base.{◌==◌, string_eq, find, keep, update_first}
use ubod.Base.Exec.{Result, ok, err}
use ubod.Core.Records.{Submission, AdmissionState, admission_eq}
use ubod.Store.State.{DbState, StoreError, not_found}

unfoldable pub pending_submissions : DbState → List Submission
pending_submissions st = keep (λ s. s.state == AdmissionState.pending) st.submissions

unfoldable pub add_submission : Submission → DbState → DbState
add_submission sub st = record st { submissions = st.submissions ++ sub ∷ [] }

unfoldable pub find_submission : String → DbState → Option Submission
find_submission id st = find (λ s. s.submission_id == id) st.submissions

unfoldable pub update_submission_state :
    String → AdmissionState → DbState → Result StoreError (Unit {0}) × DbState
unfolding find_submission
update_submission_state id new st = elim (find_submission id st) [
  | none ↦ (err (not_found id), st)
  | some _ ↦ (
    ok tt,
    record st {
      submissions =
          update_first (λ s. s.submission_id == id) (λ s. record s { state = new }) st.submissions;
    },
  )
]

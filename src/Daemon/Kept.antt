-- ===== src/Daemon/Kept.antt =====
-- Properties of the database that a delivery keeps: bins/vaultd/src/main.rs.
use ubod.Base.{ℕ, String, Option, List, refl}
use ubod.Base.Exec.Keeps.{Keeps, keeps_rules}
use ubod.Base.Foreign.{Foreign}
use ubod.Core.Envelope.{TransferEnvelope, TransferPayload}
use ubod.Core.Records.{Submission}
use ubod.Fs.World.{on_state, log, fresh_id}
use ubod.Fs.Kept.{OnState, Keeps-same, Keeps-on_state, Keeps-remove_file, world_rules}
use ubod.Store.State.{DbState}
use ubod.Store.Submissions.{add_submission}
use ubod.Admin.Kept.{IsApart, Keeps-logged}
use ubod.Daemon.Ingest.{refuse, queue, accept, check_content, read_declared, ingest_to_staging}

-- A property of the database that entries of the audit log, devices and submissions do not touch.
pub record IsOpen ⦃f : Foreign⦄ (P : DbState → Type 0) : Type 0 where
  pub apart : IsApart P
  pub queued : (sub : Submission) (st : DbState) → P st → P (add_submission sub st)

module _ ⦃f : Foreign⦄ {P : DbState → Type 0} (k : IsOpen P) where
  Keeps-fresh_id : {E : Type 0} → Keeps {E = E} (OnState P) fresh_id
  unfolding fresh_id
  Keeps-fresh_id = Keeps-same _ (λ w. refl)

  Keeps-refuse :
      {A : Type 0} (path message : String) → Keeps {A = A} (OnState P) (refuse path message)
  unfolding refuse
  Keeps-refuse path message = record { at = λ w h. (Keeps-remove_file {P = P} message path).at w h }

  Keeps-noted : {E : Type 0} (a b c d : String) → Keeps {E = E} (OnState P) (log a b c d)
  Keeps-noted = Keeps-logged k.apart

  Keeps-add :
      {E : Type 0} (sub : Submission) → Keeps {E = E} (OnState P) (on_state (add_submission sub))
  Keeps-add sub = Keeps-on_state _ (k.queued sub)

  Keeps-queue :
      (device_id : String) (p : TransferPayload) (sub : Submission)
      → Keeps (OnState P) (queue device_id p sub)
  unfolding queue
  Keeps-queue device_id p sub = search (world_rules, Keeps-noted, Keeps-add) depth 14

  Keeps-accept :
      (device_id path : String) (p : TransferPayload) (content : List ℕ)
      → Keeps (OnState P) (accept device_id path p content)
  unfolding accept
  Keeps-accept device_id path p content = search (world_rules, Keeps-fresh_id, Keeps-queue) depth 14

  Keeps-check_content :
      (device_id path : String) (p : TransferPayload) (content : List ℕ)
      → Keeps (OnState P) (check_content device_id path p content)
  unfolding check_content
  Keeps-check_content device_id path p content = search (world_rules, Keeps-accept, Keeps-refuse)

  Keeps-read_declared :
      (device_id path : String) (envelope : TransferEnvelope)
      → Keeps (OnState P) (read_declared device_id path envelope)
  unfolding read_declared
  Keeps-read_declared device_id path envelope = search (world_rules, Keeps-check_content)

  pub Keeps-ingest_to_staging :
      (read : List ℕ → Option TransferEnvelope) (device_id : String) (line : List ℕ) (path : String)
      → Keeps (OnState P) (ingest_to_staging read device_id line path)
  unfolding ingest_to_staging
  Keeps-ingest_to_staging read device_id line path = search (keeps_rules, Keeps-read_declared)

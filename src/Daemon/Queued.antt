-- ===== src/Daemon/Queued.antt =====
-- What a delivery that is accepted has done: bins/vaultd/src/main.rs.
use ubod.Base.{
  ℕ, String, append, ◌==◌, string_eq, nat_eq, Option, none, some, List, [], ◌∷◌, ◌++◌, ◌≡◌, refl,
  ap, length,
}
use ubod.Base.Exec.{ok, modify, or_raise, pure, raise, ◌>>=◌}
use ubod.Base.Exec.Keeps.{Keeps, Keeps-gets, Keeps-or_raise}
use ubod.Base.Exec.Yields.{
  Yields, Yields-raise, Yields-pure, Yields-if, Yields-after, Yields-bind, Yields-map_err,
  Yields-weaken, returned,
}
use ubod.Base.Foreign.{Foreign}
use ubod.Core.Envelope.{TransferEnvelope, TransferPayload, protocol_version}
use ubod.Core.Records.{Submission, AdmissionState}
use ubod.Fs.World.{World, on_state, fresh_id, log, flush}
use ubod.Fs.Files.{read_file}
use ubod.Fs.Kept.{OnState, Keeps-same, Keeps-log, Keeps-read_file, Keeps-rename_file}
use ubod.Fs.Saved.{Saved, Yields-flush}
use ubod.Store.Audit.{append_audit}
use ubod.Store.Submissions.{add_submission}
use ubod.Sync.{Reply, queued}
use ubod.Daemon.Ingest.{
  submission_of, refuse, queue, accept, check_content, read_declared, ingest_to_staging,
}

-- The submission that an envelope announces.
pub record Announced (device_id : String) (p : TransferPayload) (sub : Submission) : Type 0 where
  pub from : sub.device_id ≡ device_id
  pub digest : sub.sha256 ≡ p.sha256
  pub size : sub.size_bytes ≡ p.file_size_bytes
  pub waits : sub.state ≡ AdmissionState.pending

-- One more in the queue, which is on the disk too.
abbrev pub Queued : List Submission → String → TransferPayload → Reply → World → Type 0
Queued before device_id p reply w =
    (sub : Submission) × (reply ≡ queued sub)
    × Announced device_id p sub
    × Saved (λ st. st.submissions ≡ before ++ sub ∷ []) w

abbrev With : List Submission → World → Type 0
With subs = OnState (λ st. st.submissions ≡ subs)

module _ ⦃f : Foreign⦄ (before : List Submission) (device_id : String) (p : TransferPayload) where
  Yields-add :
      (sub : Submission)
      → Yields {E = String}
          (With before)
          (on_state (add_submission sub))
          (λ _. With (before ++ sub ∷ []))
  unfolding on_state add_submission modify
  Yields-add sub = record { at = λ w h. record { kept = ap (λ xs. xs ++ sub ∷ []) h.kept } }

  Keeps-logged :
      {E : Type 0} (subs : List Submission) (a b c d : String)
      → Keeps {E = E} (With subs) (log a b c d)
  unfolding append_audit
  Keeps-logged subs a b c d = Keeps-log a b c d (λ now st h. h)

  Yields-queue :
      (sub : Submission)
      → Announced device_id p sub
      → Yields (With before) (queue device_id p sub) (Queued before device_id p)
  unfolding queue
  Yields-queue sub announced = Yields-bind _ _ (Yields-add sub) (λ _.
      Yields-after _ _ (Keeps-logged _ _ _ _ _) (λ _.
        Yields-bind _ _ (Yields-map_err _ flush Yields-flush)
          (λ _. Yields-pure (queued sub) (λ w s. (sub, refl, announced, s)))))

  Keeps-fresh_id : (subs : List Submission) → Keeps {E = String} (With subs) fresh_id
  unfolding fresh_id
  Keeps-fresh_id subs = Keeps-same _ (λ w. refl)

  Yields-accept :
      (path : String) (content : List ℕ)
      → f.sha256 content ≡ p.sha256
      → length content ≡ p.file_size_bytes
      → Yields (With before) (accept device_id path p content) (Queued before device_id p)
  unfolding accept
  Yields-accept path content digest size = Yields-after _ _ (Keeps-rename_file _ _ _) (λ _.
      Yields-after _ _ (Keeps-or_raise _ _) (λ category.
        Yields-after _ _ (Keeps-fresh_id before) (λ id. Yields-after _ _ (Keeps-gets _) (λ now.
          Yields-queue (submission_of p category id now now device_id content)
            (record { from = refl; digest = digest; size = size; waits = refl })))))

  Yields-refuse :
      (path message : String)
      → Yields (With before) (refuse path message) (Queued before device_id p)
  unfolding refuse
  Yields-refuse path message = record { at = λ w h. tt }

  Yields-check_content :
      (path : String) (content : List ℕ)
      → Yields (With before) (check_content device_id path p content) (Queued before device_id p)
  unfolding check_content
  Yields-check_content path content =
      Yields-if _ _ _
        (λ e.
          Yields-if _ _ _
            (λ e'.
              Yields-accept path content ((string_eq.equal_iff _ _).0 e)
                ((nat_eq.equal_iff _ _).0 e'))
            (λ _. Yields-refuse path _))
        (λ _. Yields-refuse path _)

module _ ⦃f : Foreign⦄ (device_id : String) (before : List Submission) (path : String) where
  Yields-read_declared :
      (envelope : TransferEnvelope)
      → Yields
          (With before)
          (read_declared device_id path envelope)
          (Queued before device_id envelope.payload)
  unfolding read_declared
  Yields-read_declared envelope =
      Yields-if (envelope.header.protocol_version == protocol_version)
        (read_file "staging" path >>= λ content.
          check_content device_id path envelope.payload content)
        (raise _)
        (λ _.
          Yields-after _ _ (Keeps-read_file "staging" path)
            (λ content. Yields-check_content before device_id envelope.payload path content))
        (λ _.
          Yields-raise
            (append "versión de protocolo no soportada: " envelope.header.protocol_version))

  Yields-found :
      (found : Option TransferEnvelope)
      → Yields
          (With before)
          (or_raise found "envelope inválido" >>= λ envelope. read_declared device_id path envelope)
          (λ reply w.
            (envelope : TransferEnvelope) × (found ≡ some envelope)
            × Queued before device_id envelope.payload reply w)
  unfolding or_raise ◌>>=◌ pure raise
  Yields-found none = record { at = λ w h. tt }
  Yields-found (some envelope) =
      Yields-weaken (read_declared device_id path envelope) (Yields-read_declared envelope)
        (λ reply w q. (envelope, refl, q))

  Yields-ingest_to_staging :
      (read : List ℕ → Option TransferEnvelope) (line : List ℕ)
      → Yields (With before) (ingest_to_staging read device_id line path) (λ reply w.
        (envelope : TransferEnvelope) × (read line ≡ some envelope)
        × Queued before device_id envelope.payload reply w)
  unfolding ingest_to_staging
  Yields-ingest_to_staging read line = Yields-found (read line)

-- A delivery that is accepted had an envelope that could be read, and put exactly one submission into
-- the queue: from the device, to be decided, with the digest and the size that the envelope declares.
-- What is in memory after it is what the encrypted file holds.
pub ingest_to_staging-Queued :
    ⦃f : Foreign⦄ (read : List ℕ → Option TransferEnvelope) (device_id : String) (line : List ℕ)
    (path : String) (w w' : World) (reply : Reply)
    → ingest_to_staging read device_id line path w ≡ (ok reply, w')
    → (envelope : TransferEnvelope) × (read line ≡ some envelope)
      × Queued w.db.state.submissions device_id envelope.payload reply w'
ingest_to_staging-Queued read device_id line path w w' reply h =
    returned (ingest_to_staging read device_id line path) w w' reply
      (Yields-ingest_to_staging device_id w.db.state.submissions path read line)
      (record { kept = refl }) h

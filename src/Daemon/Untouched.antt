-- ===== src/Daemon/Untouched.antt =====
-- What the requests of devices leave alone, from the channel through the daemon to the database:
-- crates/vault-sync/src/server.rs and bins/vaultd/src/main.rs.
use ubod.Base.{
  ℕ, String, Bool, true, false, ◌==◌, string_eq, Option, none, some, List, [], ◌∷◌, ◌≡◌, refl,
  Bool-cases, inl, inr,
}
use ubod.Base.Exec.{Result, ok, err}
use ubod.Base.Foreign.{Foreign}
use ubod.Core.Records.{Document, TrashedDocument, DocumentVersion}
use ubod.Fs.World.{World}
use ubod.Fs.Kept.{OnState, Keeps-write_file}
use ubod.Store.State.{DbState}
use ubod.Store.Audit.{append_audit, verify_audit_chain}
use ubod.Store.Submissions.{add_submission}
use ubod.Store.Users.{upsert_device}
use ubod.Admin.{AdminService}
use ubod.Admin.Chain.{IsVerified-IsApart, IsVerified}
use ubod.Admin.Kept.{OnVault, Keeps-pair_device}
use ubod.Sync.{SyncError, Identity, Request, Reply, Channel}
use ubod.Sync.Pairing.{require_auth}
use ubod.Sync.Server.{
  Route, ping, get_manifest, upload, pair, not_found, route_of, Handler, after_auth, authorized,
  ingested, stage, receive, handle_upload, split_line, enrol, after_code, pair_with, handle_pair,
  body_of, device_of, handle_route, handle, serve,
}
use ubod.Daemon.{Packages, on_document, sync_callbacks}
use ubod.Daemon.Kept.{IsOpen, Keeps-ingest_to_staging}

module _ ⦃f : Foreign⦄ {P : DbState → Type 0} (k : IsOpen P) (p : Packages) where
  abbrev Holds : Channel → Type 0
  Holds c = OnVault P c.admin

  abbrev Passes : Handler → Type 0
  Passes m = (c : Channel) → Holds c → Holds (m c).1

  after_auth-Passes :
      (a : Result SyncError (Unit {0})) (m : Handler) → Passes m → Passes (after_auth a m)
  after_auth-Passes (ok _) m h c i = h c i
  after_auth-Passes (err e) m h c i = i

  authorized-Passes :
      (identity : Identity) (m : Handler) → Passes m → Passes (authorized identity m)
  unfolding authorized
  authorized-Passes identity m h c i = after_auth-Passes (require_auth identity c.sync) m h c i

  ingested-Passes :
      (r : Result String Reply × AdminService) (c : Channel)
      → OnVault P r.1
      → Holds (ingested (sync_callbacks p) r c).1
  ingested-Passes (ok ack, admin) c i = i
  ingested-Passes (err e, admin) c i = i

  on_document-OnVault :
      (device_id : String) (line : List ℕ) (path : String) (s : AdminService)
      → OnVault P s
      → OnVault P (on_document p device_id line path s).1
  on_document-OnVault device_id line path s i = record {
    world = (Keeps-ingest_to_staging k p.read_envelope device_id line path).at s.vault i.world;
  }

  stage-Passes :
      (device_id : String) (line : List ℕ) (path : String)
      (r : Result (Unit {0}) (Unit {0}) × World) (c : Channel)
      → OnState P r.1
      → Holds (stage (sync_callbacks p) device_id line path r c).1
  stage-Passes device_id line path (err _, w) c i = record { world = i }
  stage-Passes device_id line path (ok _, w) c i =
      ingested-Passes (on_document p device_id line path (record c.admin { vault = w })) c (
        on_document-OnVault device_id line path (record c.admin { vault = w })
          (record { world = i }))

  receive-Passes :
      (device_id : String) (parts : Option (List ℕ × List ℕ))
      → Passes (receive (sync_callbacks p) device_id parts)
  unfolding receive
  receive-Passes device_id none c i = i
  receive-Passes device_id (some (line, file_bytes)) c i =
      stage-Passes device_id line _ _ c
        ((Keeps-write_file tt _ file_bytes).at c.admin.vault i.world)

  upload-Passes :
      (device_id : String) (body : Option (List ℕ))
      → Passes (handle_upload (sync_callbacks p) device_id body)
  unfolding handle_upload
  upload-Passes device_id none c i = i
  upload-Passes device_id (some body) c i = receive-Passes device_id (split_line body) c i

  enrol-Passes :
      (device_id : String) (issued : Option (String × String × String))
      → Passes (enrol (sync_callbacks p) device_id issued)
  enrol-Passes device_id none c i = i
  enrol-Passes device_id (some (key, cert, fingerprint)) c i =
      (Keeps-pair_device k.apart device_id fingerprint "vaultd").at c.admin i

  after_code-Passes :
      (device_id : String) (valid : Bool) → Passes (after_code (sync_callbacks p) device_id valid)
  after_code-Passes device_id true c i = enrol-Passes device_id (p.issue device_id) c i
  after_code-Passes device_id false c i = i

  pair_with-Passes :
      (now : ℕ) (code device_id : String) → Passes (pair_with (sync_callbacks p) now code device_id)
  unfolding pair_with
  pair_with-Passes now code device_id c i = elim (Bool-cases (device_id == "")) [
    | inl e ↦ rw e i
    | inr e ↦ rw e (after_code-Passes device_id _ _ (record { world = i.world }))
  ]

  pair-Passes :
      (now : ℕ) (parsed : Option (String × String))
      → Passes (handle_pair (sync_callbacks p) now parsed)
  unfolding handle_pair
  pair-Passes now none c i = i
  pair-Passes now (some (code, device_id)) c i = pair_with-Passes now code device_id c i

  route-Passes :
      (now : ℕ) (identity : Identity) (r : Request) (route : Route)
      → Passes (handle_route (sync_callbacks p) now identity r route)
  unfolding handle_route
  route-Passes now identity r ping c i = authorized-Passes identity _ (λ d j. j) c i
  route-Passes now identity r get_manifest c i = authorized-Passes identity _ (λ d j. j) c i
  route-Passes now identity r upload c i =
      authorized-Passes identity _ (upload-Passes (device_of identity) r.body) c i
  route-Passes now identity r pair c i = pair-Passes now (p.read_pairing (body_of r.body)) c i
  route-Passes now identity r not_found c i = i

  serve-Passes :
      (rs : List (ℕ × Identity × Request)) (c : Channel)
      → Holds c
      → Holds (serve (sync_callbacks p) rs c)
  unfolding serve
  serve-Passes [] c i = i
  serve-Passes ((now, identity, r) ∷ rs) c i =
      serve-Passes rs (handle (sync_callbacks p) now identity r c).1
        (route-Passes now identity r (route_of r.method r.path) c i)

-- What is in custody: the documents, the trash and the versions.
abbrev pub in_custody : DbState → List Document × List TrashedDocument × List DocumentVersion
in_custody st = (st.documents, st.trashed, st.versions)

module _ ⦃f : Foreign⦄ where
  in_custody-IsOpen :
      (before : List Document × List TrashedDocument × List DocumentVersion)
      → IsOpen (λ st. in_custody st ≡ before)
  unfolding append_audit upsert_device add_submission
  in_custody-IsOpen before = record {
    apart = record { logged = λ now a b c d st h. h; registered = λ d st h. h };
    queued = λ sub st h. h;
  }

  IsVerified-IsOpen : IsOpen IsVerified
  unfolding add_submission verify_audit_chain
  IsVerified-IsOpen = record { apart = IsVerified-IsApart; queued = λ sub st h. h }

  -- No device puts anything into custody or takes anything out: whatever requests the channel serves,
  -- in whatever order and with whatever faults, the documents, the trash and the versions are what they were.
  pub serve-in_custody :
      (p : Packages) (rs : List (ℕ × Identity × Request)) (c : Channel)
      → in_custody (serve (sync_callbacks p) rs c).admin.vault.db.state
        ≡ in_custody c.admin.vault.db.state
  serve-in_custody p rs c =
      (serve-Passes (in_custody-IsOpen (in_custody c.admin.vault.db.state)) p rs c
        (record { world = record { kept = refl } })).world.kept

  -- An audit chain that verifies, verifies after any requests to the channel.
  pub serve-IsVerified :
      (p : Packages) (rs : List (ℕ × Identity × Request)) (c : Channel)
      → verify_audit_chain c.admin.vault.db.state ≡ ok tt
      → verify_audit_chain (serve (sync_callbacks p) rs c).admin.vault.db.state ≡ ok tt
  serve-IsVerified p rs c h =
      (serve-Passes IsVerified-IsOpen p rs c (record { world = record { kept = h } })).world.kept

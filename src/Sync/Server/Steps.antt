-- ===== src/Sync/Server/Steps.antt =====
-- The channel as a state machine over codes and devices: crates/vault-sync/src/server.rs.
use ubod.Base.{
  ℕ, String, Bool, true, false, ◌==◌, string_eq, Option, none, some, List, [], ◌∷◌, ◌≡◌, refl, sym,
  subst, Bool-cases, inl, inr,
}
use ubod.Base.Exec.{Result, ok, err}
use ubod.Base.Foreign.{Foreign}
use ubod.Fs.World.{World}
use ubod.Admin.{AdminService}
use ubod.Sync.{SyncError, SyncState, Identity, Request, Reply, Channel}
use ubod.Sync.Pairing.{consume_pairing_code, require_auth, register_device}
use ubod.Sync.Server.{
  Callbacks, Route, ping, get_manifest, upload, pair, not_found, route_of, after_auth, authorized,
  ingested, stage, receive, handle_upload, split_line, enrol, after_code, pair_with, handle_pair,
  body_of, handle_route, handle, serve, Handler, device_of,
}

-- A request leaves the codes and devices alone, or takes out a code with all that have expired, and if
-- the code was there it may let a device in.
pub data SyncStep (st : SyncState) : SyncState → Type 0 where
  stay : SyncStep st st
  spend : (now : ℕ) (code : String) → SyncStep st (consume_pairing_code now code st).1
  admit :
      (now : ℕ) (code device_id fingerprint : String)
      → (consume_pairing_code now code st).0 ≡ true
      → SyncStep st (register_device device_id fingerprint (consume_pairing_code now code st).1)

pub data Reach : SyncState → SyncState → Type 0 where
  here : (st : SyncState) → Reach st st
  next : (st st' st'' : SyncState) → SyncStep st st' → Reach st' st'' → Reach st st''

module _ ⦃f : Foreign⦄ (cb : Callbacks) where
  abbrev pub Still : Handler → Type 0
  Still m = (c : Channel) → (m c).1.sync ≡ c.sync

  after_auth-Still :
      (a : Result SyncError (Unit {0})) (m : Handler) → Still m → Still (after_auth a m)
  after_auth-Still (ok _) m h c = h c
  after_auth-Still (err e) m h c = refl

  pub authorized-Still :
      (identity : Identity) (m : Handler) → Still m → Still (authorized identity m)
  unfolding authorized
  authorized-Still identity m h c = after_auth-Still (require_auth identity c.sync) m h c

  ingested-Still : (r : Result String Reply × AdminService) → Still (ingested cb r)
  ingested-Still (ok ack, admin) c = refl
  ingested-Still (err e, admin) c = refl

  stage-Still :
      (device_id : String) (envelope : List ℕ) (path : String)
      (r : Result (Unit {0}) (Unit {0}) × World)
      → Still (stage cb device_id envelope path r)
  stage-Still device_id envelope path (err _, w) c = refl
  stage-Still device_id envelope path (ok _, w) c =
      ingested-Still (cb.on_document device_id envelope path (record c.admin { vault = w })) c

  receive-Still :
      (device_id : String) (parts : Option (List ℕ × List ℕ)) → Still (receive cb device_id parts)
  unfolding receive
  receive-Still device_id none c = refl
  receive-Still device_id (some (envelope, file_bytes)) c = stage-Still device_id envelope _ _ c

  pub upload-Still :
      (device_id : String) (body : Option (List ℕ)) → Still (handle_upload cb device_id body)
  unfolding handle_upload
  upload-Still device_id none c = refl
  upload-Still device_id (some body) c = receive-Still device_id (split_line body) c

  abbrev Stays : Handler → Type 0
  Stays m = (c : Channel) → SyncStep c.sync (m c).1.sync

  authorized-Stays : (identity : Identity) (m : Handler) → Still m → Stays (authorized identity m)
  authorized-Stays identity m same c =
      subst (SyncStep c.sync) (sym (authorized-Still identity m same c)) stay

  enrol-SyncStep :
      (now : ℕ) (code device_id : String) (issued : Option (String × String × String))
      (st : SyncState) (admin : AdminService)
      → (consume_pairing_code now code st).0 ≡ true
      → SyncStep st
          (enrol cb device_id issued
            (record { sync = (consume_pairing_code now code st).1; admin = admin })).1.sync
  enrol-SyncStep now code device_id none st admin h = spend now code
  enrol-SyncStep now code device_id (some (key, cert, fingerprint)) st admin h =
      admit now code device_id fingerprint h

  after_code-SyncStep :
      (now : ℕ) (code device_id : String) (valid : Bool) (st : SyncState) (admin : AdminService)
      → (consume_pairing_code now code st).0 ≡ valid
      → SyncStep st
          (after_code cb device_id valid
            (record { sync = (consume_pairing_code now code st).1; admin = admin })).1.sync
  after_code-SyncStep now code device_id true st admin h =
      enrol-SyncStep now code device_id (cb.issue device_id) st admin h
  after_code-SyncStep now code device_id false st admin h = spend now code

  pair_with-Stays : (now : ℕ) (code device_id : String) → Stays (pair_with cb now code device_id)
  unfolding pair_with
  pair_with-Stays now code device_id c = elim (Bool-cases (device_id == "")) [
    | inl e ↦ rw e stay
    | inr e ↦ rw e (after_code-SyncStep now code device_id _ c.sync c.admin refl)
  ]

  pair-Stays : (now : ℕ) (parsed : Option (String × String)) → Stays (handle_pair cb now parsed)
  unfolding handle_pair
  pair-Stays now none c = stay
  pair-Stays now (some (code, device_id)) c = pair_with-Stays now code device_id c

  route-Stays :
      (now : ℕ) (identity : Identity) (r : Request) (route : Route)
      → Stays (handle_route cb now identity r route)
  unfolding handle_route
  route-Stays now identity r ping c = authorized-Stays identity _ (λ d. refl) c
  route-Stays now identity r get_manifest c = authorized-Stays identity _ (λ d. refl) c
  route-Stays now identity r upload c =
      authorized-Stays identity _ (upload-Still (device_of identity) r.body) c
  route-Stays now identity r pair c = pair-Stays now (cb.read_pairing (body_of r.body)) c
  route-Stays now identity r not_found c = stay

  handle-SyncStep :
      (now : ℕ) (identity : Identity) (r : Request) (c : Channel)
      → SyncStep c.sync (handle cb now identity r c).1.sync
  handle-SyncStep now identity r = route-Stays now identity r (route_of r.method r.path)

  pub serve-Reach :
      (rs : List (ℕ × Identity × Request)) (c : Channel) → Reach c.sync (serve cb rs c).sync
  unfolding serve
  serve-Reach [] c = here c.sync
  serve-Reach ((now, identity, r) ∷ rs) c =
      next _ _ _ (handle-SyncStep now identity r c) (serve-Reach rs (handle cb now identity r c).1)

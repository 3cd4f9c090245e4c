-- ===== src/Sync/Server/Access.antt =====
-- Who gets through the channel, and how often a code for pairing serves: crates/vault-sync/src/server.rs.
use ubod.Base.{ℕ, List, [], ◌∷◌, ◌≡◌, ◌≢◌, refl, arith, Bool-cases, inl, inr}
use ubod.Base.Exec.{err}
use ubod.Base.Foreign.{Foreign}
use ubod.Sync.{SyncError, Identity, Request, Channel, error}
use ubod.Sync.Pairing.{require_auth}
use ubod.Sync.Server.{
  Callbacks, Response, response, error_text, Handler, Route, ping, get_manifest, upload, pair,
  not_found, route_of, authorized, handle_route, handle, handle_conn,
}

abbrev pub NoPairing : List (ℕ × Request) → Type 0
NoPairing [] = Unit
NoPairing ((now, r) ∷ rs) = (route_of r.method r.path ≢ pair) × NoPairing rs

abbrev pub AllRefused : List Response → Type 0
AllRefused [] = Unit
AllRefused (a ∷ rest) = (a.status ≢ 200) × AllRefused rest

module _ ⦃f : Foreign⦄ (cb : Callbacks) where
  authorized_refused :
      (identity : Identity) (m : Handler) (c : Channel) (e : SyncError)
      → require_auth identity c.sync ≡ err e
      → authorized identity m c ≡ (response 403 (error (error_text e)), c)
  unfolding authorized
  authorized_refused identity m c e h = rw h refl

  refused_route :
      (now : ℕ) (identity : Identity) (r : Request) (c : Channel) (e : SyncError) (route : Route)
      → require_auth identity c.sync ≡ err e
      → route ≢ pair
      → (a : Response) × (handle_route cb now identity r route c ≡ (a, c)) × (a.status ≢ 200)
  unfolding handle_route
  refused_route now identity r c e ping h k = (
    response 403 (error (error_text e)),
    authorized_refused identity _ c e h,
    (λ x. omega (arith, x)),
  )
  refused_route now identity r c e get_manifest h k = (
    response 403 (error (error_text e)),
    authorized_refused identity _ c e h,
    (λ x. omega (arith, x)),
  )
  refused_route now identity r c e upload h k = (
    response 403 (error (error_text e)),
    authorized_refused identity _ c e h,
    (λ x. omega (arith, x)),
  )
  refused_route now identity r c e pair h k = absurd (k refl)
  refused_route now identity r c e not_found h k =
      (response 404 (error "no encontrado"), refl, (λ x. omega (arith, x)))

  conn_step :
      (now : ℕ) (identity : Identity) (r : Request) (rs : List (ℕ × Request)) (c : Channel)
      (a : Response)
      → handle cb now identity r c ≡ (a, c)
      → (handle_conn cb identity rs c).1 ≡ c
      → AllRefused (handle_conn cb identity rs c).0
      → a.status ≢ 200
      → ((handle_conn cb identity ((now, r) ∷ rs) c).1 ≡ c)
        × AllRefused (handle_conn cb identity ((now, r) ∷ rs) c).0
  unfolding handle_conn
  conn_step now identity r rs c a h same refused bad = elim (Bool-cases r.close) [
    | inl e ↦ (rw (h, e) refl, rw (h, e) (bad, tt))
    | inr e ↦ (rw (h, e) same, rw (h, e) (bad, refused))
  ]

  -- A connection whose device is not authorized, or that shows no certificate, gets nothing out of any
  -- number of requests but those to pair: every answer is an error, and nothing changes.
  pub handle_conn_refused :
      (identity : Identity) (rs : List (ℕ × Request)) (c : Channel) (e : SyncError)
      → require_auth identity c.sync ≡ err e
      → NoPairing rs
      → ((handle_conn cb identity rs c).1 ≡ c) × AllRefused (handle_conn cb identity rs c).0
  unfolding handle_conn
  handle_conn_refused identity [] c e h k = (refl, tt)
  handle_conn_refused identity ((now, r) ∷ rs) c e h (k, ks) =
      let (a, here, bad) = refused_route now identity r c e (route_of r.method r.path) h k in
      let (same, refused) = handle_conn_refused identity rs c e h ks in
      conn_step now identity r rs c a here same refused bad

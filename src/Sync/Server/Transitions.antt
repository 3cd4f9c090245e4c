-- ===== src/Sync/Server/Transitions.antt =====
-- What a request may do to the codes for pairing and the devices: crates/vault-sync/src/server.rs.
use ubod.Base.{
  ℕ, String, Bool, true, false, ◌==◌, string_eq, Option, none, some, List, ◌≡◌, ◌≢◌, refl, sym,
  subst, arith, if◌then◌else◌, Bool-cases, inl, inr,
}
use ubod.Base.Foreign.{Foreign}
use ubod.Fs.World.{lookup}
use ubod.Fs.Files.Sealing.{lookup-insert, lookup-insert_other}
use ubod.Sync.{SyncState, PairingCode, Identity, Request, Channel}
use ubod.Sync.Server.{
  Callbacks, Response, Route, ping, get_manifest, upload, pair, not_found, route_of, enrol,
  after_code, pair_with, handle_pair, body_of, handle_route, handle, device_of, Handler, authorized,
}
use ubod.Sync.Server.Spent.{Left, Offers, Left-consume, offered, Offers-is_offered}
use ubod.Sync.Server.Steps.{Still, authorized-Still, upload-Still}
use ubod.Sync.Pairing.{consume_pairing_code, register_device}

-- The device has the fingerprint, and no other device has changed.
abbrev pub IsEntered : String → String → List (String × String) → List (String × String) → Type 0
IsEntered device_id fingerprint old new =
    (lookup device_id new ≡ some fingerprint)
    × ((d : String) → d ≢ device_id → lookup d new ≡ lookup d old)

-- The code and the device that a request to pair names; a request without a device asks for nothing.
abbrev named : Option (String × String) → Option (String × String)
named none = none
named (some (code, device_id)) = if device_id == "" then none else some (code, device_id)

abbrev pub asked : Callbacks → List ℕ → Route → Option (String × String)
asked cb body pair = named (cb.read_pairing body)
asked cb body ping = none
asked cb body get_manifest = none
asked cb body upload = none
asked cb body not_found = none

-- From the state of the channel, the answer's status and the new state.
pub data Transition (cb : Callbacks) (now : ℕ) (asks : Option (String × String)) (st : SyncState)
    : ℕ → SyncState → Type 0 where
  unchanged : (status : ℕ) → asks ≡ none → Transition cb now asks st status st
  refused :
      (code device_id : String) (ps : List PairingCode)
      → asks ≡ some (code, device_id)
      → (Offers now code st.pairings → ⊥)
      → Left now code st.pairings ps
      → Transition cb now asks st 403 (record st { pairings = ps })
  unissued :
      (code device_id : String) (ps : List PairingCode)
      → asks ≡ some (code, device_id)
      → Offers now code st.pairings
      → cb.issue device_id ≡ none
      → Left now code st.pairings ps
      → Transition cb now asks st 500 (record st { pairings = ps })
  enrolled :
      (code device_id key cert fingerprint : String) (ps : List PairingCode)
      (ds : List (String × String))
      → asks ≡ some (code, device_id)
      → Offers now code st.pairings
      → cb.issue device_id ≡ some (key, cert, fingerprint)
      → Left now code st.pairings ps
      → IsEntered device_id fingerprint st.devices ds
      → Transition cb now asks st 200 (record st { pairings = ps; devices = ds })

module _ ⦃f : Foreign⦄ (cb : Callbacks) where
  abbrev Goes : ℕ → Option (String × String) → Channel → Response × Channel → Type 0
  Goes now asks c r = Transition cb now asks c.sync r.0.status r.1.sync

  enrol-Transition :
      (now : ℕ) (code device_id : String) (c : Channel) (issued : Option (String × String × String))
      → cb.issue device_id ≡ issued
      → Offers now code c.sync.pairings
      → Goes now
          (some (code, device_id))
          c
          (enrol cb device_id issued (record c { sync = (consume_pairing_code now code c.sync).1 }))
  unfolding consume_pairing_code register_device
  enrol-Transition now code device_id c none issues offer =
      unissued code device_id _ refl offer issues (Left-consume now code c.sync.pairings)
  enrol-Transition now code device_id c (some (key, cert, fingerprint)) issues offer =
      enrolled code device_id key cert fingerprint _ _ refl offer issues
        (Left-consume now code c.sync.pairings)
        (
          lookup-insert device_id fingerprint c.sync.devices,
          λ d other. lookup-insert_other d device_id fingerprint c.sync.devices other,
        )

  after_code-Transition :
      (now : ℕ) (code device_id : String) (c : Channel) (valid : Bool)
      → (consume_pairing_code now code c.sync).0 ≡ valid
      → Goes now (some (code, device_id)) c (
          after_code cb device_id valid
            (record c { sync = (consume_pairing_code now code c.sync).1 }))
  unfolding consume_pairing_code
  after_code-Transition now code device_id c true hit =
      enrol-Transition now code device_id c (cb.issue device_id) refl
        (offered now code c.sync.pairings hit)
  after_code-Transition now code device_id c false miss =
      refused code device_id _ refl
        (λ offer. ground (arith, miss, Offers-is_offered now code c.sync.pairings offer))
        (Left-consume now code c.sync.pairings)

  pair_with-Transition :
      (now : ℕ) (code device_id : String) (c : Channel)
      → Goes now (named (some (code, device_id))) c (pair_with cb now code device_id c)
  unfolding pair_with
  pair_with-Transition now code device_id c = elim (Bool-cases (device_id == "")) [
    | inl e ↦ rw e (unchanged 400 refl)
    | inr e ↦ rw e (after_code-Transition now code device_id c _ refl)
  ]

  pair-Transition :
      (now : ℕ) (parsed : Option (String × String)) (c : Channel)
      → Goes now (named parsed) c (handle_pair cb now parsed c)
  unfolding handle_pair
  pair-Transition now none c = unchanged 400 refl
  pair-Transition now (some (code, device_id)) c = pair_with-Transition now code device_id c

  authorized-Transition :
      (now : ℕ) (identity : Identity) (m : Handler) (c : Channel)
      → Still cb m
      → Goes now none c (authorized identity m c)
  authorized-Transition now identity m c same =
      subst (Transition cb now none c.sync (authorized identity m c).0.status)
        (sym (authorized-Still cb identity m same c)) (unchanged _ refl)

  route-Transition :
      (now : ℕ) (identity : Identity) (r : Request) (c : Channel) (route : Route)
      → Goes now (asked cb (body_of r.body) route) c (handle_route cb now identity r route c)
  unfolding handle_route
  route-Transition now identity r c ping = authorized-Transition now identity _ c (λ d. refl)
  route-Transition now identity r c get_manifest =
      authorized-Transition now identity _ c (λ d. refl)
  route-Transition now identity r c upload =
      authorized-Transition now identity _ c (upload-Still cb (device_of identity) r.body)
  route-Transition now identity r c pair = pair-Transition now (cb.read_pairing (body_of r.body)) c
  route-Transition now identity r c not_found = unchanged 404 refl

  -- What a request does to the codes for pairing and the devices, by what it asks for. A request to pair
  -- that names a device takes out the code and every code whose time is over, and leaves the others in
  -- their order. It gets 403 if the code was not there or its time was over; 500 if no certificate
  -- could be issued for the device; and 200 else, and then the device has the fingerprint of the
  -- certificate issued for it, and no other device has changed. Any other request changes nothing.
  pub handle-Transition :
      (now : ℕ) (identity : Identity) (r : Request) (c : Channel)
      → Transition cb now
          (asked cb (body_of r.body) (route_of r.method r.path))
          c.sync
          (handle cb now identity r c).0.status
          (handle cb now identity r c).1.sync
  handle-Transition now identity r c = route-Transition now identity r c (route_of r.method r.path)

-- ===== src/Sync/Pairing.antt =====
-- crates/vault-sync/src/server.rs: the codes for pairing and the devices, methods of `SyncState`.
use ubod.Base.{
  ℕ, ◌+◌, String, Bool, false, not, ◌==◌, string_eq, ltb, if◌then◌else◌, List, [], ◌∷◌, ◌++◌,
  Option, none, some, keep, length,
}
use ubod.Base.Exec.{Result, ok, err}
use ubod.Fs.World.{lookup, insert}
use ubod.Sync.{
  SyncError, client_cert_required, unauthorized_device, PairingCode, SyncState, Identity,
}

-- `code` is what the four random bytes are in hex.
unfoldable pub new_pairing_code : ℕ → String → SyncState → SyncState
new_pairing_code now code st = record st {
  pairings = st.pairings ++ record { code = code; expires_at = now + 600 } ∷ [];
}

abbrev pub live : ℕ → List PairingCode → List PairingCode
live now = keep (λ p. ltb now p.expires_at)

abbrev pub others : String → List PairingCode → List PairingCode
others code = keep (λ p. not (p.code == code))

unfoldable pub consume_pairing_code : ℕ → String → SyncState → Bool × SyncState
consume_pairing_code now code st =
    let fresh = live now st.pairings in
    let rest = others code fresh in
    (ltb (length rest) (length fresh), record st { pairings = rest })

unfoldable pub register_device : String → String → SyncState → SyncState
register_device device_id fingerprint st = record st {
  devices = insert device_id fingerprint st.devices;
}

abbrev pub same_fingerprint : String → Option String → Bool
same_fingerprint fingerprint none = false
same_fingerprint fingerprint (some fp) = fp == fingerprint

unfoldable pub is_authorized : String → String → SyncState → Bool
is_authorized device_id fingerprint st = same_fingerprint fingerprint (lookup device_id st.devices)

unfoldable pub require_auth : Identity → SyncState → Result SyncError (Unit {0})
require_auth none st = err client_cert_required
require_auth (some (device_id, fingerprint)) st =
    if is_authorized device_id fingerprint st then ok tt else err (unauthorized_device device_id)

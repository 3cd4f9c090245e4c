-- ===== src/Sync/Server/Codes.antt =====
-- How often a code for pairing serves, and how many devices codes can let in: crates/vault-sync/src/server.rs.
use ubod.Base.{
  ℕ, ◌+◌, ◌≤◌, String, Bool, true, false, not, ◌==◌, string_eq, Option, none, some, List, [], ◌∷◌,
  ◌≡◌, refl, ◌∙◌, arith, length, all, ltb,
}
use ubod.Base.Foreign.{Foreign}
use ubod.Base.Search.{length-keep-le, all-keep_self, keep-all, all-keep}
use ubod.Fs.World.{without, insert}
use ubod.Sync.{SyncState, PairingCode, Identity, Request, Channel, error}
use ubod.Sync.Pairing.{consume_pairing_code, register_device, live, others}
use ubod.Sync.Server.{Callbacks, response, enrol, after_code, pair_with, serve}
use ubod.Sync.Server.Steps.{SyncStep, stay, spend, admit, Reach, here, next, serve-Reach}

unfoldable is_spent : String → SyncState → Bool
is_spent code st = all (λ p. not (p.code == code)) st.pairings

-- Taking a code out leaves none of its name, and none that was spent comes back.
consume-is_spent :
    (now : ℕ) (code : String) (st : SyncState)
    → is_spent code (consume_pairing_code now code st).1 ≡ true
unfolding is_spent consume_pairing_code
consume-is_spent now code st = all-keep_self (λ p. not (p.code == code)) (live now st.pairings)

consume-is_spent_kept :
    (now : ℕ) (used code : String) (st : SyncState)
    → is_spent code st ≡ true
    → is_spent code (consume_pairing_code now used st).1 ≡ true
unfolding is_spent consume_pairing_code
consume-is_spent_kept now used code st h =
    all-keep (λ p. not (p.code == code)) (λ p. not (p.code == used)) (live now st.pairings)
      (all-keep (λ p. not (p.code == code)) (λ p. ltb now p.expires_at) st.pairings h)

register-is_spent :
    (code device_id fingerprint : String) (st : SyncState)
    → is_spent code (register_device device_id fingerprint st) ≡ is_spent code st
unfolding is_spent register_device
register-is_spent code device_id fingerprint st = refl

SyncStep-is_spent :
    (code : String) (st st' : SyncState)
    → SyncStep st st'
    → is_spent code st ≡ true
    → is_spent code st' ≡ true
SyncStep-is_spent code st st' stay h = h
SyncStep-is_spent code st st' (spend now used) h = consume-is_spent_kept now used code st h
SyncStep-is_spent code st st' (admit now used device_id fingerprint _) h =
    register-is_spent code device_id fingerprint _ ∙ consume-is_spent_kept now used code st h

Reach-is_spent :
    (code : String) (st st' : SyncState)
    → Reach st st'
    → is_spent code st ≡ true
    → is_spent code st' ≡ true
Reach-is_spent code st st' (here _) h = h
Reach-is_spent code st st' (next _ mid _ s rest) h =
    Reach-is_spent code mid st' rest (SyncStep-is_spent code st mid s h)

ltb_self : (n : ℕ) → ltb n n ≡ false
ltb_self n = ground arith

keeps_all :
    (rest fresh : List PairingCode) → rest ≡ fresh → ltb (length rest) (length fresh) ≡ false
keeps_all rest fresh h = rw h (ltb_self (length fresh))

spent-consume :
    (now : ℕ) (code : String) (st : SyncState)
    → is_spent code st ≡ true
    → (consume_pairing_code now code st).0 ≡ false
unfolding is_spent consume_pairing_code
spent-consume now code st h =
    keeps_all (others code (live now st.pairings)) (live now st.pairings) (
      keep-all (λ p. not (p.code == code)) (live now st.pairings)
        (all-keep (λ p. not (p.code == code)) (λ p. ltb now p.expires_at) st.pairings h))

-- A device that is let in costs a code, so codes and devices together never grow.
abbrev total : SyncState → ℕ
total st = length st.devices + length st.pairings

length-without : (k : String) (m : List (String × String)) → length (without k m) ≤ length m
unfolding without
length-without k [] = omega arith
length-without k ((j, v) ∷ m) = ground (arith, length-without k m)

length-insert : (k v : String) (m : List (String × String)) → length (insert k v m) ≤ 1 + length m
unfolding insert
length-insert k v m = ground (arith, length-without k m)

consume-total :
    (now : ℕ) (code : String) (st : SyncState)
    → total (consume_pairing_code now code st).1 ≤ total st
unfolding consume_pairing_code
consume-total now code st = ground (
  arith,
  length-keep-le (λ p. not (p.code == code)) (live now st.pairings),
  length-keep-le (λ p. ltb now p.expires_at) st.pairings,
)

consume-costs :
    (now : ℕ) (code : String) (st : SyncState)
    → (consume_pairing_code now code st).0 ≡ true
    → 1 + total (consume_pairing_code now code st).1 ≤ total st
unfolding consume_pairing_code
consume-costs now code st h =
    ground (arith, h, length-keep-le (λ p. ltb now p.expires_at) st.pairings)

register-total :
    (device_id fingerprint : String) (st : SyncState)
    → total (register_device device_id fingerprint st) ≤ 1 + total st
unfolding register_device
register-total device_id fingerprint st =
    ground (arith, length-insert device_id fingerprint st.devices)

SyncStep-total : (st st' : SyncState) → SyncStep st st' → total st' ≤ total st
SyncStep-total st st' stay = omega arith
SyncStep-total st st' (spend now code) = consume-total now code st
SyncStep-total st st' (admit now code device_id fingerprint h) = omega (
  arith,
  register-total device_id fingerprint (consume_pairing_code now code st).1,
  consume-costs now code st h,
)

Reach-total : (st st' : SyncState) → Reach st st' → total st' ≤ total st
Reach-total st st' (here _) = omega arith
Reach-total st st' (next _ mid _ s rest) =
    omega (arith, SyncStep-total st mid s, Reach-total mid st' rest)

module _ ⦃f : Foreign⦄ (cb : Callbacks) where
  enrol-sync_spent :
      (code device_id : String) (issued : Option (String × String × String)) (c : Channel)
      → is_spent code c.sync ≡ true
      → is_spent code (enrol cb device_id issued c).1.sync ≡ true
  enrol-sync_spent code device_id none c h = h
  enrol-sync_spent code device_id (some (key, cert, fingerprint)) c h =
      register-is_spent code device_id fingerprint c.sync ∙ h

  after_code-spent :
      (code device_id : String) (valid : Bool) (c : Channel)
      → is_spent code c.sync ≡ true
      → is_spent code (after_code cb device_id valid c).1.sync ≡ true
  after_code-spent code device_id true c h =
      enrol-sync_spent code device_id (cb.issue device_id) c h
  after_code-spent code device_id false c h = h

  pair_with-spent :
      (now : ℕ) (code device_id : String) (c : Channel)
      → ((device_id == "") ≡ false)
      → is_spent code (pair_with cb now code device_id c).1.sync ≡ true
  unfolding pair_with
  pair_with-spent now code device_id c named =
      rw named (after_code-spent code device_id _ _ (consume-is_spent now code c.sync))

  refused :
      (now : ℕ) (code device_id : String) (c : Channel)
      → ((device_id == "") ≡ false)
      → is_spent code c.sync ≡ true
      → (pair_with cb now code device_id c).0
        ≡ response 403 (error "código de emparejamiento inválido o expirado")
  unfolding pair_with
  refused now code device_id c named h = rw (named, spent-consume now code c.sync h) refl

  -- A code serves one attempt. After a request to pair with it that names a device, whatever it
  -- answered, and after any requests that followed, a request to pair with that code gets 403 at any time.
  pub pair_once :
      (now later : ℕ) (code device_id other : String) (rs : List (ℕ × Identity × Request))
      (c : Channel)
      → ((device_id == "") ≡ false)
      → ((other == "") ≡ false)
      → (pair_with cb later code other (serve cb rs (pair_with cb now code device_id c).1)).0
        ≡ response 403 (error "código de emparejamiento inválido o expirado")
  pair_once now later code device_id other rs c named named' =
      let c' = (pair_with cb now code device_id c).1 in
      refused later code other (serve cb rs c') named' (
        Reach-is_spent code c'.sync (serve cb rs c').sync (serve-Reach cb rs c')
          (pair_with-spent now code device_id c named))

  -- Requests never let in more devices than there were codes: over any requests of any connections, the
  -- devices and the codes that are left number at most what they did.
  pub serve-devices :
      (rs : List (ℕ × Identity × Request)) (c : Channel)
      → length (serve cb rs c).sync.devices + length (serve cb rs c).sync.pairings
        ≤ length c.sync.devices + length c.sync.pairings
  serve-devices rs c = Reach-total c.sync (serve cb rs c).sync (serve-Reach cb rs c)

-- ===== src/Admin/Kept.antt =====
-- Properties of the database, kept by the operations of `AdminService` on the PINs, the sessions and the devices:
-- crates/vault-admin/src/lib.rs.
use ubod.Base.{ℕ, String, Bool, Option, none, some, ◌≡◌, refl, sym, subst}
use ubod.Base.Exec.{Exec, modify}
use ubod.Base.Exec.Keeps.{Keeps, Keeps-modify, keeps_rules}
use ubod.Base.Foreign.{Foreign}
use ubod.Fs.World.{World, on_state, log}
use ubod.Fs.Files.{FsError}
use ubod.Fs.Kept.{OnState, Keeps-same, Keeps-on_state, Keeps-log, Keeps-remove_file, world_rules}
use ubod.Roles.Users.{draw}
use ubod.Store.Audit.{append_audit}
use ubod.Store.Documents.{remove_document}
use ubod.Store.State.{DbState, DeviceRecord, StoreError}
use ubod.Store.Users.{set_admin_pin_hash, set_extra, upsert_device}
use ubod.Admin.{AdminError, AdminService, on_vault, ensure, try_state}
use ubod.Admin.Pins.{
  check_lockout, refuse_locked, register_failure, reset_failures, admin_hash, login,
  verify_admin_pin, verify_destruction_pin, validate_session, renew, store_session, note, hash_pin,
  check_current, set_admin_pin, set_destruction_pin,
}
use ubod.Admin.Destruction.{plan, forget}
use ubod.Admin.Devices.{pair_device}
use ubod.Admin.Admission.{reject, discard}
use ubod.Core.Records.{AdmissionState}
use ubod.Store.Submissions.{update_submission_state}

-- What entries of the audit log and devices do not touch.
pub record IsApart ⦃f : Foreign⦄ (P : DbState → Type 0) : Type 0 where
  pub logged : (now a b c d : String) (st : DbState) → P st → P (append_audit now a b c d st).1
  pub registered : (d : DeviceRecord) (st : DbState) → P st → P (upsert_device d st)

-- What the administrator's changes of the database keep.
pub record IsKept ⦃f : Foreign⦄ (P : DbState → Type 0) : Type 0 where
  pub apart : IsApart P
  pub hashed : (hash : String) (st : DbState) → P st → P (set_admin_pin_hash hash st)
  pub configured :
      (k v : String) (st : DbState) → P st → P (record st { settings = set_extra k v st.settings })
  pub removed : (id : String) (st : DbState) → P st → P (remove_document id st).1
  pub decided :
      (id : String) (new : AdmissionState) (st : DbState)
      → P st
      → P (update_submission_state id new st).1

-- A property of the database in memory, of the service.
pub record OnVault (P : DbState → Type 0) (s : AdminService) : Type 0 where
  pub world : OnState P s.vault

module _ {P : DbState → Type 0} where
  pub Keeps-on_vault :
      {E A : Type 0} (e : E → AdminError) (m : Exec World E A)
      → Keeps (OnState P) m
      → Keeps (OnVault P) (on_vault e m)
  unfolding on_vault
  Keeps-on_vault e m k = record { at = λ s h. record { world = k.at s.vault h.world } }

  Keeps-own :
      (g : AdminService → AdminService)
      → ((s : AdminService) → (g s).vault ≡ s.vault)
      → Keeps {E = AdminError} (OnVault P) (modify g)
  Keeps-own g same =
      Keeps-modify g (λ s h. record { world = subst (OnState P) (sym (same s)) h.world })

  Keeps-store_session : (token : String) → Keeps (OnVault P) (store_session token)
  unfolding store_session
  Keeps-store_session token = Keeps-own _ (λ s. refl)

  Keeps-register_failure : Keeps (OnVault P) register_failure
  unfolding register_failure
  Keeps-register_failure = Keeps-own _ (λ s. refl)

  Keeps-reset_failures : Keeps (OnVault P) reset_failures
  unfolding reset_failures
  Keeps-reset_failures = Keeps-own _ (λ s. refl)

  pub Keeps-plan : (id : String) (t : ℕ) → Keeps (OnVault P) (plan id t)
  unfolding plan
  Keeps-plan id t = Keeps-own _ (λ s. refl)

  pub Keeps-forget : (id : String) → Keeps (OnVault P) (forget id)
  unfolding forget
  Keeps-forget id = Keeps-own _ (λ s. refl)

  Keeps-draw : {E : Type 0} → Keeps {E = E} (OnState P) draw
  unfolding draw
  Keeps-draw = Keeps-same draw (λ w. refl)

  Keeps-ensure : (b : Bool) (e : AdminError) → Keeps (OnVault P) (ensure b e)
  unfolding ensure
  Keeps-ensure b e = search keeps_rules

  Keeps-refuse_locked : (now : ℕ) (until : Option ℕ) → Keeps (OnVault P) (refuse_locked now until)
  unfolding refuse_locked
  Keeps-refuse_locked now none = search keeps_rules
  Keeps-refuse_locked now (some until) = search keeps_rules

  Keeps-check_lockout : Keeps (OnVault P) check_lockout
  unfolding check_lockout
  Keeps-check_lockout = search (keeps_rules, Keeps-refuse_locked)

  Keeps-admin_hash : Keeps (OnVault P) admin_hash
  unfolding admin_hash
  Keeps-admin_hash = search keeps_rules

module _ ⦃f : Foreign⦄ {P : DbState → Type 0} (apart : IsApart P) where
  pub Keeps-logged : {E : Type 0} (a b c d : String) → Keeps {E = E} (OnState P) (log a b c d)
  Keeps-logged a b c d = Keeps-log a b c d (λ now st h. apart.logged now a b c d st h)

  Keeps-device :
      (d : DeviceRecord) → Keeps {E = StoreError} (OnState P) (on_state (upsert_device d))
  Keeps-device d = Keeps-on_state _ (apart.registered d)

  pub Keeps-note : (a b c d : String) → Keeps (OnVault P) (note a b c d)
  unfolding note
  Keeps-note a b c d = search (world_rules, Keeps-logged, Keeps-on_vault)

  pub Keeps-pair_device : (a b c : String) → Keeps (OnVault P) (pair_device a b c)
  unfolding pair_device
  Keeps-pair_device a b c = search (world_rules, Keeps-note, Keeps-on_vault, Keeps-device) depth 12

module _ ⦃f : Foreign⦄ {P : DbState → Type 0} (k : IsKept P) where
  Keeps-hash_pin : (pin : String) → Keeps (OnVault P) (hash_pin pin)
  unfolding hash_pin
  Keeps-hash_pin pin = search (world_rules, Keeps-draw, Keeps-on_vault)

  Keeps-noted : (a b c d : String) → Keeps (OnVault P) (note a b c d)
  Keeps-noted = Keeps-note k.apart

  Keeps-pin :
      (hash : String) → Keeps {E = StoreError} (OnState P) (on_state (set_admin_pin_hash hash))
  Keeps-pin hash = Keeps-on_state _ (k.hashed hash)

  Keeps-destruction_pin :
      (hash : String)
      → Keeps {E = StoreError} (OnState P) (
          on_state
            (λ st. record st { settings = set_extra "destruction_pin_hash" hash st.settings }))
  Keeps-destruction_pin hash = Keeps-on_state _ (k.configured "destruction_pin_hash" hash)

  pub Keeps-removal :
      (id : String)
      → Keeps {E = StoreError} (OnState P) (on_state (λ st. (remove_document id st).1))
  Keeps-removal id = Keeps-on_state _ (k.removed id)

  pub Keeps-decision :
      (id : String) (new : AdmissionState)
      → Keeps (OnState P) (try_state (update_submission_state id new))
  unfolding try_state
  Keeps-decision id new = record {
    at = λ w h. record { kept = k.decided id new w.db.state h.kept };
  }

  ruleset pin_rules = (
    keeps_rules, Keeps-ensure, Keeps-noted, Keeps-check_lockout, Keeps-admin_hash, Keeps-hash_pin,
    Keeps-register_failure, Keeps-reset_failures, Keeps-store_session,
  )

  Keeps-check_current :
      (hash current : Option String) → Keeps (OnVault P) (check_current hash current)
  unfolding check_current
  Keeps-check_current none current = search pin_rules
  Keeps-check_current (some hash) current = search pin_rules depth 12

  pub Keeps-set_admin_pin :
      (current : Option String) (pin : String) → Keeps (OnVault P) (set_admin_pin current pin)
  unfolding set_admin_pin
  Keeps-set_admin_pin current pin =
      search (pin_rules, Keeps-check_current, Keeps-on_vault, Keeps-pin) depth 14

  pub Keeps-login : (token pin : String) → Keeps (OnVault P) (login token pin)
  unfolding login
  Keeps-login token pin = search pin_rules depth 14

  pub Keeps-verify_admin_pin : (pin : String) → Keeps (OnVault P) (verify_admin_pin pin)
  unfolding verify_admin_pin
  Keeps-verify_admin_pin pin = search pin_rules depth 12

  pub Keeps-verify_destruction_pin : (pin : String) → Keeps (OnVault P) (verify_destruction_pin pin)
  unfolding verify_destruction_pin
  Keeps-verify_destruction_pin pin = search pin_rules

  Keeps-renew :
      (token : String) (now : ℕ) (exp : Option ℕ) → Keeps (OnVault P) (renew token now exp)
  unfolding renew
  Keeps-renew token now none = search pin_rules
  Keeps-renew token now (some exp) = search pin_rules

  pub Keeps-validate_session : (token : String) → Keeps (OnVault P) (validate_session token)
  unfolding validate_session
  Keeps-validate_session token = search (keeps_rules, Keeps-renew)

  pub Keeps-set_destruction_pin :
      (session pin : String) → Keeps (OnVault P) (set_destruction_pin session pin)
  unfolding set_destruction_pin
  Keeps-set_destruction_pin session pin =
      search (pin_rules, Keeps-validate_session, Keeps-on_vault, Keeps-destruction_pin) depth 14

  pub Keeps-discard : (path : String) → Keeps (OnState P) (discard path)
  unfolding discard
  Keeps-discard path = record { at = λ w h. (Keeps-remove_file {P = P} FsError.io path).at w h }

  pub Keeps-reject : (id reason actor : String) → Keeps (OnVault P) (reject id reason actor)
  unfolding reject
  Keeps-reject id reason actor =
      search (pin_rules, Keeps-on_vault, Keeps-discard, Keeps-decision) depth 16

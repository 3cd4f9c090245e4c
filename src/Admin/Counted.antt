-- ===== src/Admin/Counted.antt =====
-- A wrong PIN in a login, a destruction or a change of the PIN, and what it leaves: crates/vault-admin/src/lib.rs.
use ubod.Base.{
  ℕ, String, Bool, true, false, not, ◌&&◌, ltb, Option, none, some, ◌≡◌, refl, ap, arith, ◌∙◌,
  subst, sym,
}
use ubod.Base.Exec.{Exec, Result, ok, err, raise, modify, gets, pure, or_raise, ◌>>=◌, ◌>>◌}
use ubod.Base.Exec.Runs.{runs, stops}
use ubod.Base.Foreign.{Foreign}
use ubod.Fs.World.{log}
use ubod.Index.Rules.{Ruleset}
use ubod.Store.Audit.{append_audit}
use ubod.Store.State.{DbState}
use ubod.Admin.{AdminError, AdminService, wrong_pin, on_vault, ensure}
use ubod.Admin.Destruction.{destroy}
use ubod.Admin.Kept.{IsApart, Keeps-note}
use ubod.Store.Users.{upsert_device}
use ubod.Admin.Lockout.{failed, admin_hash_ok}
use ubod.Admin.Pins.{
  failed_once, check_lockout, refuse_locked, register_failure, login, note, verify_admin_pin,
  check_current, set_admin_pin, is_strong_enough,
}
use ubod.Admin.Sealing.{Outside}
use ubod.Admin.Service.{
  AdminRequest, to_log_in, to_destroy, to_set_admin_pin, to_validate, to_set_destruction_pin,
  to_process_due, to_reject, to_pair, to_admit, administer,
}

-- No lock is on at that time.
abbrev pub is_open : ℕ → Option ℕ → Bool
is_open now none = true
is_open now (some until) = not (ltb now until)

module _ ⦃f : Foreign⦄ where
  -- A request that gives a PIN and not the one of the hash: a login, a destruction, or a change of the PIN to
  -- one that is strong enough.
  abbrev pub gives_wrong : String → AdminRequest → Bool
  gives_wrong hash (to_log_in token pin) = not (f.argon_verify pin hash)
  gives_wrong hash (to_destroy id pin second why actor) = not (f.argon_verify pin hash)
  gives_wrong hash (to_set_admin_pin (some pin) new) =
      not (f.argon_verify pin hash) && is_strong_enough new
  gives_wrong hash (to_set_admin_pin none new) = false
  gives_wrong hash (to_validate token) = false
  gives_wrong hash (to_set_destruction_pin session pin) = false
  gives_wrong hash (to_process_due actor) = false
  gives_wrong hash (to_reject id reason actor) = false
  gives_wrong hash (to_pair device_id fingerprint actor) = false
  gives_wrong hash (to_admit id actor) = false

  abbrev IsHashed : String → DbState → Type 0
  IsHashed hash st = st.admin_pin_hash ≡ some hash

  IsHashed-IsApart : (hash : String) → IsApart (IsHashed hash)
  unfolding append_audit upsert_device
  IsHashed-IsApart hash = record { logged = λ now a b c d st h. h; registered = λ d st h. h }

  note-hash :
      (hash a b c d : String) (s : AdminService)
      → IsHashed hash s.vault.db.state
      → IsHashed hash (note a b c d s).1.vault.db.state
  note-hash hash a b c d s h =
      ((Keeps-note (IsHashed-IsApart hash) a b c d).at s
        (record { world = record { kept = h } })).world.kept

  note-pin_lockout :
      (a b c d : String) (s : AdminService) → (note a b c d s).1.pin_lockout ≡ s.pin_lockout
  unfolding note on_vault log modify ◌>>=◌
  note-pin_lockout a b c d s = refl

  raise-after :
      (m : Exec AdminService AdminError (Unit {0})) (s : AdminService)
      → ((do m; raise {A = String} wrong_pin) s).1 ≡ (m s).1
  unfolding ◌>>=◌ raise
  raise-after m s = ground arith

  pure-after :
      (m : Exec AdminService AdminError String) (s : AdminService) → ((do m; pure tt) s).1 ≡ (m s).1
  unfolding ◌>>=◌ pure
  pure-after m s = ground arith

  refuse_open :
      (now : ℕ) (until : Option ℕ) (s : AdminService)
      → is_open now until ≡ true
      → refuse_locked now until s ≡ (ok tt, s)
  unfolding refuse_locked raise pure
  refuse_open now none s h = refl
  refuse_open now (some until) s h = ground (arith, h)

  check_open :
      (s : AdminService)
      → is_open s.vault.now s.pin_lockout.locked_until ≡ true
      → check_lockout s ≡ (ok tt, s)
  unfolding check_lockout gets
  check_open s h = runs _ _ refl (runs _ _ refl (refuse_open s.vault.now _ s h))

  unwrong : (b : Bool) → not b ≡ true → b ≡ false
  unwrong b h = ground (arith, h)

  module _ (s : AdminService) (hash : String) (set : s.vault.db.state.admin_pin_hash ≡ some hash)
      (unlocked : is_open s.vault.now s.pin_lockout.locked_until ≡ true) where
    login_wrong :
        (token pin : String)
        → f.argon_verify pin hash ≡ false
        → login token pin s
          ≡ (do note "admin" "login_failed" "admin" "PIN incorrecto"; raise wrong_pin) (failed s)
    unfolding login register_failure modify
    login_wrong token pin wrong =
        runs _ _ (admin_hash_ok s hash set)
          (runs _ _ (check_open s unlocked) (rw wrong (runs _ _ refl refl)))

    verify_wrong :
        (pin : String)
        → f.argon_verify pin hash ≡ false
        → verify_admin_pin pin s ≡ (err wrong_pin, failed s)
    unfolding verify_admin_pin register_failure modify raise
    verify_wrong pin wrong =
        runs _ _ (admin_hash_ok s hash set)
          (runs _ _ (check_open s unlocked) (rw wrong (runs _ _ refl refl)))

    destroy_wrong :
        (noise : ℕ → ℕ) (id pin second why actor : String)
        → f.argon_verify pin hash ≡ false
        → destroy noise id pin second why actor s ≡ (err wrong_pin, failed s)
    unfolding destroy
    destroy_wrong noise id pin second why actor wrong = stops _ _ (verify_wrong pin wrong)

    current_wrong :
        (pin : String)
        → f.argon_verify pin hash ≡ false
        → check_current (some hash) (some pin) s ≡ (err wrong_pin, failed s)
    unfolding check_current register_failure modify raise or_raise pure
    current_wrong pin wrong =
        runs _ _ refl (runs _ _ (check_open s unlocked) (rw wrong (runs _ _ refl refl)))

    change_wrong :
        (pin new : String)
        → f.argon_verify pin hash ≡ false
        → is_strong_enough new ≡ true
        → set_admin_pin (some pin) new s ≡ (err wrong_pin, failed s)
    unfolding set_admin_pin ensure gets pure
    change_wrong pin new wrong strong = rw strong (
        runs _ _ refl (
          runs _ _ refl
            (stops _ _ (ap (λ h. check_current h (some pin) s) set ∙ current_wrong pin wrong))))

  -- What a wrong PIN leaves.
  abbrev pub Counted : String → AdminService → AdminService → Type 0
  Counted hash s s' =
      (s'.pin_lockout ≡ failed_once s.vault.now s.pin_lockout)
      × (s'.vault.db.state.admin_pin_hash ≡ some hash)

  login-Counted :
      (hash token pin : String) (s : AdminService)
      → s.vault.db.state.admin_pin_hash ≡ some hash
      → is_open s.vault.now s.pin_lockout.locked_until ≡ true
      → f.argon_verify pin hash ≡ false
      → Counted hash s (login token pin s).1
  login-Counted hash token pin s set unlocked wrong =
      subst (Counted hash s)
        (sym (
          ap (λ (r : Result AdminError String × AdminService). r.1)
            (login_wrong s hash set unlocked token pin wrong)
          ∙ raise-after (note "admin" "login_failed" "admin" "PIN incorrecto") (failed s)))
        (
          note-pin_lockout "admin" "login_failed" "admin" "PIN incorrecto" (failed s),
          note-hash hash "admin" "login_failed" "admin" "PIN incorrecto" (failed s) set,
        )

  refused-Counted :
      (hash : String) (s : AdminService) (r : Result AdminError (Unit {0}) × AdminService)
      → s.vault.db.state.admin_pin_hash ≡ some hash
      → r ≡ (err wrong_pin, failed s)
      → Counted hash s r.1
  refused-Counted hash s r set e = rw e (refl, set)

module _ ⦃f : Foreign⦄ (noise : ℕ → ℕ) (out : Outside) (rules : Ruleset) (hash : String) where
  pub administer-Counted :
      (r : AdminRequest) (s : AdminService)
      → s.vault.db.state.admin_pin_hash ≡ some hash
      → (is_open s.vault.now s.pin_lockout.locked_until && gives_wrong hash r) ≡ true
      → Counted hash s (administer noise out rules r s).1
  unfolding administer
  administer-Counted (to_log_in token pin) s set h =
      subst (Counted hash s) (sym (pure-after (login token pin) s))
        (login-Counted hash token pin s set (ground (arith, h)) (ground (arith, h)))
  administer-Counted (to_destroy id pin second why actor) s set h = refused-Counted hash s _ set (
      destroy_wrong s hash set (ground (arith, h)) noise id pin second why actor
        (ground (arith, h)))
  administer-Counted (to_set_admin_pin (some pin) new) s set h =
      refused-Counted hash s _ set (
        change_wrong s hash set (ground (arith, h)) pin new (ground (arith, h)) (ground (arith, h)))
  administer-Counted (to_set_admin_pin none new) s set h = absurd (ground (arith, h))
  administer-Counted (to_validate token) s set h = absurd (ground (arith, h))
  administer-Counted (to_set_destruction_pin session pin) s set h = absurd (ground (arith, h))
  administer-Counted (to_process_due actor) s set h = absurd (ground (arith, h))
  administer-Counted (to_reject id reason actor) s set h = absurd (ground (arith, h))
  administer-Counted (to_pair device_id fingerprint actor) s set h = absurd (ground (arith, h))
  administer-Counted (to_admit id actor) s set h = absurd (ground (arith, h))

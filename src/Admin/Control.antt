-- ===== src/Admin/Control.antt =====
-- The double control of destruction, and the life of a session: crates/vault-admin/src/lib.rs.
use ubod.Base.{
  ℕ, ◌+◌, String, Bool, true, false, ◌&&◌, Option, none, some, [], ◌≡◌, ◌≢◌, refl, ap, arith, ltb,
  if◌then◌else◌,
}
use ubod.Base.Exec.{Result, ok, err, pure, modify, on_err, ◌>>=◌}
use ubod.Base.Exec.Runs.{runs}
use ubod.Base.Foreign.{Foreign}
use ubod.Fs.World.{World, lookup, insert, log}
use ubod.Store.State.{DbState, StoreError}
use ubod.Admin.{AdminService, no_pin, store, on_vault, ensure}
use ubod.Admin.Pins.{
  check_lockout, refuse_locked, register_failure, reset_failures, admin_hash, login,
  verify_admin_pin, verify_destruction_pin, is_destruction_pin, validate_session, renew,
  store_session, logout, note,
}
use ubod.Admin.Destruction.{destroy}
use ubod.Admin.Lockout.{admin_hash_ok, check_free, at_time}
use ubod.Audit.Adds.{flush_calm}
use ubod.Fs.Files.Sealing.{lookup-insert, lookup-without}

module _ ⦃f : Foreign⦄ where
  abbrev opens : String → Option String → Bool
  opens pin none = false
  opens pin (some hash) = f.argon_verify pin hash

  -- Both PINs are the right ones.
  abbrev pub both_pins : String → String → DbState → Bool
  both_pins pin destruction_pin st =
      opens pin st.admin_pin_hash && is_destruction_pin destruction_pin st

  verify_admin_pin-vault :
      (pin : String) (s : AdminService) → (verify_admin_pin pin s).1.vault ≡ s.vault
  unfolding verify_admin_pin admin_hash check_lockout refuse_locked register_failure reset_failures
      ◌>>=◌
  verify_admin_pin-vault pin s = ground arith

  -- Without both PINs a destruction fails, and the database and the files are as they were: only the
  -- count of failures and the lock may have changed.
  pub destroy_double_control :
      (noise : ℕ → ℕ) (s : AdminService) (id pin destruction_pin why actor : String)
      → both_pins pin destruction_pin s.vault.db.state ≡ false
      → ((destroy noise id pin destruction_pin why actor s).1.vault ≡ s.vault)
        × ((destroy noise id pin destruction_pin why actor s).0 ≢ ok tt)
  unfolding destroy verify_admin_pin admin_hash check_lockout refuse_locked register_failure
      reset_failures verify_destruction_pin ensure ◌>>=◌
  destroy_double_control noise s id pin destruction_pin why actor h =
      (ground (arith, h), λ e. ground (arith, h, e))

  -- The service after an entry of the audit chain and a flush without faults.
  abbrev pub noted : String → String → String → String → AdminService → AdminService
  noted actor action subject detail s =
      let w : World = (log {E = StoreError} actor action subject detail s.vault).1 in
      record s { vault = record w { db = record w.db { saved = some w.db.state } } }

  pub note_calm :
      (actor action subject detail : String) (s : AdminService)
      → s.vault.faults ≡ []
      → s.vault.db.read_only ≡ false
      → note actor action subject detail s ≡ (ok tt, noted actor action subject detail s)
  unfolding note on_vault log modify
  note_calm actor action subject detail s calm writable =
      let w : World = (log {E = StoreError} actor action subject detail s.vault).1 in
      runs _ _ refl (
        ap
          (λ (r : Result StoreError (Unit {0}) × World).
            (on_err store r.0, record s { vault = r.1 }))
          (flush_calm w calm writable))

  -- The service after a login.
  abbrev logged_in : String → AdminService → AdminService
  logged_in token s = noted "admin" "login_ok" "admin" "sesión iniciada" (record s {
    pin_lockout = record s.pin_lockout { failures = 0 };
    sessions = insert token (s.vault.now + s.session_ttl_secs) s.sessions;
  })

  login_calm :
      (s : AdminService) (hash token pin : String)
      → s.vault.faults ≡ []
      → s.vault.db.read_only ≡ false
      → s.vault.db.state.admin_pin_hash ≡ some hash
      → s.pin_lockout.locked_until ≡ none
      → f.argon_verify pin hash ≡ true
      → login token pin s ≡ (ok token, logged_in token s)
  unfolding login reset_failures store_session modify pure
  login_calm s hash token pin calm writable set free right = runs _ _ (admin_hash_ok s hash set) (
      runs _ _ (check_free s free) (
        rw right
          (runs _ _ refl (runs _ _ refl (runs _ _ (note_calm _ _ _ _ _ calm writable) refl)))))

  session_at :
      (token : String) (exp : ℕ) (s : AdminService)
      → lookup token s.sessions ≡ some exp
      → (validate_session token s).0 ≡ (if ltb s.vault.now exp then ok tt else err no_pin)
  unfolding validate_session renew store_session ◌>>=◌
  session_at token exp s h = ground (arith, h)

  no_session :
      (token : String) (s : AdminService)
      → lookup token s.sessions ≡ none
      → (validate_session token s).0 ≡ err no_pin
  unfolding validate_session renew store_session ◌>>=◌
  no_session token s h = rw h refl

  -- On a system without faults, with a database that can be written and a PIN that is set, and when no
  -- lock has been set since the service started, the right PIN opens a session. It is accepted
  -- from then on until its time is over, and no more after that, nor after a logout.
  pub login-validate_session :
      (s : AdminService) (hash token pin : String)
      → s.vault.faults ≡ []
      → s.vault.db.read_only ≡ false
      → s.vault.db.state.admin_pin_hash ≡ some hash
      → s.pin_lockout.locked_until ≡ none
      → f.argon_verify pin hash ≡ true
      → (s' : AdminService) × (login token pin s ≡ (ok token, s'))
        × ((t : ℕ)
            → (validate_session token (at_time t s')).0
              ≡ (if ltb t (s.vault.now + s.session_ttl_secs) then ok tt else err no_pin))
        × ((t : ℕ) → (validate_session token (at_time t (logout token s'))).0 ≡ err no_pin)
  unfolding logout
  login-validate_session s hash token pin calm writable set free right =
      let exp = s.vault.now + s.session_ttl_secs in
      (
        logged_in token s,
        login_calm s hash token pin calm writable set free right,
        (λ t.
            session_at token exp (at_time t (logged_in token s))
              (lookup-insert token exp s.sessions)),
        (λ t.
            no_session token (at_time t (logout token (logged_in token s)))
              (lookup-without token _)),
      )

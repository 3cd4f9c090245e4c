-- ===== src/Admin/Lockout.antt =====
-- The progressive lock and the sessions of the administrator: crates/vault-admin/src/lib.rs.
use ubod.Base.{ℕ, ◌+◌, ◌-◌, ◌<◌, String, none, some, ◌≡◌, refl, arith}
use ubod.Base.Exec.{ok, err, ◌>>=◌}
use ubod.Base.Exec.Runs.{runs, stops}
use ubod.Base.Foreign.{Foreign}
use ubod.Admin.{AdminService, locked_out}
use ubod.Admin.Pins.{failed_once, check_lockout, refuse_locked, admin_hash, login, verify_admin_pin}
use ubod.Admin.Destruction.{destroy}

-- The service at another time.
abbrev pub at_time : ℕ → AdminService → AdminService
at_time t s = record s { vault = record s.vault { now = t } }

module _ ⦃f : Foreign⦄ where
  check_locked :
      (s : AdminService) (until : ℕ)
      → s.pin_lockout.locked_until ≡ some until
      → s.vault.now < until
      → check_lockout s ≡ (err (locked_out (until - s.vault.now + 1)), s)
  unfolding check_lockout refuse_locked ◌>>=◌
  check_locked s until h k = ground (arith, h, k)

  pub admin_hash_ok :
      (s : AdminService) (hash : String)
      → s.vault.db.state.admin_pin_hash ≡ some hash
      → admin_hash s ≡ (ok hash, s)
  unfolding admin_hash ◌>>=◌
  admin_hash_ok s hash h = rw h refl

  verify_locked :
      (s : AdminService) (until : ℕ) (hash pin : String)
      → s.vault.db.state.admin_pin_hash ≡ some hash
      → s.pin_lockout.locked_until ≡ some until
      → s.vault.now < until
      → verify_admin_pin pin s ≡ (err (locked_out (until - s.vault.now + 1)), s)
  unfolding verify_admin_pin
  verify_locked s until hash pin set h k =
      runs _ _ (admin_hash_ok s hash set) (stops _ _ (check_locked s until h k))

  -- While the lock lasts no PIN is even looked at: with the right one or a wrong one, an attempt to open
  -- a session or to destroy a document is refused with the time that is left, and changes nothing.
  pub locked_refuses :
      (noise : ℕ → ℕ) (s : AdminService) (until : ℕ) (hash : String)
      → s.vault.db.state.admin_pin_hash ≡ some hash
      → s.pin_lockout.locked_until ≡ some until
      → s.vault.now < until
      → (token pin id destruction_pin why actor : String)
      → (login token pin s ≡ (err (locked_out (until - s.vault.now + 1)), s))
        × (destroy noise id pin destruction_pin why actor s
            ≡ (err (locked_out (until - s.vault.now + 1)), s))
  unfolding login destroy
  locked_refuses noise s until hash set h k token pin id destruction_pin why actor = (
    runs _ _ (admin_hash_ok s hash set) (stops _ _ (check_locked s until h k)),
    stops _ _ (verify_locked s until hash pin set h k),
  )

  pub check_free :
      (s : AdminService) → s.pin_lockout.locked_until ≡ none → check_lockout s ≡ (ok tt, s)
  unfolding check_lockout refuse_locked ◌>>=◌
  check_free s h = rw h refl

  -- The state after one more failure.
  abbrev pub failed : AdminService → AdminService
  failed s = record s { pin_lockout = failed_once s.vault.now s.pin_lockout }

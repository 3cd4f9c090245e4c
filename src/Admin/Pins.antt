-- ===== src/Admin/Pins.antt =====
-- crates/vault-admin/src/lib.rs: the two PINs, the progressive lock, and the sessions.
use ubod.Base.{
  ℕ, ◌+◌, ◌-◌, ◌*◌, ◌%◌, ◌^◌, min, String, Bool, not, ◌&&◌, if◌then◌else◌, Option, none, some, ltb,
  length,
}
use ubod.Base.Exec.{Exec, pure, raise, gets, modify, or_raise, ◌>>=◌, ◌>>◌}
use ubod.Base.Foreign.{Foreign}
use ubod.Base.Text.{as_bytes, has, is_ascii_digit}
use ubod.Fs.World.{lookup, without, insert, on_state, log, flush}
use ubod.Roles.Users.{draw}
use ubod.Store.State.{DbState}
use ubod.Store.Users.{set_admin_pin_hash, get_extra, set_extra}
use ubod.Admin.{
  AdminError, AdminService, LockoutState, wrong_pin, no_pin, destruction_pin_required, locked_out,
  store, on_vault, ensure,
}

-- `next_lockout`, in the 64 bits of its result.
unfoldable pub next_lockout : LockoutState → ℕ
next_lockout st = 5 * min (2 ^ (st.failures - 3)) 18446744073709551615 % 18446744073709551616

-- `remaining_secs`
unfoldable pub remaining_secs : ℕ → LockoutState → ℕ
remaining_secs now st = elim st.locked_until [
  | none ↦ 0
  | some until ↦ if ltb now until then until - now + 1 else 0
]

unfoldable pub is_strong_enough : String → Bool
is_strong_enough pin = not (ltb (length (as_bytes pin)) 6) && has is_ascii_digit pin

-- An error while the lock lasts.
unfoldable pub refuse_locked : ℕ → Option ℕ → Exec AdminService AdminError (Unit {0})
refuse_locked now none = pure tt
refuse_locked now (some until) =
    if ltb now until then raise (locked_out (until - now + 1)) else pure tt

unfoldable pub check_lockout : Exec AdminService AdminError (Unit {0})
check_lockout = do
  now ← gets (λ s. s.vault.now)
  until ← gets (λ s. s.pin_lockout.locked_until)
  refuse_locked now until

-- The lock after one more failure.
unfoldable pub failed_once : ℕ → LockoutState → LockoutState
failed_once now st =
    let more = record st { failures = (st.failures + 1) % 4294967296 } in
    if ltb 3 more.failures
    then record more { locked_until = some (now + next_lockout more) }
    else more

unfoldable pub register_failure : Exec AdminService AdminError (Unit {0})
register_failure = modify λ s. record s { pin_lockout = failed_once s.vault.now s.pin_lockout }

unfoldable pub reset_failures : Exec AdminService AdminError (Unit {0})
reset_failures = modify λ s. record s { pin_lockout = record s.pin_lockout { failures = 0 } }

-- The session of the token, for its whole time from now on.
unfoldable pub store_session : String → Exec AdminService AdminError (Unit {0})
store_session token =
    modify λ s. record s { sessions = insert token (s.vault.now + s.session_ttl_secs) s.sessions }

unfoldable pub admin_hash : Exec AdminService AdminError String
admin_hash = do found ← gets (λ s. s.vault.db.state.admin_pin_hash); or_raise found no_pin

module _ ⦃f : Foreign⦄ where
  -- An entry of the audit chain, and the flush.
  unfoldable pub note : String → String → String → String → Exec AdminService AdminError (Unit {0})
  note actor action subject detail = do
    on_vault store (log actor action subject detail)
    on_vault store flush

  -- `hash_pin` with the next salt
  unfoldable pub hash_pin : String → Exec AdminService AdminError String
  hash_pin pin = do salt ← on_vault store draw; pure (f.argon_hash salt pin)

  -- The current PIN, where there is one.
  unfoldable pub check_current :
      Option String → Option String → Exec AdminService AdminError (Unit {0})
  check_current none current = pure tt
  check_current (some hash) current = do
    pin ← or_raise current wrong_pin
    check_lockout
    if f.argon_verify pin hash then pure tt else do register_failure; raise wrong_pin

  unfoldable pub set_admin_pin : Option String → String → Exec AdminService AdminError (Unit {0})
  set_admin_pin current new_pin = do
    ensure (is_strong_enough new_pin) wrong_pin
    hash ← gets (λ s. s.vault.db.state.admin_pin_hash)
    check_current hash current
    new_hash ← hash_pin new_pin
    on_vault store (on_state (set_admin_pin_hash new_hash))
    note "admin" "set_pin" "admin" "PIN configurado/restablecido"

  -- `token` is what `new_session_token` draws.
  unfoldable pub login : String → String → Exec AdminService AdminError String
  login token pin = do
    hash ← admin_hash
    check_lockout
    if f.argon_verify pin hash
        then (do
          reset_failures
          store_session token
          note "admin" "login_ok" "admin" "sesión iniciada"
          pure token)
        else do
          register_failure
          note "admin" "login_failed" "admin" "PIN incorrecto"
          raise wrong_pin

  unfoldable pub verify_admin_pin : String → Exec AdminService AdminError (Unit {0})
  verify_admin_pin pin = do
    hash ← admin_hash
    check_lockout
    if f.argon_verify pin hash then reset_failures else do register_failure; raise wrong_pin

  unfoldable pub is_destruction_pin : String → DbState → Bool
  is_destruction_pin pin st = elim (get_extra "destruction_pin_hash" st.settings) [
    | none ↦ Bool.false
    | some hash ↦ f.argon_verify pin hash
  ]

  unfoldable pub verify_destruction_pin : String → Exec AdminService AdminError (Unit {0})
  verify_destruction_pin pin = do
    right ← gets (λ s. is_destruction_pin pin s.vault.db.state)
    ensure right destruction_pin_required

-- Renews a session that has not expired.
unfoldable pub renew : String → ℕ → Option ℕ → Exec AdminService AdminError (Unit {0})
renew token now none = raise no_pin
renew token now (some exp) = if ltb now exp then store_session token else raise no_pin

unfoldable pub validate_session : String → Exec AdminService AdminError (Unit {0})
validate_session token = do
  now ← gets (λ s. s.vault.now)
  exp ← gets (λ s. lookup token s.sessions)
  renew token now exp

unfoldable pub logout : String → AdminService → AdminService
logout token s = record s { sessions = without token s.sessions }

module _ ⦃f : Foreign⦄ where
  unfoldable pub set_destruction_pin : String → String → Exec AdminService AdminError (Unit {0})
  set_destruction_pin session new_pin = do
    validate_session session
    ensure (is_strong_enough new_pin) wrong_pin
    hash ← hash_pin new_pin
    on_vault store
        (on_state λ st. record st { settings = set_extra "destruction_pin_hash" hash st.settings })
    note "admin" "set_destruction_pin" "admin" "PIN de destrucción configurado"

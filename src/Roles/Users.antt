-- ===== src/Roles/Users.antt =====
-- crates/vault-roles/src/lib.rs: users and their PINs, outside the audit chain, and the login.
use ubod.Base.{
  ℕ, ◌+◌, String, Bool, not, ◌||◌, if◌then◌else◌, none, some, ◌==◌, string_eq, ltb, true, length,
}
use ubod.Base.Exec.{Exec, pure, gets, or_raise, ok, ◌>>=◌, ◌>>◌}
use ubod.Base.Foreign.{Foreign, to_lowercase}
use ubod.Base.Text.{trim, as_bytes}
use ubod.Core.Records.{User}
use ubod.Core.Role.{Role}
use ubod.Fs.World.{World, on_state, now_text}
use ubod.Store.Users.{find_user, upsert_user as put_user}
use ubod.Roles.{
  RoleError, bad_credentials, disabled, not_found, Session, guard, require_writable, save,
}

-- `find_user(username).cloned().ok_or(e)?`
unfoldable pub the_user : String → RoleError → Exec World RoleError User
the_user name e = do found ← gets (λ w. find_user name w.db.state); or_raise found e

-- The next random numbers.
unfoldable pub draw : {E : Type 0} → Exec World E ℕ
draw w = (ok w.drawn, record w { drawn = w.drawn + 1 })

-- `str::len`, in bytes
unfoldable pub byte_len : String → ℕ
byte_len s = length (as_bytes s)

-- The upsert and the flush that end each change of a user.
unfoldable pub store_user : User → Exec World RoleError (Unit {0})
store_user u = do on_state (put_user u); save

module _ ⦃f : Foreign⦄ where
  unfoldable pub set_user_pin : String → String → Exec World RoleError (Unit {0})
  set_user_pin name pin = do
    guard (not (ltb (byte_len pin) 6)) bad_credentials
    require_writable
    user ← the_user name (not_found name)
    salt ← draw
    store_user (record user { pin_hash = f.argon_hash salt pin })

  unfoldable pub set_user_enabled : String → Bool → Exec World RoleError (Unit {0})
  set_user_enabled name enabled = do
    require_writable
    user ← the_user name (not_found name)
    store_user (record user { enabled = enabled })

  unfoldable pub upsert_user_with_pin :
      String → String → Role → String → Exec World RoleError (Unit {0})
  upsert_user_with_pin name display role pin =
      let username = to_lowercase (trim name) in
      do
        guard (not (username == "" || ltb (byte_len pin) 6)) bad_credentials
        salt ← draw
        now ← gets now_text
        store_user (record {
          username = username;
          display_name = trim display;
          role = role;
          pin_hash = f.argon_hash salt pin;
          created_at = now;
          last_login = none;
          enabled = true;
        })

  unfoldable pub upsert_user : String → String → Role → String → Exec World RoleError (Unit {0})
  upsert_user name display role pin = do
    require_writable
    upsert_user_with_pin name display role pin

  -- `verify_pin`
  unfoldable pub verify_pin : String → String → Bool
  verify_pin pin hash = f.argon_verify pin hash

  -- The last login is only noted by an instance that can write.
  unfoldable pub note_login : User → Exec World RoleError (Unit {0})
  note_login user = do
    read_only ← gets (λ w. w.db.read_only)
    now ← gets now_text
    if read_only then pure tt else store_user (record user { last_login = some now })

  unfoldable pub login : String → String → Exec World RoleError Session
  login name password = do
    user ← the_user name bad_credentials
    guard user.enabled disabled
    guard (verify_pin password user.pin_hash) bad_credentials
    note_login user
    pure (record { username = user.username; display_name = user.display_name; role = user.role })

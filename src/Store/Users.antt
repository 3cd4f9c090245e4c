-- ===== src/Store/Users.antt =====
-- crates/vault-store/src/lib.rs: users, devices, the administrator's PIN and the settings.
use ubod.Base.{String, Option, none, some, [], ◌∷◌, ◌++◌}
use ubod.Base.{◌==◌, string_eq, if◌then◌else◌, find, remove_first, update_first, any}
use ubod.Base.Text.{eq_ignore_ascii_case}
use ubod.Core.Records.{User}
use ubod.Store.Documents.{map_insert, map_get}
use ubod.Store.State.{DbState, DeviceRecord, Settings}

unfoldable pub find_user : String → DbState → Option User
find_user name st = find (λ u. eq_ignore_ascii_case u.username name) st.users

unfoldable pub upsert_user : User → DbState → DbState
upsert_user user st = record st {
  users =
      if any (λ u. u.username == user.username) st.users
      then update_first (λ u. u.username == user.username) (λ _. user) st.users
      else st.users ++ user ∷ [];
}

unfoldable pub remove_user : String → DbState → Option User × DbState
unfolding find_user
remove_user name st = elim (find_user name st) [
  | none ↦ (none, st)
  | some u ↦ (
    some u,
    record st { users = remove_first (λ u. eq_ignore_ascii_case u.username name) st.users },
  )
]

unfoldable pub upsert_device : DeviceRecord → DbState → DbState
upsert_device dev st = record st {
  devices =
      if any (λ d. d.device_id == dev.device_id) st.devices
      then update_first (λ d. d.device_id == dev.device_id) (λ _. dev) st.devices
      else st.devices ++ dev ∷ [];
}

unfoldable pub device_by_fingerprint : String → DbState → Option DeviceRecord
device_by_fingerprint fp st = find (λ d. d.cert_fingerprint == fp) st.devices

unfoldable pub set_admin_pin_hash : String → DbState → DbState
set_admin_pin_hash hash st = record st { admin_pin_hash = some hash }

-- `SettingsExt` of crates/vault-admin/src/lib.rs
unfoldable pub get_extra : String → Settings → Option String
get_extra key s = map_get key s.extra

unfoldable pub set_extra : String → String → Settings → Settings
set_extra key value s = record s { extra = map_insert key value s.extra }

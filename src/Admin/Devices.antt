-- ===== src/Admin/Devices.antt =====
-- crates/vault-admin/src/lib.rs: the devices that may send documents.
use ubod.Base.{String, Bool}
use ubod.Base.Exec.{Exec, gets, ◌>>=◌, ◌>>◌}
use ubod.Base.Foreign.{Foreign}
use ubod.Fs.World.{on_state, now_text}
use ubod.Store.Users.{upsert_device}
use ubod.Admin.{AdminError, AdminService, store, on_vault}
use ubod.Admin.Pins.{note}

module _ ⦃f : Foreign⦄ where
  unfoldable pub pair_device : String → String → String → Exec AdminService AdminError (Unit {0})
  pair_device device_id fingerprint actor = do
    now ← gets (λ s. now_text s.vault)
    on_vault store (
        on_state (
          upsert_device (record {
            device_id = device_id;
            cert_fingerprint = fingerprint;
            paired_at = now;
            enabled = Bool.true;
          })))
    note actor "pair_device" device_id "dispositivo emparejado"

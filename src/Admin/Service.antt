-- ===== src/Admin/Service.antt =====
-- crates/vault-admin/src/lib.rs: the methods of `AdminService` that take `&mut self`, as requests, and
-- a history of them. The codes for pairing are not among them.
use ubod.Base.{ℕ, String, Option, List, [], ◌∷◌}
use ubod.Base.Exec.{Exec, pure, ◌>>◌}
use ubod.Base.Foreign.{Foreign}
use ubod.Admin.{AdminError, AdminService}
use ubod.Admin.Pins.{set_admin_pin, login, validate_session, set_destruction_pin}
use ubod.Admin.Destruction.{destroy, process_due_destructions}
use ubod.Admin.Devices.{pair_device}
use ubod.Admin.Admission.{reject}
use ubod.Admin.Sealing.{Outside}
use ubod.Admin.Admit.{admit}
use ubod.Index.Rules.{Ruleset}

pub data AdminRequest : Type 0 where
  to_set_admin_pin : Option String → String → AdminRequest
  to_log_in : String → String → AdminRequest
  to_validate : String → AdminRequest
  to_set_destruction_pin : String → String → AdminRequest
  to_destroy : String → String → String → String → String → AdminRequest
  to_process_due : String → AdminRequest
  to_reject : String → String → String → AdminRequest
  to_pair : String → String → String → AdminRequest
  to_admit : String → String → AdminRequest

module _ ⦃f : Foreign⦄ (noise : ℕ → ℕ) (out : Outside) (rules : Ruleset) where
  unfoldable pub administer : AdminRequest → Exec AdminService AdminError (Unit {0})
  administer (to_set_admin_pin current pin) = set_admin_pin current pin
  administer (to_log_in token pin) = do login token pin; pure tt
  administer (to_validate token) = validate_session token
  administer (to_set_destruction_pin session pin) = set_destruction_pin session pin
  administer (to_destroy id pin destruction_pin why actor) =
      destroy noise id pin destruction_pin why actor
  administer (to_process_due actor) = do process_due_destructions noise actor; pure tt
  administer (to_reject id reason actor) = reject id reason actor
  administer (to_pair device_id fingerprint actor) = pair_device device_id fingerprint actor
  administer (to_admit id actor) = do admit out rules id actor; pure tt

  unfoldable pub administer_all : List AdminRequest → AdminService → AdminService
  administer_all [] s = s
  administer_all (r ∷ rs) s = administer_all rs (administer r s).1

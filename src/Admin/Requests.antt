-- ===== src/Admin/Requests.antt =====
-- Properties of the database that hold through destructions and any sequence of requests to `AdminService`:
-- crates/vault-admin/src/lib.rs.
use ubod.Base.{ℕ, String, List, [], ◌∷◌}
use ubod.Base.Exec.Keeps.{Keeps, Keeps-bind, keeps_rules}
use ubod.Base.Foreign.{Foreign}
use ubod.Core.Records.{Document}
use ubod.Fs.Kept.{world_rules}
use ubod.Store.State.{DbState}
use ubod.Admin.{AdminService}
use ubod.Admin.Destruction.{
  destroy, wipe_document, execute_destruction, schedule, destroy_each, process_due_destructions,
}
use ubod.Admin.Service.{
  AdminRequest, administer, administer_all, to_set_admin_pin, to_log_in, to_validate,
  to_set_destruction_pin, to_destroy, to_process_due, to_reject, to_pair, to_admit,
}
use ubod.Admin.Sealing.{Outside}
use ubod.Admin.Sealed.{IsCustody}
use ubod.Admin.Admitted.{Keeps-admit}
use ubod.Index.Rules.{Ruleset}
use ubod.Admin.Kept.{
  IsKept, OnVault, Keeps-on_vault, Keeps-plan, Keeps-forget, Keeps-removal, Keeps-note,
  Keeps-set_admin_pin, Keeps-login, Keeps-verify_admin_pin, Keeps-verify_destruction_pin,
  Keeps-validate_session, Keeps-set_destruction_pin, Keeps-pair_device, Keeps-reject,
}

module _ ⦃f : Foreign⦄ {P : DbState → Type 0} (k : IsKept P) (noise : ℕ → ℕ) where
  Keeps-wipe_document : (d : Document) → Keeps (OnVault P) (wipe_document noise d)
  unfolding wipe_document
  Keeps-wipe_document d = search (world_rules, Keeps-on_vault) depth 12

  Keeps-execute_destruction :
      (d : Document) (why actor : String)
      → Keeps (OnVault P) (execute_destruction noise d why actor)
  unfolding execute_destruction
  Keeps-execute_destruction d why actor =
      search (world_rules, Keeps-on_vault, Keeps-wipe_document, Keeps-note k.apart, Keeps-removal k)
        depth 16

  Keeps-schedule :
      (id : String) (d : Document) (t : ℕ) (why actor : String)
      → Keeps (OnVault P) (schedule noise id d t why actor)
  unfolding schedule
  Keeps-schedule id d t why actor = search (keeps_rules, Keeps-plan, Keeps-note k.apart)

  pub Keeps-destroy :
      (id pin destruction_pin why actor : String)
      → Keeps (OnVault P) (destroy noise id pin destruction_pin why actor)
  unfolding destroy
  Keeps-destroy id pin destruction_pin why actor =
      search
        (
          keeps_rules,
          Keeps-verify_admin_pin k,
          Keeps-verify_destruction_pin k,
          Keeps-schedule,
          Keeps-execute_destruction,
        )
        depth 16

  Keeps-destroy_each :
      (actor : String) (docs : List (String × Document))
      → Keeps (OnVault P) (destroy_each noise actor docs)
  unfolding destroy_each
  Keeps-destroy_each actor [] = search keeps_rules
  Keeps-destroy_each actor ((id, d) ∷ docs) = Keeps-bind _ _ (Keeps-forget id) (λ _.
      Keeps-bind _ _ (Keeps-execute_destruction d _ actor) (λ _. Keeps-destroy_each actor docs))

  Keeps-process_due_destructions :
      (actor : String) → Keeps (OnVault P) (process_due_destructions noise actor)
  unfolding process_due_destructions
  Keeps-process_due_destructions actor = search (keeps_rules, Keeps-destroy_each)

module _ ⦃f : Foreign⦄ {P : DbState → Type 0} (custody : IsCustody P) (noise : ℕ → ℕ)
    (out : Outside) (rules : Ruleset) where
  Keeps-administer : (r : AdminRequest) → Keeps (OnVault P) (administer noise out rules r)
  unfolding administer
  Keeps-administer (to_set_admin_pin current pin) = Keeps-set_admin_pin custody.kept current pin
  Keeps-administer (to_log_in token pin) = search (keeps_rules, Keeps-login custody.kept)
  Keeps-administer (to_validate token) = Keeps-validate_session custody.kept token
  Keeps-administer (to_set_destruction_pin session pin) =
      Keeps-set_destruction_pin custody.kept session pin
  Keeps-administer (to_destroy id pin destruction_pin why actor) =
      Keeps-destroy custody.kept noise id pin destruction_pin why actor
  Keeps-administer (to_process_due actor) =
      search (keeps_rules, Keeps-process_due_destructions custody.kept noise)
  Keeps-administer (to_reject id reason actor) = Keeps-reject custody.kept id reason actor
  Keeps-administer (to_pair device_id fingerprint actor) =
      Keeps-pair_device custody.kept.apart device_id fingerprint actor
  Keeps-administer (to_admit id actor) = search (keeps_rules, Keeps-admit custody out rules)

  pub Keeps-administer_all :
      (rs : List AdminRequest) (s : AdminService)
      → OnVault P s
      → OnVault P (administer_all noise out rules rs s)
  unfolding administer_all
  Keeps-administer_all [] s h = h
  Keeps-administer_all (r ∷ rs) s h =
      Keeps-administer_all rs (administer noise out rules r s).1 ((Keeps-administer r).at s h)

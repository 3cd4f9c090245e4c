-- ===== src/Fs/Kept.antt =====
-- Properties of the database in memory under the calls of the system, which leave it alone, and under
-- the audit log, in the words of Base/Exec/Keeps: crates/vault-fs/src/lib.rs and
-- crates/vault-store/src/lib.rs.
use ubod.Base.{ℕ, String, Bool, List, Option, none, some, ◌≡◌, refl, sym, subst, arith}
use ubod.Base.Exec.{Exec, modify}
use ubod.Base.Exec.Keeps.{Keeps, Keeps-modify, keeps_rules}
use ubod.Base.Foreign.{Foreign}
use ubod.Fs.World.{World, File, attempt, call, on_state, log, flush, save_state}
use ubod.Fs.Files.{
  put_file, drop_file, metadata, open_file, check_target, may_replace, set_permissions, rename_file,
  copy_file, read_file, chattr_immutable, seal_file, unseal_file, write_file, remove_file,
  wipe_pass, secure_wipe,
}
use ubod.Store.State.{DbState}
use ubod.Store.Audit.{append_audit}

-- A property of the database in memory, of the world.
pub record OnState (P : DbState → Type 0) (w : World) : Type 0 where
  pub kept : P w.db.state

module _ {E : Type 0} {P : DbState → Type 0} where
  pub Keeps-same :
      {A : Type 0} (m : Exec World E A)
      → ((w : World) → (m w).1.db.state ≡ w.db.state)
      → Keeps (OnState P) m
  Keeps-same m same = record { at = λ w h. record { kept = subst P (sym (same w)) h.kept } }

module _ (E : Type 0) where
  attempt-state : (w : World) → (attempt {E = E} w).1.db.state ≡ w.db.state
  unfolding attempt
  attempt-state w = ground arith

module _ {E : Type 0} {P : DbState → Type 0} where
  pub Keeps-attempt : Keeps {E = E} (OnState P) attempt
  Keeps-attempt = Keeps-same attempt (attempt-state E)

  pub Keeps-call : (e : E) → Keeps (OnState P) (call e)
  unfolding call
  Keeps-call e = search (keeps_rules, Keeps-attempt)

  pub Keeps-put_file :
      (e : E) (path : String) (file : File) → Keeps (OnState P) (put_file e path file)
  unfolding put_file modify
  Keeps-put_file e path file = Keeps-same _ (λ w. refl)

  pub Keeps-drop_file : (e : E) (path : String) → Keeps (OnState P) (drop_file e path)
  unfolding drop_file modify
  Keeps-drop_file e path = Keeps-same _ (λ w. refl)

  pub Keeps-on_state :
      (g : DbState → DbState)
      → ((st : DbState) → P st → P (g st))
      → Keeps {E = E} (OnState P) (on_state g)
  unfolding on_state
  Keeps-on_state g k = Keeps-modify _ (λ w h. record { kept = k w.db.state h.kept })

  pub ruleset call_rules = (keeps_rules, Keeps-attempt, Keeps-call, Keeps-put_file, Keeps-drop_file)

  pub Keeps-metadata : (e : E) (path : String) → Keeps (OnState P) (metadata e path)
  unfolding metadata
  Keeps-metadata e path = search call_rules

  pub Keeps-open_file : (e : E) (path : String) → Keeps (OnState P) (open_file e path)
  unfolding open_file
  Keeps-open_file e path = search (call_rules, Keeps-metadata)

  Keeps-may_replace : (e : E) (found : Option File) → Keeps (OnState P) (may_replace e found)
  unfolding may_replace
  Keeps-may_replace e none = search call_rules
  Keeps-may_replace e (some file) = search call_rules

  pub Keeps-check_target : (e : E) (path : String) → Keeps (OnState P) (check_target e path)
  unfolding check_target
  Keeps-check_target e path = search (call_rules, Keeps-may_replace)

  ruleset target_rules = (call_rules, Keeps-metadata, Keeps-open_file, Keeps-check_target)

  pub Keeps-set_permissions :
      (e : E) (path : String) (mode : ℕ) → Keeps (OnState P) (set_permissions e path mode)
  unfolding set_permissions
  Keeps-set_permissions e path mode = search target_rules

  pub Keeps-read_file : (e : E) (path : String) → Keeps (OnState P) (read_file e path)
  unfolding read_file
  Keeps-read_file e path = search target_rules

  pub Keeps-rename_file : (e : E) (src dst : String) → Keeps (OnState P) (rename_file e src dst)
  unfolding rename_file
  Keeps-rename_file e src dst = search target_rules

  pub Keeps-copy_file : (e : E) (src dst : String) → Keeps (OnState P) (copy_file e src dst)
  unfolding copy_file
  Keeps-copy_file e src dst = search target_rules

  pub Keeps-write_file :
      (e : E) (path : String) (content : List ℕ) → Keeps (OnState P) (write_file e path content)
  unfolding write_file
  Keeps-write_file e path content = search target_rules

  pub Keeps-remove_file : (e : E) (path : String) → Keeps (OnState P) (remove_file e path)
  unfolding remove_file
  Keeps-remove_file e path = search target_rules

module _ {P : DbState → Type 0} where
  pub Keeps-chattr_immutable :
      (path : String) (on : Bool) → Keeps (OnState P) (chattr_immutable path on)
  unfolding chattr_immutable
  Keeps-chattr_immutable path on = search (call_rules, Keeps-metadata)

  ruleset seal_rules = (call_rules, Keeps-metadata, Keeps-set_permissions, Keeps-chattr_immutable)

  pub Keeps-seal_file : (path : String) → Keeps (OnState P) (seal_file path)
  unfolding seal_file
  Keeps-seal_file path = search seal_rules

  pub Keeps-unseal_file : (path : String) → Keeps (OnState P) (unseal_file path)
  unfolding unseal_file
  Keeps-unseal_file path = search seal_rules

  Keeps-wipe_pass : (path : String) (g : ℕ → ℕ) → Keeps (OnState P) (wipe_pass path g)
  unfolding wipe_pass
  Keeps-wipe_pass path g = search (call_rules, Keeps-open_file)

  pub Keeps-secure_wipe :
      (noise : ℕ → ℕ) (path : String) → Keeps (OnState P) (secure_wipe noise path)
  unfolding secure_wipe
  Keeps-secure_wipe noise path =
      search (call_rules, Keeps-open_file, Keeps-wipe_pass, Keeps-remove_file) depth 12

  Keeps-save_state : Keeps (OnState P) save_state
  unfolding save_state modify
  Keeps-save_state = Keeps-same _ (λ w. refl)

  pub Keeps-flush : Keeps (OnState P) flush
  unfolding flush
  Keeps-flush = search (call_rules, Keeps-save_state) depth 12

  pub Keeps-log :
      {E : Type 0} ⦃f : Foreign⦄ (actor action subject detail : String)
      → ((now : String) (st : DbState)
          → P st
          → P (append_audit now actor action subject detail st).1)
      → Keeps {E = E} (OnState P) (log actor action subject detail)
  unfolding log
  Keeps-log actor action subject detail k =
      Keeps-modify _ (λ w h. record { kept = k _ w.db.state h.kept })

pub ruleset world_rules = (
  keeps_rules, Keeps-attempt, Keeps-call, Keeps-put_file, Keeps-drop_file, Keeps-metadata,
  Keeps-open_file, Keeps-check_target, Keeps-set_permissions, Keeps-read_file, Keeps-rename_file,
  Keeps-copy_file, Keeps-seal_file, Keeps-unseal_file, Keeps-flush, Keeps-write_file,
  Keeps-remove_file, Keeps-secure_wipe,
)

-- ===== src/Admin/Effect.antt =====
-- The full effect of a destruction: crates/vault-admin/src/lib.rs.
use ubod.Base.{
  ℕ, ◌+◌, ltb, if◌then◌else◌, String, true, false, none, some, [], ◌≡◌, ◌≢◌, refl, ap, ◌∙◌,
}
use ubod.Base.Exec.{ok, pure, gets, or_raise, modify}
use ubod.Base.Exec.Runs.{runs}
use ubod.Base.Foreign.{Foreign}
use ubod.Base.Text.{as_bytes}
use ubod.Core.Records.{Document}
use ubod.Fs.World.{File, lookup, now_text}
use ubod.Fs.Files.Sealing.{sealed, lookup-insert}
use ubod.Fs.Files.Wiping.{written}
use ubod.Fs.Paths.{abs_path}
use ubod.Store.Documents.{find_by_vault_id}
use ubod.Admin.{AdminService, ensure}
use ubod.Admin.Lockout.{admin_hash_ok, check_free}
use ubod.Admin.Pins.{verify_admin_pin, verify_destruction_pin, is_destruction_pin, reset_failures}
use ubod.Admin.Destruction.{destroy, schedule, execute_destruction, tombstone_text, tombstone_path}
use ubod.Admin.Executed.{destroyed_state, after, execute_calm, lookup-doomed, after_other}

module _ ⦃f : Foreign⦄ (s : AdminService) (hash pin destruction_pin : String)
    (set : s.vault.db.state.admin_pin_hash ≡ some hash) (free : s.pin_lockout.locked_until ≡ none)
    (right : f.argon_verify pin hash ≡ true)
    (second : is_destruction_pin destruction_pin s.vault.db.state ≡ true) where
  -- The service after both PINs.
  abbrev pub let_in : AdminService
  let_in = record s { pin_lockout = record s.pin_lockout { failures = 0 } }

  verify_admin_pin_ok : verify_admin_pin pin s ≡ (ok tt, let_in)
  unfolding verify_admin_pin reset_failures modify
  verify_admin_pin_ok =
      runs _ _ (admin_hash_ok s hash set) (runs _ _ (check_free s free) (rw right refl))

  verify_destruction_pin_ok : verify_destruction_pin destruction_pin let_in ≡ (ok tt, let_in)
  unfolding verify_destruction_pin ensure gets pure
  verify_destruction_pin_ok = runs _ _ refl (rw second refl)

  module _ (noise : ℕ → ℕ) (id why actor : String) (doc : Document)
      (indexed : find_by_vault_id id s.vault.db.state ≡ some doc) where
    pub destroy_ok :
        destroy noise id pin destruction_pin why actor s
        ≡ (if ltb 0 s.vault.db.state.settings.destruction_grace_secs
              then schedule noise id doc
                  (s.vault.now + s.vault.db.state.settings.destruction_grace_secs)
                  why
                  actor
              else execute_destruction noise doc why actor)
            let_in
    unfolding destroy gets or_raise pure
    destroy_ok = runs _ _ verify_admin_pin_ok (
        runs _ _ verify_destruction_pin_ok
          (runs _ _ refl (rw indexed (runs _ _ refl (runs _ _ refl (runs _ _ refl refl))))))

    pub destroy_effect :
        (file : File)
        → s.vault.faults ≡ []
        → s.vault.db.read_only ≡ false
        → s.vault.db.state.settings.destruction_grace_secs ≡ 0
        → lookup (abs_path s.vault.root doc.rel_path) s.vault.files ≡ some file
        → lookup (tombstone_path s.vault.root doc) s.vault.files ≡ none
        → (s' : AdminService) × (destroy noise id pin destruction_pin why actor s ≡ (ok tt, s'))
          × (lookup (abs_path s.vault.root doc.rel_path) s'.vault.files ≡ none)
          × (lookup (tombstone_path s.vault.root doc) s'.vault.files
              ≡ some
                  (sealed (written (as_bytes (tombstone_text doc why (now_text s.vault) actor)))))
          × ((p : String)
              → p ≢ abs_path s.vault.root doc.rel_path
              → p ≢ tombstone_path s.vault.root doc
              → lookup p s'.vault.files ≡ lookup p s.vault.files)
          × (s'.vault.db ≡ record s.vault.db {
            state = destroyed_state let_in doc why actor;
            saved = some (destroyed_state let_in doc why actor);
          })
    destroy_effect file calm writable no_grace found absent = (
      after noise let_in doc file calm why actor,
      destroy_ok
          ∙ ap
              (λ (g : ℕ).
                (if ltb 0 g
                    then schedule noise id doc (s.vault.now + g) why actor
                    else execute_destruction noise doc why actor)
                  let_in)
              no_grace
          ∙ execute_calm noise let_in doc file calm writable found absent why actor,
      lookup-doomed noise let_in doc file calm writable found absent why actor,
      lookup-insert _ _ _,
      after_other noise let_in doc file calm why actor,
      refl,
    )

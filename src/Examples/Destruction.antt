-- ===== src/Examples/Destruction.antt =====
-- Examples for the destruction of documents: crates/vault-admin/src/lib.rs.
use ubod.Base.{ℕ, ◌+◌, ◌<◌, ◌≤◌, String, true, some, none, [], ◌∷◌, ◌≡◌, ◌≢◌, refl, arith}
use ubod.Base.Exec.{ok, ◌>>◌}
use ubod.Base.Text.{as_bytes}
use ubod.Fs.World.{lookup, now_text}
use ubod.Fs.Files.Sealing.{sealed}
use ubod.Fs.Files.Wiping.{written}
use ubod.Fs.Paths.{abs_path}
use ubod.Store.Documents.{find_by_vault_id}
use ubod.Store.Users.{get_extra}
use ubod.Admin.{AdminService, new_service}
use ubod.Admin.Pins.{is_destruction_pin}
use ubod.Admin.Destruction.{
  destroy, process_due_destructions, execute_destruction, tombstone_text, tombstone_path,
}
use ubod.Admin.Executed.{destroyed_state}
use ubod.Admin.Effect.{destroy_effect}
use ubod.Admin.Grace.{destroy_grace, one_done}
use ubod.Admin.Lockout.{at_time}
use ubod.Examples.{toy, a_world, a_document, a_file}

-- A vault with both PINs, and the seconds of grace that are given.
abbrev armed : ℕ → AdminService
armed grace = new_service (record a_world {
  db = record a_world.db {
    state = record a_world.db.state {
      admin_pin_hash = some "0secret1";
      settings = record a_world.db.state.settings {
        destruction_grace_secs = grace;
        extra = ("destruction_pin_hash", "0other22") ∷ [];
      };
    };
  };
})

second_pin : (grace : ℕ) → is_destruction_pin "other22" (armed grace).vault.db.state ≡ true
unfolding is_destruction_pin get_extra lookup
second_pin grace = refl

in_index : (grace : ℕ) → find_by_vault_id "d1" (armed grace).vault.db.state ≡ some a_document
unfolding find_by_vault_id
in_index grace = refl

there : lookup (abs_path "/v" a_document.rel_path) (armed 0).vault.files ≡ some a_file
unfolding lookup abs_path
there = refl

no_tombstone : lookup (tombstone_path "/v" a_document) (armed 0).vault.files ≡ none
unfolding lookup abs_path
no_tombstone = refl

destroy_effect_example :
    (s' : AdminService) × (destroy (λ i. i) "d1" "secret1" "other22" "old" "eva" (armed 0)
      ≡ (ok tt, s'))
    × (lookup (abs_path "/v" a_document.rel_path) s'.vault.files ≡ none)
    × (lookup (tombstone_path "/v" a_document) s'.vault.files
        ≡ some (
            sealed (
              written
                (as_bytes (tombstone_text a_document "old" (now_text (armed 0).vault) "eva")))))
    × ((p : String)
        → p ≢ abs_path "/v" a_document.rel_path
        → p ≢ tombstone_path "/v" a_document
        → lookup p s'.vault.files ≡ lookup p (armed 0).vault.files)
    × (s'.vault.db ≡ record (armed 0).vault.db {
      state = destroyed_state (armed 0) a_document "old" "eva";
      saved = some (destroyed_state (armed 0) a_document "old" "eva");
    })
destroy_effect_example =
    destroy_effect (armed 0) "0secret1" "secret1" "other22" refl refl refl (second_pin 0) (λ i. i)
      "d1" "old" "eva" a_document (in_index 0) a_file refl refl refl there no_tombstone

destroy_grace_example :
    (s' : AdminService) × (destroy (λ i. i) "d1" "secret1" "other22" "old" "eva" (armed 60)
      ≡ (ok tt, s'))
    × (s'.vault.files ≡ (armed 60).vault.files)
    × (s'.vault.db.state.documents ≡ (armed 60).vault.db.state.documents)
    × ((t : ℕ) (by : String)
        → t < (armed 60).vault.now + 60
        → process_due_destructions (λ i. i) by (at_time t s') ≡ (ok 0, at_time t s'))
    × ((t : ℕ) (by : String)
        → (armed 60).vault.now + 60 ≤ t
        → process_due_destructions (λ i. i) by (at_time t s')
          ≡ (execute_destruction (λ i. i) a_document "ventana de gracia expirada" by >> one_done)
              (record (at_time t s') { pending_destructions = [] }))
destroy_grace_example =
    destroy_grace (armed 60) "0secret1" "secret1" "other22" refl refl refl (second_pin 60) refl refl
      (λ i. i) "d1" "old" "eva" a_document (in_index 60) (omega arith) refl

-- ===== src/Examples/Admission.antt =====
-- An admission in a small vault: crates/vault-admin/src/lib.rs.
use ubod.Base.{String, true, false, some, none, [], ◌∷◌, ◌==◌, string_eq, ◌≡◌, ◌≢◌, refl, List}
use ubod.Base.Exec.{ok}
use ubod.Base.Text.{decimal, is_whitespace, starts_with, ends_with}
use ubod.Core.Category.{dir_name}
use ubod.Core.Records.{Submission, AdmissionState, admission_eq}
use ubod.Fs.World.{File, lookup}
use ubod.Fs.Files.{is_taken}
use ubod.Fs.Files.Sealing.{sealed}
use ubod.Fs.Paths.{abs_path, rel_path_for, sanitize_component, or_bar}
use ubod.Index.Rules.{Ruleset, classify, first_category}
use ubod.Store.Documents.{find_by_sha256}
use ubod.Store.Submissions.{find_submission}
use ubod.Admin.{AdminService, new_service}
use ubod.Admin.Admit.{admit}
use ubod.Admin.Entered.{staged, place, admitted_document, the_ack, state_after, admit_effect}
use ubod.Admin.Service.{AdminRequest, to_admit, administer_all}
use ubod.Admin.Unique.{unique, administer_all-unique}
use ubod.Examples.{toy, a_meta, a_world, a_state}
use ubod.Examples.Admin.{an_outside}

abbrev a_submission : Submission
a_submission = record {
  submission_id = "s1";
  device_id = "pc";
  meta = record a_meta { file_name = "b.txt" };
  sha256 = "9";
  blake3 = "b9";
  size_bytes = 2;
  staging_path = "9.incoming";
  received_at = "2026-09-23T19:13:47Z";
  state = AdmissionState.pending;
}

abbrev received : File
received = record { bytes = 4 ∷ 5 ∷ []; mode = 420; immutable = false }

abbrev waiting : AdminService
waiting = new_service (record a_world {
  db = record a_world.db { state = record a_state { submissions = a_submission ∷ [] } };
  files = ("/v/.staging/9.incoming", received) ∷ a_world.files;
})

abbrev no_rules : Ruleset
no_rules = record { rule = [] }

waits : find_submission "s1" waiting.vault.db.state ≡ some a_submission
unfolding find_submission
waits = refl

there :
    lookup (staged an_outside waiting "eva" a_submission received) waiting.vault.files
    ≡ some received
unfolding lookup abs_path
there = refl

same_digest : (toy.sha256 received.bytes == a_submission.sha256) ≡ true
unfolding decimal
same_digest = refl

same_blake : (toy.blake3 received.bytes == a_submission.blake3) ≡ true
unfolding decimal
same_blake = refl

unclassified : classify no_rules a_submission.meta.file_name ≡ none
unfolding classify first_category
unclassified = refl

unseen : find_by_sha256 (toy.sha256 received.bytes) waiting.vault.db.state ≡ none
unfolding find_by_sha256 decimal
unseen = refl

free_place :
    is_taken (place an_outside waiting "eva" a_submission received) waiting.vault.files ≡ false
unfolding is_taken starts_with ends_with lookup abs_path rel_path_for sanitize_component or_bar
    is_whitespace dir_name
free_place = refl

admit_effect_example :
    (s' : AdminService) × (admit an_outside no_rules "s1" "eva" waiting
      ≡ (ok (the_ack an_outside waiting "eva" a_submission received), s'))
    × (lookup
          (abs_path waiting.vault.root
            (admitted_document an_outside waiting "eva" a_submission received).rel_path)
          s'.vault.files
        ≡ some (sealed (record received { mode = 384 })))
    × (lookup (staged an_outside waiting "eva" a_submission received) s'.vault.files ≡ none)
    × ((p : String)
        → p ≢ place an_outside waiting "eva" a_submission received
        → p ≢ staged an_outside waiting "eva" a_submission received
        → lookup p s'.vault.files ≡ lookup p waiting.vault.files)
    × (s'.vault.db ≡ record waiting.vault.db {
      state = state_after an_outside waiting "eva" a_submission received "s1";
      saved = some (state_after an_outside waiting "eva" a_submission received "s1");
    })
admit_effect_example =
    admit_effect an_outside no_rules waiting "s1" "eva" a_submission received refl refl refl waits
      refl there refl same_digest same_blake unclassified unseen free_place

-- The same content from another device, which waits too.
abbrev again : Submission
again = record a_submission {
  submission_id = "s2";
  device_id = "mac";
  staging_path = "10.incoming";
}

abbrev waiting_twice : AdminService
waiting_twice = new_service (record a_world {
  db = record a_world.db { state = record a_state { submissions = a_submission ∷ again ∷ [] } };
  files =
      ("/v/.staging/9.incoming", received) ∷ ("/v/.staging/10.incoming", received) ∷ a_world.files;
})

abbrev admissions : List AdminRequest
admissions = to_admit "s1" "eva" ∷ to_admit "s2" "eva" ∷ []

unique_before : unique waiting_twice.vault.db.state.documents ≡ true
unfolding unique
unique_before = refl

administer_all-unique_example :
    unique
      (administer_all
        (λ i. i)
        an_outside
        no_rules
        admissions
        waiting_twice).vault.db.state.documents
    ≡ true
administer_all-unique_example =
    administer_all-unique (λ i. i) an_outside no_rules admissions waiting_twice unique_before

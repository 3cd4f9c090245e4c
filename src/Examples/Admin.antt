-- ===== src/Examples/Admin.antt =====
-- Examples for crates/vault-admin/src/lib.rs.
use ubod.Base.{
  ℕ, ◌+◌, ◌-◌, ◌<◌, String, true, false, ltb, if◌then◌else◌, some, none, List, [], ◌∷◌, ◌≡◌, ◌≢◌,
  refl, arith,
}
use ubod.Base.Exec.{ok, err}
use ubod.Store.Audit.{verify_from, verify_audit_chain}
use ubod.Fs.World.{lookup}
use ubod.Store.Users.{get_extra}
use ubod.Admin.{AdminService, new_service, no_pin, locked_out}
use ubod.Admin.Pins.{is_strong_enough, login, logout, validate_session, is_destruction_pin}
use ubod.Admin.Destruction.{destroy}
use ubod.Admin.Service.{
  administer, AdminRequest, administer_all, to_set_admin_pin, to_log_in, to_set_destruction_pin,
  to_destroy, to_process_due, to_pair, to_admit,
}
use ubod.Admin.Sealing.{Outside}
use ubod.Index.Rules.{default_ruleset}
use ubod.Crypto.Tsa.{network}
use ubod.Admin.Lockout.{at_time, locked_refuses}
use ubod.Admin.Attempts.{attempts, counts, fourth_failure_locks}
use ubod.Base.{all}
use ubod.Base.Text.{as_bytes}
use ubod.Admin.Control.{both_pins, destroy_double_control, login-validate_session}
use ubod.Admin.Chain.{administer_all-IsVerified}
use ubod.Examples.{toy, a_world}

-- An authority that is down, and files without text.
abbrev pub an_outside : Outside
an_outside = record {
  stamp_document = λ sha256. err (network "down");
  extract_text = λ path content. "texto";
  other_device = false;
}

-- A vault whose administrator has a PIN, and none for destruction.
abbrev guarded : AdminService
guarded = new_service (record a_world {
  db = record a_world.db { state = record a_world.db.state { admin_pin_hash = some "0secret1" } };
})

abbrev locked : AdminService
locked = record guarded { pin_lockout = record { failures = 4; locked_until = some 1790190900 } }

locked_refuses_example :
    (login "t" "secret1" locked ≡ (err (locked_out (1790190900 - 1790190827 + 1)), locked))
    × (destroy (λ i. i) "d1" "secret1" "other1" "old" "eva" locked
        ≡ (err (locked_out (1790190900 - 1790190827 + 1)), locked))
locked_refuses_example =
    locked_refuses (λ i. i) locked 1790190900 "0secret1" refl refl (omega arith) "t" "secret1" "d1"
      "other1" "old" "eva"

-- A login, a destruction and a change of the PIN with a wrong PIN, and one more login.
abbrev guesses : List (ℕ × AdminRequest)
guesses =
    (1790190830, to_log_in "t" "guess1")
    ∷ (1790190831, to_destroy "d1" "guess2" "other1" "old" "eva")
    ∷ (1790190832, to_set_admin_pin (some "guess3") "secret2")
    ∷ []

guesses_count : all (counts "0secret1" none) guesses ≡ true
unfolding is_strong_enough as_bytes
guesses_count = refl

fourth_failure_locks_example :
    (s' : AdminService) × (s'
      ≡ (administer
          (λ i. i)
          an_outside
          default_ruleset
          (to_log_in "t" "guess4")
          (at_time 1790190833 (attempts (λ i. i) an_outside default_ruleset guesses guarded))).1)
    × (s'.pin_lockout ≡ record { failures = 4; locked_until = some (1790190833 + 10) })
    × ((t : ℕ) (token pin id second why actor : String)
        → t < 1790190833 + 10
        → (login token pin (at_time t s')
            ≡ (err (locked_out (1790190833 + 10 - t + 1)), at_time t s'))
          × (destroy (λ i. i) id pin second why actor (at_time t s')
              ≡ (err (locked_out (1790190833 + 10 - t + 1)), at_time t s')))
fourth_failure_locks_example =
    fourth_failure_locks (λ i. i) an_outside default_ruleset "0secret1" guesses 1790190833
      (to_log_in "t" "guess4") guarded refl refl guesses_count refl

one_pin : both_pins "secret1" "secret1" guarded.vault.db.state ≡ false
unfolding is_destruction_pin get_extra lookup
one_pin = refl

destroy_double_control_example :
    ((destroy (λ i. i) "d1" "secret1" "secret1" "old" "eva" guarded).1.vault ≡ guarded.vault)
    × ((destroy (λ i. i) "d1" "secret1" "secret1" "old" "eva" guarded).0 ≢ ok tt)
destroy_double_control_example =
    destroy_double_control (λ i. i) guarded "d1" "secret1" "secret1" "old" "eva" one_pin

login-validate_session_example :
    (s' : AdminService) × (login "t" "secret1" guarded ≡ (ok "t", s'))
    × ((t : ℕ)
        → (validate_session "t" (at_time t s')).0
          ≡ (if ltb t (guarded.vault.now + guarded.session_ttl_secs) then ok tt else err no_pin))
    × ((t : ℕ) → (validate_session "t" (at_time t (logout "t" s'))).0 ≡ err no_pin)
login-validate_session_example =
    login-validate_session guarded "0secret1" "t" "secret1" refl refl refl refl refl

-- The PINs are set, one destruction is refused and one is done, and a device is paired.
abbrev requests : List AdminRequest
requests =
    to_set_admin_pin none "secret1"
    ∷ to_log_in "t" "guess1"
    ∷ to_log_in "t" "secret1"
    ∷ to_set_destruction_pin "t" "other22"
    ∷ to_destroy "d1" "secret1" "secret1" "old" "eva"
    ∷ to_destroy "d1" "secret1" "other22" "old" "eva"
    ∷ to_process_due "eva"
    ∷ to_pair "pc" "ff" "eva"
    ∷ to_admit "s1" "eva"
    ∷ []

unguarded_verified : verify_audit_chain (new_service a_world).vault.db.state ≡ ok tt
unfolding verify_audit_chain verify_from
unguarded_verified = refl

administer_all-IsVerified_example :
    verify_audit_chain
      (administer_all
        (λ i. i)
        an_outside
        default_ruleset
        requests
        (new_service a_world)).vault.db.state
    ≡ ok tt
administer_all-IsVerified_example =
    administer_all-IsVerified (λ i. i) an_outside default_ruleset requests (new_service a_world)
      unguarded_verified

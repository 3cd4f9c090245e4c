-- ===== src/Examples/Webui.antt =====
-- Examples for crates/vault-webui/src/lib.rs.
use ubod.Base.{ℕ, String, true, false, Option, some, none, List, [], ◌∷◌, ◌≡◌, refl}
use ubod.Base.Exec.{ok}
use ubod.Fs.World.{lookup}
use ubod.Store.Audit.{verify_audit_chain, verify_from}
use ubod.Admin.{no_pin, new_service}
use ubod.Index.Rules.{default_ruleset}
use ubod.Webui.{WebUiState, response, refused}
use ubod.Webui.Decode.{percent_decode, from_str_radix, hex_value}
use ubod.Webui.Routes.{route, handle_conn}
use ubod.Webui.Guarded.{has_session, without_session, destruction_pin_never}
use ubod.Webui.Chain.{route-IsVerified}
use ubod.Examples.{toy, a_world}
use ubod.Examples.Admin.{an_outside}

-- A panel with one session.
abbrev a_panel : WebUiState
a_panel = record {
  channel = record {
    sync = record { staging_dir = "/v/.staging"; max_body = 1000; pairings = []; devices = [] };
    admin = new_service a_world;
  };
  sessions = ("t", 1790190900) ∷ [];
}

abbrev nothing : String → Option String
nothing field = none

abbrev decode : List ℕ → String
decode bytes = ""

decoded : percent_decode (37 ∷ 52 ∷ 49 ∷ 43 ∷ 37 ∷ []) ≡ 65 ∷ 32 ∷ 37 ∷ []
unfolding percent_decode from_str_radix hex_value
decoded = refl

stale : has_session (some "u") a_panel ≡ false
unfolding lookup
stale = refl

without_session_example :
    ((handle_conn
        (λ i. i)
        an_outside
        default_ruleset
        decode
        "a"
        "f"
        "c"
        "POST"
        "/api/destroy"
        ""
        (some "u")
        nothing
        a_panel).0.status
      ≡ 401)
    × ((handle_conn
          (λ i. i)
          an_outside
          default_ruleset
          decode
          "a"
          "f"
          "c"
          "POST"
          "/api/destroy"
          ""
          (some "u")
          nothing
          a_panel).1.channel
        ≡ a_panel.channel)
without_session_example =
    without_session (λ i. i) an_outside default_ruleset decode "a" "f" "c" "POST" "/api/destroy" ""
      (some "u") nothing a_panel refl stale

live : has_session (some "t") a_panel ≡ true
unfolding lookup
live = refl

not_given : lookup "t" a_panel.channel.admin.sessions ≡ none
unfolding lookup
not_given = refl

destruction_pin_never_example :
    ((route
        (λ i. i)
        an_outside
        default_ruleset
        decode
        "a"
        "f"
        "c"
        "POST"
        "/api/destruction-pin"
        ""
        (some "t")
        nothing
        a_panel).0
      ≡ response 422 (refused no_pin))
    × ((route
          (λ i. i)
          an_outside
          default_ruleset
          decode
          "a"
          "f"
          "c"
          "POST"
          "/api/destruction-pin"
          ""
          (some "t")
          nothing
          a_panel).1.channel
        ≡ a_panel.channel)
destruction_pin_never_example =
    destruction_pin_never (λ i. i) an_outside default_ruleset decode "a" "f" "c" "" "t" nothing
      a_panel live not_given

begun : verify_audit_chain a_panel.channel.admin.vault.db.state ≡ ok tt
unfolding verify_audit_chain verify_from
begun = refl

route-IsVerified_example :
    verify_audit_chain
      (route
        (λ i. i)
        an_outside
        default_ruleset
        decode
        "a"
        "f"
        "c"
        "POST"
        "/api/sweep"
        ""
        (some "t")
        nothing
        a_panel).1.channel.admin.vault.db.state
    ≡ ok tt
route-IsVerified_example =
    route-IsVerified (λ i. i) an_outside default_ruleset decode "a" "f" "c" "POST" "/api/sweep" ""
      (some "t") nothing a_panel begun

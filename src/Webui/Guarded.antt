-- ===== src/Webui/Guarded.antt =====
-- Who gets through the panel: crates/vault-webui/src/lib.rs.
use ubod.Base.{
  ℕ, ◌+◌, String, Bool, true, false, string_eq, ◌==◌, ◌&&◌, ◌||◌, if◌then◌else◌, Bool-cases, inl,
  inr, Option, none, some, List, ◌≡◌, refl,
}
use ubod.Base.Exec.{err, raise, gets}
use ubod.Base.Exec.Runs.{runs, stops}
use ubod.Base.Foreign.{Foreign}
use ubod.Fs.World.{lookup, insert}
use ubod.Index.Rules.{Ruleset}
use ubod.Admin.{AdminService, no_pin}
use ubod.Admin.Pins.{set_destruction_pin, validate_session, renew}
use ubod.Admin.Sealing.{Outside}
use ubod.Webui.{WebUiState, response, refused, check_session, session_ttl_secs, is_live, now_of}
use ubod.Webui.Routes.{
  Body, or_text, Handler, with_session, route, handle_conn, is_login, in_session, post_route,
  destruction_pin_route,
}

-- The token is of a session of the panel that has not run out.
abbrev pub has_session : Option String → WebUiState → Bool
has_session none st = false
has_session (some tok) st = is_live (now_of st) (lookup tok st.sessions)

with_session_refused :
    (tok : Option String) (h : String → Handler) (st : WebUiState)
    → has_session tok st ≡ false
    → ((with_session tok h st).0.status ≡ 401) × ((with_session tok h st).1.channel ≡ st.channel)
unfolding with_session check_session
with_session_refused none h st dead = (refl, refl)
with_session_refused (some tok) h st dead = (rw dead refl, rw dead refl)

renew-none : (tok : String) (s : AdminService) (now : ℕ) → renew tok now none s ≡ (err no_pin, s)
unfolding renew raise
renew-none tok s now = refl

module _ ⦃f : Foreign⦄ (noise : ℕ → ℕ) (out : Outside) (rules : Ruleset)
    (from_utf8_lossy : List ℕ → String) where
  route_refused :
      (admin_token fresh new_code method path query : String) (tok : Option String) (body : Body)
      (st : WebUiState)
      → is_login method path ≡ false
      → has_session tok st ≡ false
      → ((route noise out rules from_utf8_lossy admin_token fresh new_code method path query tok
            body st).0.status
          ≡ 401)
        × ((route noise out rules from_utf8_lossy admin_token fresh new_code method path query tok
              body st).1.channel
            ≡ st.channel)
  unfolding route
  route_refused admin_token fresh new_code method path query tok body st other dead = rw other (
      with_session_refused tok
        (λ t. in_session noise out rules from_utf8_lossy new_code t method path query body) st dead)

  -- A request to the panel that could be read, is not the login and has no session that is alive gets
  -- the page with 200 if it is `GET /` or `GET /index.html`, and 401 if it is anything else, whatever
  -- its method, path and body. Either way nothing changes of the service or of the channel.
  pub without_session :
      (admin_token fresh new_code method path query : String) (tok : Option String) (body : Body)
      (st : WebUiState)
      → is_login method path ≡ false
      → has_session tok st ≡ false
      → ((handle_conn noise out rules from_utf8_lossy admin_token fresh new_code method path query
            tok body st).0.status
          ≡ (if (method == "GET") && ((path == "/") || (path == "/index.html")) then 200 else 401))
        × ((handle_conn noise out rules from_utf8_lossy admin_token fresh new_code method path query
              tok body st).1.channel
            ≡ st.channel)
  unfolding handle_conn
  without_session admin_token fresh new_code method path query tok body st other dead =
      elim (Bool-cases ((method == "GET") && ((path == "/") || (path == "/index.html")))) [
        | inl e ↦ rw e (refl, refl)
        | inr e ↦
            rw e (route_refused admin_token fresh new_code method path query tok body st other dead)
      ]

module _ ⦃f : Foreign⦄ where
  invalid_session :
      (tok : String) (s : AdminService)
      → lookup tok s.sessions ≡ none
      → validate_session tok s ≡ (err no_pin, s)
  unfolding validate_session gets
  invalid_session tok s absent = runs _ _ refl (runs _ _ refl (rw absent (renew-none tok s _)))

  no_admin_session :
      (tok pin : String) (s : AdminService)
      → lookup tok s.sessions ≡ none
      → set_destruction_pin tok pin s ≡ (err no_pin, s)
  unfolding set_destruction_pin
  no_admin_session tok pin s absent = stops _ _ (invalid_session tok s absent)

  destruction_pin_refused :
      (tok : String) (body : Body) (st : WebUiState)
      → lookup tok st.channel.admin.sessions ≡ none
      → destruction_pin_route tok body st ≡ (response 422 (refused no_pin), st)
  unfolding destruction_pin_route
  destruction_pin_refused tok body st absent =
      rw (no_admin_session tok (or_text "" (body "destruction_pin")) st.channel.admin absent) refl

module _ ⦃f : Foreign⦄ (noise : ℕ → ℕ) (out : Outside) (rules : Ruleset)
    (from_utf8_lossy : List ℕ → String) where
  -- A session of the panel is no session of the service: when its token is not one of those that the service
  -- gave out, the request to set the PIN of destruction is refused with 422, whatever the PIN, and changes nothing
  -- of the service.
  pub destruction_pin_never :
      (admin_token fresh new_code query tok : String) (body : Body) (st : WebUiState)
      → has_session (some tok) st ≡ true
      → lookup tok st.channel.admin.sessions ≡ none
      → ((route noise out rules from_utf8_lossy admin_token fresh new_code "POST"
            "/api/destruction-pin" query
            (some tok)
            body
            st).0
          ≡ response 422 (refused no_pin))
        × ((route noise out rules from_utf8_lossy admin_token fresh new_code "POST"
              "/api/destruction-pin" query
              (some tok)
              body
              st).1.channel
            ≡ st.channel)
  unfolding route with_session check_session in_session post_route
  destruction_pin_never admin_token fresh new_code query tok body st live absent =
      let st' = record st { sessions = insert tok (now_of st + session_ttl_secs) st.sessions } in
      let e = destruction_pin_refused tok body st' absent in (rw (live, e) refl, rw (live, e) refl)

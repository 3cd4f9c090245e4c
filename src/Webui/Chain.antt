-- ===== src/Webui/Chain.antt =====
-- The audit chain under the requests of the panel: crates/vault-webui/src/lib.rs.
use ubod.Base.{
  ℕ, String, Bool, true, false, ◌==◌, string_eq, Option, none, some, List, ◌≡◌, Bool-cases, inl,
  inr, if◌then◌else◌, subst, sym, arith,
}
use ubod.Base.Exec.{Result, ok, err}
use ubod.Base.Foreign.{Foreign}
use ubod.Fs.World.{World, lookup}
use ubod.Fs.Kept.{OnState}
use ubod.Store.Audit.{verify_audit_chain}
use ubod.Index.Rules.{Ruleset}
use ubod.Audit.{AuditError, SweepReport, sweep}
use ubod.Audit.Chain.{sweep-Verified}
use ubod.Admin.{AdminService, AdminError}
use ubod.Admin.Chain.{IsVerified, IsVerified-IsKept, IsVerified-IsCustody}
use ubod.Admin.Kept.{OnVault, Keeps-login, Keeps-reject, Keeps-note, Keeps-set_destruction_pin}
use ubod.Admin.Admitted.{Keeps-admit}
use ubod.Admin.Requests.{Keeps-destroy}
use ubod.Admin.Sealing.{Outside}
use ubod.Webui.{
  WebUiState, Reply, Response, check_session, create_session, drop_session, is_live, now_of,
}
use ubod.Webui.Routes.{
  Body, or_text, Handler, answered, swept_answer, opened, log_in, admit_route, reject_route,
  destroy_route, pairing_code_route, destruction_pin_route, sweep_route, get_route, post_route,
  in_session, checked, with_session, is_login, route,
}

module _ ⦃f : Foreign⦄ where
  abbrev Holds : WebUiState → Type 0
  Holds st = OnVault IsVerified st.channel.admin

  abbrev Passes : Handler → Type 0
  Passes m = (st : WebUiState) → Holds st → Holds (m st).1

  answered-Passes :
      {A : Type 0} (failure : ℕ) (reply : A → Reply) (r : Result AdminError A × AdminService)
      (st : WebUiState)
      → OnVault IsVerified r.1
      → Holds (answered failure reply r st).1
  answered-Passes failure reply (ok a, admin) st h = h
  answered-Passes failure reply (err e, admin) st h = h

  opened-Passes :
      (fresh : String) (r : Result AdminError String × AdminService) (st : WebUiState)
      → OnVault IsVerified r.1
      → Holds (opened fresh r st).1
  unfolding create_session
  opened-Passes fresh (ok a, admin) st h = h
  opened-Passes fresh (err e, admin) st h = h

  swept-Passes :
      (r : Result AuditError SweepReport × World) (st : WebUiState)
      → OnState IsVerified r.1
      → Holds (swept_answer r st).1
  swept-Passes (ok a, w) st h = record { world = h }
  swept-Passes (err e, w) st h = record { world = h }

  log_in-Passes : (admin_token fresh pin : String) → Passes (log_in admin_token fresh pin)
  unfolding log_in
  log_in-Passes admin_token fresh pin st h =
      opened-Passes fresh _ st
        ((Keeps-login IsVerified-IsKept admin_token pin).at st.channel.admin h)

  reject-Passes : (id : Option String) (reason : String) → Passes (reject_route id reason)
  unfolding reject_route
  reject-Passes none reason st h = h
  reject-Passes (some id) reason st h =
      answered-Passes 422 _ _ st
        ((Keeps-reject IsVerified-IsKept id reason "panel").at st.channel.admin h)

  pairing_code-Passes : (new_code : String) → Passes (pairing_code_route new_code)
  unfolding pairing_code_route
  pairing_code-Passes new_code st h = answered-Passes 403 _ _ _ (
      (Keeps-note IsVerified-IsKept.apart "admin" "pairing_code" "admin"
          "código de emparejamiento emitido").at
        st.channel.admin h)

  destruction_pin-Passes : (tok : String) (body : Body) → Passes (destruction_pin_route tok body)
  unfolding destruction_pin_route
  destruction_pin-Passes tok body st h = answered-Passes 422 _ _ st (
      (Keeps-set_destruction_pin IsVerified-IsKept tok (or_text "" (body "destruction_pin"))).at
        st.channel.admin h)

  sweep-Passes : Passes sweep_route
  unfolding sweep_route
  sweep-Passes st h =
      swept-Passes (sweep st.channel.admin.vault) st
        (record { kept = sweep-Verified st.channel.admin.vault h.world.kept })

  checked-Passes :
      (r : Bool × WebUiState) (m : Handler) → Passes m → Holds r.1 → Holds (checked r m).1
  checked-Passes (true, st) m k h = k st h
  checked-Passes (false, st) m k h = h

  check_session-Holds : (tok : String) (st : WebUiState) → Holds st → Holds (check_session tok st).1
  unfolding check_session
  check_session-Holds tok st h = elim (Bool-cases (is_live (now_of st) (lookup tok st.sessions))) [
    | inl e ↦ rw e (record { world = h.world })
    | inr e ↦ rw e (record { world = h.world })
  ]

  with_session-Passes :
      (tok : Option String) (m : String → Handler)
      → ((t : String) → Passes (m t))
      → Passes (with_session tok m)
  unfolding with_session
  with_session-Passes none m k st h = h
  with_session-Passes (some tok) m k st h =
      checked-Passes (check_session tok st) (m tok) (k tok) (check_session-Holds tok st h)

  if-Holds :
      (b : Bool) (x y : Response × WebUiState)
      → Holds x.1
      → Holds y.1
      → Holds (if b then x else y).1
  if-Holds false x y h k = k
  if-Holds true x y h k = h

  get_route-state :
      (from_utf8_lossy : List ℕ → String) (path query : String) (st : WebUiState)
      → (get_route from_utf8_lossy path query st).1 ≡ st
  unfolding get_route
  get_route-state from_utf8_lossy path query st = ground arith

  module _ (noise : ℕ → ℕ) (out : Outside) (rules : Ruleset)
      (from_utf8_lossy : List ℕ → String) where
    admit-Passes : (id : Option String) → Passes (admit_route noise out rules from_utf8_lossy id)
    unfolding admit_route
    admit-Passes none st h = h
    admit-Passes (some id) st h =
        answered-Passes 422 _ _ st
          ((Keeps-admit IsVerified-IsCustody out rules id "panel").at st.channel.admin h)

    destroy-Passes : (body : Body) → Passes (destroy_route noise out rules from_utf8_lossy body)
    unfolding destroy_route
    destroy-Passes body st h = if-Holds (or_text "" (body "justification") == "") _ _ h (
        answered-Passes 422 _ _ st (
          (Keeps-destroy IsVerified-IsKept noise (or_text "" (body "vault_id"))
              (or_text "" (body "admin_pin")) (or_text "" (body "destruction_pin"))
              (or_text "" (body "justification")) "panel").at
            st.channel.admin h))

    post-Passes :
        (new_code tok path : String) (body : Body)
        → Passes (post_route noise out rules from_utf8_lossy new_code tok path body)
    unfolding post_route drop_session
    post-Passes new_code tok path body st h =
        if-Holds (path == "/api/logout") _ _ (record { world = h.world })
          (if-Holds (path == "/api/admit") _ _ (admit-Passes (body "submission_id") st h) (
            if-Holds (path == "/api/reject") _ _
              (reject-Passes (body "submission_id") (or_text "sin motivo" (body "reason")) st h)
              (if-Holds (path == "/api/destroy") _ _ (destroy-Passes body st h) (
                if-Holds (path == "/api/pairing-code") _ _ (pairing_code-Passes new_code st h) (
                  if-Holds (path == "/api/destruction-pin") _ _
                    (destruction_pin-Passes tok body st h)
                    (if-Holds (path == "/api/sweep") _ _ (sweep-Passes st h) h))))))

    in_session-Passes :
        (new_code tok method path query : String) (body : Body)
        → Passes (in_session noise out rules from_utf8_lossy new_code tok method path query body)
    unfolding in_session
    in_session-Passes new_code tok method path query body st h =
        if-Holds (method == "GET") _ _
          (subst Holds (sym (get_route-state from_utf8_lossy path query st)) h)
          (if-Holds (method == "POST") _ _ (post-Passes new_code tok path body st h) h)

    -- Whatever the panel is asked for, by whomever, an audit chain that verified verifies after it: the
    -- login, the admissions, the destructions and the sweep included.
    pub route-IsVerified :
        (admin_token fresh new_code method path query : String) (tok : Option String) (body : Body)
        (st : WebUiState)
        → verify_audit_chain st.channel.admin.vault.db.state ≡ ok tt
        → verify_audit_chain
            (route noise out rules from_utf8_lossy admin_token fresh new_code method path query tok
              body st).1.channel.admin.vault.db.state
          ≡ ok tt
    unfolding route
    route-IsVerified admin_token fresh new_code method path query tok body st verified =
        let h : Holds st = record { world = record { kept = verified } } in
        (if-Holds (is_login method path) _ _
          (log_in-Passes admin_token fresh (or_text "" (body "pin")) st h)
          (with_session-Passes tok
            (λ t. in_session noise out rules from_utf8_lossy new_code t method path query body)
            (λ t. in_session-Passes new_code t method path query body) st h)).world.kept

-- ===== src/Webui/Routes.antt =====
-- crates/vault-webui/src/lib.rs: `route`, what the panel answers to a request.
use mathlib.Core.List.{List}
use ubod.Base.{
  ℕ, String, Bool, true, false, ◌==◌, string_eq, if◌then◌else◌, ◌&&◌, ◌||◌, [], ◌∷◌, Option, none,
  some,
}
use ubod.Base.Exec.{Result, ok, err}
use ubod.Base.Foreign.{Foreign}
use ubod.Base.Text.{split_on, split_once, as_bytes}
use ubod.Webui.Decode.{percent_decode}
use ubod.Fs.World.{World}
use ubod.Store.Audit.{verify_audit_chain}
use ubod.Index.Query.{parse, search_documents}
use ubod.Index.Rules.{Ruleset}
use ubod.Audit.{AuditError, SweepReport, sweep}
use ubod.Admin.{AdminError, AdminService}
use ubod.Admin.Pins.{login, note, set_destruction_pin}
use ubod.Admin.Destruction.{destroy}
use ubod.Admin.Admission.{reject}
use ubod.Admin.Sealing.{Outside}
use ubod.Admin.Admit.{admit}
use ubod.Sync.Pairing.{new_pairing_code}
use ubod.Webui.{
  WebUiState, Reply, page, token, code, message, done, executed, refused, sealed, swept, unswept,
  state_of, found, entries, Response, response, create_session, check_session, drop_session, now_of,
}

-- A text field of the body.
abbrev pub Body : Type 0
Body = String → Option String

abbrev pub or_text : String → Option String → String
or_text s none = s
or_text s (some t) = t

abbrev pub Handler : Type 0
Handler = WebUiState → Response × WebUiState

abbrev pub with_admin : WebUiState → AdminService → WebUiState
with_admin st admin = record st { channel = record st.channel { admin = admin } }

-- A method of the service, with the answers when it returns and when it fails.
abbrev pub answered : {A : Type 0} → ℕ → (A → Reply) → Result AdminError A × AdminService → Handler
answered failure reply (ok a, admin) st = (response 200 (reply a), with_admin st admin)
answered failure reply (err e, admin) st = (response failure (refused e), with_admin st admin)

abbrev pub swept_answer : Result AuditError SweepReport × World → Handler
swept_answer (ok r, w) st =
    (response 200 (swept r), with_admin st (record st.channel.admin { vault = w }))
swept_answer (err e, w) st =
    (response 500 (unswept e), with_admin st (record st.channel.admin { vault = w }))

-- The value of the parameter `q`, the first of its name.
abbrev pub value_of : Option (String × String) → Option String
value_of none = none
value_of (some (k, v)) = if k == "q" then some v else none

unfoldable pub q_parameter : List String → String
q_parameter [] = ""
q_parameter (kv ∷ rest) =
    let later = q_parameter rest in
    elim (value_of (split_once b'=' kv)) [ none ↦ later | some v ↦ v ]

abbrev pub chain_ok : Result String (Unit {0}) → Bool
chain_ok (ok _) = true
chain_ok (err e) = false

abbrev pub checked : Bool × WebUiState → Handler → Response × WebUiState
checked (true, st) h = h st
checked (false, st) h = (response 401 (message "sesión expirada o inválida"), st)

unfoldable pub with_session : Option String → (String → Handler) → Handler
with_session none h st = (response 401 (message "sesión requerida"), st)
with_session (some tok) h st = checked (check_session tok st) (h tok)

abbrev pub is_login : String → String → Bool
is_login method path = if method == "POST" then path == "/api/login" else false

-- `new_session_token`, `create_session` and `new_pairing_code` draw random texts, which are
-- `admin_token`, `fresh` and `new_code` here.
module _ ⦃f : Foreign⦄ where
  abbrev pub opened : String → Result AdminError String × AdminService → Handler
  opened fresh (ok _, admin) st =
      let (tok, st') = create_session fresh (with_admin st admin) in (response 200 (token tok), st')
  opened fresh (err e, admin) st = (response 403 (refused e), with_admin st admin)

  unfoldable pub log_in : String → String → String → Handler
  log_in admin_token fresh pin st = opened fresh (login admin_token pin st.channel.admin) st

  unfoldable pub reject_route : Option String → String → Handler
  reject_route none reason st = (response 400 (message "submission_id requerido"), st)
  reject_route (some id) reason st =
      answered 422 (λ _. done) (reject id reason "panel" st.channel.admin) st

  -- `AdminService::new_pairing_code` of a service that the channel is connected to.
  unfoldable pub pairing_code_route : String → Handler
  pairing_code_route new_code st =
      let st' = record st {
        channel = record st.channel {
          sync = new_pairing_code (now_of st) new_code st.channel.sync;
        };
      } in
      answered 403 (λ _. code new_code)
        (note "admin" "pairing_code" "admin" "código de emparejamiento emitido" st.channel.admin)
        st'

  unfoldable pub destruction_pin_route : String → Body → Handler
  destruction_pin_route tok body st =
      answered 422 (λ _. done)
        (set_destruction_pin tok (or_text "" (body "destruction_pin")) st.channel.admin) st

  unfoldable pub sweep_route : Handler
  sweep_route st = swept_answer (sweep st.channel.admin.vault) st

module _ ⦃f : Foreign⦄ (from_utf8_lossy : List ℕ → String) where
  abbrev pub decoded : String → String
  decoded raw = from_utf8_lossy (percent_decode (as_bytes raw))

  unfoldable pub get_route : String → String → Handler
  get_route path query st =
      let db = st.channel.admin.vault.db.state in
      if path == "/api/state"
      then (response 200 (state_of db), st)
      else if path == "/api/documents"
      then (
        response 200
            (found (search_documents db (parse (decoded (q_parameter (split_on b'&' query)))))),
        st,
      )
      else if path == "/api/audit"
      then (response 200 (entries (chain_ok (verify_audit_chain db)) db.audit), st)
      else (response 404 (message "ruta no encontrada"), st)

module _ ⦃f : Foreign⦄ (noise : ℕ → ℕ) (out : Outside) (rules : Ruleset)
    (from_utf8_lossy : List ℕ → String) where
  unfoldable pub admit_route : Option String → Handler
  admit_route none st = (response 400 (message "submission_id requerido"), st)
  admit_route (some id) st = answered 422 sealed (admit out rules id "panel" st.channel.admin) st

  unfoldable pub destroy_route : Body → Handler
  destroy_route body st =
      if or_text "" (body "justification") == ""
      then (response 400 (message "justification requerida"), st)
      else answered 422 (λ _. executed)
          (destroy noise (or_text "" (body "vault_id")) (or_text "" (body "admin_pin"))
            (or_text "" (body "destruction_pin")) (or_text "" (body "justification")) "panel"
            st.channel.admin)
          st

  unfoldable pub post_route : String → String → String → Body → Handler
  post_route new_code tok path body st =
      if path == "/api/logout"
      then (response 200 done, drop_session tok st)
      else if path == "/api/admit"
      then admit_route (body "submission_id") st
      else if path == "/api/reject"
      then reject_route (body "submission_id") (or_text "sin motivo" (body "reason")) st
      else if path == "/api/destroy"
      then destroy_route body st
      else if path == "/api/pairing-code"
      then pairing_code_route new_code st
      else if path == "/api/destruction-pin"
      then destruction_pin_route tok body st
      else if path == "/api/sweep"
      then sweep_route st
      else (response 404 (message "ruta no encontrada"), st)

  unfoldable pub in_session : String → String → String → String → String → Body → Handler
  in_session new_code tok method path query body st =
      if method == "GET"
      then get_route from_utf8_lossy path query st
      else if method == "POST"
      then post_route new_code tok path body st
      else (response 404 (message "ruta no encontrada"), st)

  unfoldable pub route :
      String → String → String → String → String → String → Option String → Body → Handler
  route admin_token fresh new_code method path query tok body st =
      if is_login method path
      then log_in admin_token fresh (or_text "" (body "pin")) st
      else with_session tok (λ t. in_session new_code t method path query body) st

  abbrev pub is_page : String → String → Bool
  is_page method path = (method == "GET") && ((path == "/") || (path == "/index.html"))

  -- A request that could be read. Without a body, or with one that is no JSON, no field has a value.
  unfoldable pub handle_conn :
      String → String → String → String → String → String → Option String → Body → Handler
  handle_conn admin_token fresh new_code method path query tok body st =
      if is_page method path
      then (response 200 page, st)
      else route admin_token fresh new_code method path query tok body st

-- ===== src/Sync/Server.antt =====
-- crates/vault-sync/src/server.rs: what `handle_conn` answers to a request. The packages for JSON, TLS and
-- certificates, and the functions that the daemon registers, are an interface.
pub mod Access
pub mod Steps
pub mod Codes
pub mod Spent
pub mod Transitions
use mathlib.Core.List.{List}
use ubod.Base.{
  ℕ, String, append, Bool, true, false, ◌==◌, nat_eq, string_eq, if◌then◌else◌, [], ◌∷◌, Option,
  none, some,
}
use ubod.Base.Exec.{Exec, Result, ok, err}
use ubod.Base.Foreign.{Foreign}
use ubod.Fs.World.{World}
use ubod.Fs.Files.{write_file}
use ubod.Fs.Paths.{abs_path}
use ubod.Admin.{AdminService}
use ubod.Sync.{
  SyncError, client_cert_required, unauthorized_device, io, tls, pki, http, SyncState, Identity,
  Request, Reply, pong, manifest, paired, error, Channel,
}
use ubod.Sync.Pairing.{require_auth, consume_pairing_code, register_device}

-- `on_document` takes the device, the bytes of the envelope's line, and the path of the file.
-- `read_pairing` gives the code and the device of a JSON body, with empty texts for missing ones;
-- `issue` is `issue_client_certificate`: the key, the certificate and its fingerprint.
pub record Callbacks : Type 0 where
  pub hashes : AdminService → List String
  pub on_document : String → List ℕ → String → Exec AdminService String Reply
  pub on_paired : String → String → AdminService → AdminService
  pub read_pairing : List ℕ → Option (String × String)
  pub issue : String → Option (String × String × String)

pub record Response : Type 0 where
  pub status : ℕ
  pub json : Reply

abbrev pub response : ℕ → Reply → Response
response status json = record { status = status; json = json }

-- The text of a `SyncError`.
abbrev pub error_text : SyncError → String
error_text io = "error de E/S"
error_text (tls e) = append "error TLS: " e
error_text (pki e) = append "error PKI: " e
error_text client_cert_required = "certificado de cliente requerido"
error_text (unauthorized_device d) = append "dispositivo no autorizado: " d
error_text (http e) = append "error HTTP: " e

abbrev pub device_of : Identity → String
device_of none = ""
device_of (some (device_id, fingerprint)) = device_id

-- The bytes before the first line break, and those after it.
unfoldable pub split_line : List ℕ → Option (List ℕ × List ℕ)
split_line [] = none
split_line (b ∷ bs) =
    let rest = split_line bs in
    if b == 10 then some ([], bs) else elim rest [ none ↦ none | some (l, r) ↦ some (b ∷ l, r) ]

-- The answers to the four routes and to any other.
pub data Route : Type 0 where
  ping get_manifest upload pair not_found : Route

unfoldable pub route_of : String → String → Route
route_of method path =
    if method == "GET"
    then (if path == "/v1/ping"
        then ping
        else if path == "/v1/manifest"
        then get_manifest
        else not_found)
    else if method == "POST"
    then (if path == "/v1/upload" then upload else if path == "/v1/pair" then pair else not_found)
    else not_found

abbrev pub Handler : Type 0
Handler = Channel → Response × Channel

abbrev pub answer : ℕ → Reply → Handler
answer status json c = (response status json, c)

-- A handler for the devices that are authorized.
abbrev pub after_auth : Result SyncError (Unit {0}) → Handler → Handler
after_auth (ok _) m c = m c
after_auth (err e) m c = (response 403 (error (error_text e)), c)

unfoldable pub authorized : Identity → Handler → Handler
authorized identity m c = after_auth (require_auth identity c.sync) m c

abbrev pub body_of : Option (List ℕ) → List ℕ
body_of none = []
body_of (some body) = body

module _ ⦃f : Foreign⦄ (cb : Callbacks) where
  abbrev pub ingested : Result String Reply × AdminService → Channel → Response × Channel
  ingested (ok ack, admin) c = (response 200 ack, record c { admin = admin })
  ingested (err e, admin) c = (response 422 (error e), record c { admin = admin })

  -- The file goes to staging under its digest, and the daemon takes it from there.
  abbrev pub stage : String → List ℕ → String → Result (Unit {0}) (Unit {0}) × World → Handler
  stage device_id envelope path (err _, w) c =
      (response 500 (error "staging"), record c { admin = record c.admin { vault = w } })
  stage device_id envelope path (ok _, w) c =
      ingested (cb.on_document device_id envelope path (record c.admin { vault = w })) c

  unfoldable pub receive : String → Option (List ℕ × List ℕ) → Handler
  receive device_id none c = (response 400 (error "envelope inválido: falta salto de línea"), c)
  receive device_id (some (envelope, file_bytes)) c =
      let path = abs_path c.sync.staging_dir (append (f.sha256 file_bytes) ".incoming") in
      stage device_id envelope path (write_file tt path file_bytes c.admin.vault) c

  unfoldable pub handle_upload : String → Option (List ℕ) → Handler
  handle_upload device_id none c = (response 400 (error "body requerido"), c)
  handle_upload device_id (some body) c = receive device_id (split_line body) c

  -- A pairing that has its certificate.
  abbrev pub enrol : String → Option (String × String × String) → Handler
  enrol device_id none c = (response 500 (error "no se pudo emitir el certificado"), c)
  enrol device_id (some (key, cert, fingerprint)) c = (
    response 200 (paired key cert fingerprint),
    record {
      sync = register_device device_id fingerprint c.sync;
      admin = cb.on_paired device_id fingerprint c.admin;
    },
  )

  abbrev pub after_code : String → Bool → Handler
  after_code device_id true c = enrol device_id (cb.issue device_id) c
  after_code device_id false c =
      (response 403 (error "código de emparejamiento inválido o expirado"), c)

  unfoldable pub pair_with : ℕ → String → String → Handler
  pair_with now code device_id c =
      let (valid, sync) = consume_pairing_code now code c.sync in
      if device_id == ""
      then (response 400 (error "device_id requerido"), c)
      else after_code device_id valid (record c { sync = sync })

  unfoldable pub handle_pair : ℕ → Option (String × String) → Handler
  handle_pair now none c = (response 400 (error "json"), c)
  handle_pair now (some (code, device_id)) c = pair_with now code device_id c

  unfoldable pub handle_route : ℕ → Identity → Request → Route → Handler
  handle_route now identity r ping = authorized identity (answer 200 pong)
  handle_route now identity r get_manifest =
      authorized identity
        (λ c. (response 200 (manifest (device_of identity) (cb.hashes c.admin)), c))
  handle_route now identity r upload =
      authorized identity (handle_upload (device_of identity) r.body)
  handle_route now identity r pair = handle_pair now (cb.read_pairing (body_of r.body))
  handle_route now identity r not_found = answer 404 (error "no encontrado")

  abbrev pub handle : ℕ → Identity → Request → Handler
  handle now identity r = handle_route now identity r (route_of r.method r.path)

  -- The requests of one connection, each at its time, up to one that asks to close.
  unfoldable pub handle_conn : Identity → List (ℕ × Request) → Channel → List Response × Channel
  handle_conn identity [] c = ([], c)
  handle_conn identity ((now, r) ∷ rs) c =
      let (answered, c') = handle now identity r c in
      let (more, last) = handle_conn identity rs c' in
      if r.close then (answered ∷ [], c') else (answered ∷ more, last)

  -- Requests of any connections, in the order in which they are answered.
  unfoldable pub serve : List (ℕ × Identity × Request) → Channel → Channel
  serve [] c = c
  serve ((now, identity, r) ∷ rs) c = serve rs (handle now identity r c).1

-- ===== src/Examples/Sync.antt =====
-- Examples for crates/vault-sync/src/server.rs, with the functions of bins/vaultd/src/main.rs.
use ubod.Base.{arith, ℕ, String, false, Option, none, some, List, [], ◌∷◌, ◌≡◌, refl, ap}
use ubod.Base.Exec.{ok, err, pure, raise, gets, modify, or_raise, map_err, ◌>>=◌}
use ubod.Core.Envelope.{TransferEnvelope}
use ubod.Base.Text.{decimal, as_bytes, split_on, split_once, trim, is_whitespace, parse_unsigned}
use ubod.Base.Foreign.{to_lowercase}
use ubod.Index.Text.{words_of}
use ubod.Core.Ids.{new_id}
use ubod.Core.Category.{tesis, from_dir_name}
use ubod.Fs.World.{
  World, call, attempt, lookup, without, insert, fresh_id, now_text, on_state, log, flush,
  save_state,
}
use ubod.Fs.Files.{
  read_file, metadata, rename_file, open_file, check_target, may_replace, drop_file, put_file,
}
use ubod.Fs.Paths.{abs_path}
use ubod.Admin.{new_service}
use ubod.Sync.{client_cert_required, Identity, Request, Reply, queued, error, Channel}
use ubod.Sync.Pairing.{require_auth}
use ubod.Sync.Server.{body_of, response, route_of, handle, handle_conn, pair_with, serve}
use ubod.Sync.Server.Access.{handle_conn_refused, NoPairing, AllRefused}
use ubod.Sync.Server.Codes.{pair_once}
use ubod.Sync.Server.Transitions.{Transition, asked, handle-Transition}
use ubod.Sync.Http.{
  Chunks, read_http_request, with_headers, read_head, read_body, find_header_end, headers_of,
  strip_cr,
}
use ubod.Sync.Http.Bounds.{Bounded, read_http_request-Bounded}
use ubod.Sync.Http.Pieces.{joined}
use ubod.Sync.Http.Whole.{only_request, parse_whole, read_http_request-parse_whole}
use ubod.Daemon.{Packages, sync_callbacks}
use ubod.Daemon.Ingest.{
  ingest_to_staging, submission_of, read_declared, check_content, accept, queue, refuse, beside,
  parent,
}
use ubod.Daemon.Queued.{ingest_to_staging-Queued, Queued}
use ubod.Daemon.Untouched.{in_custody, serve-in_custody}
use ubod.Examples.{toy, a_world}

-- One envelope and one request to pair, whatever the bytes are.
abbrev an_envelope : TransferEnvelope
an_envelope = record {
  header = record {
    device_id = "pc";
    timestamp_utc = "2026-01-01T00:00:00Z";
    protocol_version = "1.0";
  };
  payload = record {
    file_name = "b.TXT";
    file_category = "Tesis";
    file_size_bytes = 2;
    sha256 = "9";
    department = "Historia";
    author = "ana";
    title = "";
    id_number = none;
    academic_year = none;
  };
}

abbrev envelope_of : List ℕ → Option TransferEnvelope
envelope_of [] = none
envelope_of (b ∷ bs) = some an_envelope

abbrev pairing_of : List ℕ → Option (String × String)
pairing_of [] = none
pairing_of (b ∷ bs) = some ("AAAA", "pc")

abbrev packages : Packages
packages = record {
  read_envelope = envelope_of;
  read_pairing = pairing_of;
  issue = λ d. some ("key", "cert", "ff");
}

abbrev a_channel : Channel
a_channel = record {
  sync = record {
    staging_dir = "/v/.staging";
    max_body = 1000;
    pairings = record { code = "AAAA"; expires_at = 5000 } ∷ [];
    devices = [];
  };
  admin = new_service a_world;
}

abbrev request : String → String → Option (List ℕ) → Request
request method path body = record { method = method; path = path; close = false; body = body }

abbrev pinging : List (ℕ × Request)
pinging =
    (100, request "GET" "/v1/ping" none)
    ∷ (101, request "POST" "/v1/upload" (some (1 ∷ 10 ∷ 4 ∷ 5 ∷ [])))
    ∷ []

no_certificate : require_auth none a_channel.sync ≡ err client_cert_required
unfolding require_auth
no_certificate = refl

no_pairing : NoPairing pinging
unfolding route_of
no_pairing = ((λ e. cc), ((λ e. cc), tt))

handle_conn_refused_example :
    ((handle_conn (sync_callbacks packages) none pinging a_channel).1 ≡ a_channel)
    × AllRefused (handle_conn (sync_callbacks packages) none pinging a_channel).0
handle_conn_refused_example =
    handle_conn_refused (sync_callbacks packages) none pinging a_channel client_cert_required
      no_certificate no_pairing

-- A device pairs, sends a file, and pairs again with the same code.
abbrev session : List (ℕ × Identity × Request)
session =
    (100, none, request "POST" "/v1/pair" (some (2 ∷ [])))
    ∷ (101, some ("pc", "ff"), request "POST" "/v1/upload" (some (1 ∷ 10 ∷ 4 ∷ 5 ∷ [])))
    ∷ (102, none, request "POST" "/v1/pair" (some (2 ∷ [])))
    ∷ []

pair_once_example :
    (pair_with (sync_callbacks packages) 200 "AAAA" "pc" (
      serve
        (sync_callbacks packages)
        session
        (pair_with (sync_callbacks packages) 100 "AAAA" "pc" a_channel).1)).0
    ≡ response 403 (error "código de emparejamiento inválido o expirado")
pair_once_example =
    pair_once (sync_callbacks packages) 100 200 "AAAA" "pc" "pc" session a_channel refl refl

serve-in_custody_example :
    in_custody (serve (sync_callbacks packages) session a_channel).admin.vault.db.state
    ≡ in_custody a_channel.admin.vault.db.state
serve-in_custody_example = serve-in_custody packages session a_channel

-- The file of the envelope in staging.
abbrev staged : World
staged = record a_world {
  files =
      ("/v/.staging/9.incoming", record { bytes = 4 ∷ 5 ∷ []; mode = 420; immutable = false })
      ∷ a_world.files;
}

abbrev after_delivery : World
after_delivery = (ingest_to_staging envelope_of "pc" (1 ∷ []) "/v/.staging/9.incoming" staged).1

abbrev a_reply : Reply
a_reply = queued (
    submission_of an_envelope.payload tesis (new_id 1790190827000 (0 ∷ [])) (now_text staged)
      (now_text staged) "pc" (4 ∷ 5 ∷ []))

delivered :
    (ingest_to_staging envelope_of "pc" (1 ∷ []) "/v/.staging/9.incoming" staged).0 ≡ ok a_reply
unfolding decimal ingest_to_staging read_declared check_content accept queue refuse or_raise pure
    raise gets modify ◌>>=◌ map_err read_file metadata call attempt lookup rename_file open_file
    check_target may_replace drop_file put_file beside parent from_dir_name fresh_id now_text
    on_state log flush save_state without insert abs_path
delivered = refl

ingest_to_staging-Queued_example :
    (envelope : TransferEnvelope) × (envelope_of (1 ∷ []) ≡ some envelope)
    × Queued staged.db.state.submissions "pc" envelope.payload a_reply after_delivery
ingest_to_staging-Queued_example =
    ingest_to_staging-Queued envelope_of "pc" (1 ∷ []) "/v/.staging/9.incoming" staged
      after_delivery a_reply (ap (λ r. (r, after_delivery)) delivered)

abbrev a_pairing : Request
a_pairing = request "POST" "/v1/pair" (some (2 ∷ []))

handle-Transition_example :
    Transition
      (sync_callbacks packages)
      100
      (asked (sync_callbacks packages) (body_of a_pairing.body) (route_of "POST" "/v1/pair"))
      a_channel.sync
      (handle (sync_callbacks packages) 100 none a_pairing a_channel).0.status
      (handle (sync_callbacks packages) 100 none a_pairing a_channel).1.sync
handle-Transition_example = handle-Transition (sync_callbacks packages) 100 none a_pairing a_channel

-- `POST / HTTP/1.1` with two bytes of content, in three pieces and with a byte too many.
abbrev pieces : Chunks
pieces =
    as_bytes "POST /v1/pair H\r\nContent-Length: 2\r"
    ∷ (10 ∷ 13 ∷ 10 ∷ 65 ∷ [])
    ∷ (66 ∷ 67 ∷ [])
    ∷ []

abbrev ascii : List ℕ → String
ascii bytes = "POST /v1/pair H\r\nContent-Length: 2"

in_pieces :
    read_http_request ascii 1000 pieces
    ≡ ok (
        some (
          record { method = "POST"; path = "/v1/pair"; close = false; body = some (65 ∷ 66 ∷ []) },
          [],
        ))
unfolding read_http_request read_head read_body find_header_end headers_of strip_cr with_headers
    as_bytes split_on lookup split_once insert to_lowercase trim is_whitespace without
    parse_unsigned words_of
in_pieces = refl

read_http_request-Bounded_example : Bounded 1000 (read_http_request ascii 1000 pieces)
read_http_request-Bounded_example = read_http_request-Bounded ascii 1000 pieces

headers_there : find_header_end (joined pieces) ≡ some 34
unfolding find_header_end as_bytes
headers_there = refl

read_http_request-parse_whole_example :
    only_request (read_http_request ascii 1000 pieces) ≡ parse_whole ascii 1000 34 (joined pieces)
read_http_request-parse_whole_example =
    read_http_request-parse_whole ascii 1000 34 pieces headers_there (omega arith)

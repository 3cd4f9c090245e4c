-- ===== src/Sync/Http.antt =====
-- crates/vault-sync/src/server.rs: `read_http_request`. A stream is the pieces that its reads give, none of them empty, and
-- its end; a fault of a read ends the stream too.
pub mod Bounds
pub mod Pieces
pub mod Whole
use Prim.Native.Char.{code}
use Prim.Native.String.{[], ◌∷◌}
use mathlib.Core.List.{List, ◌++◌}
use ubod.Base.{
  ℕ, ◌+◌, ◌*◌, ◌^◌, ◌-◌, String, Bool, true, false, ◌&&◌, ltb, leb, ◌==◌, nat_eq, string_eq,
  if◌then◌else◌, Option, none, some, length, take, drop,
}
use ubod.Base.Exec.{Result, ok, err}
use ubod.Base.Foreign.{Foreign, to_lowercase}
use ubod.Base.Text.{
  is_empty, split_on, split_once, trim, contains, parse_unsigned, eq_ignore_ascii_case,
}
use ubod.Fs.World.{lookup, insert}
use ubod.Index.Text.{words_of}
use ubod.Sync.{SyncError, http, Request}

-- `windows(4).position(…)`
abbrev pub is_end : List ℕ → Bool
is_end (List.◌∷◌ a (List.◌∷◌ b (List.◌∷◌ c (List.◌∷◌ d bs)))) =
    (a == 13) && (b == 10) && (c == 13) && (d == 10)
is_end bs = false

abbrev pub later : Option ℕ → Option ℕ
later none = none
later (some n) = some (1 + n)

unfoldable pub find_header_end : List ℕ → Option ℕ
find_header_end List.[] = none
find_header_end (List.◌∷◌ b bs) =
    let rest = later (find_header_end bs) in if is_end (List.◌∷◌ b bs) then some 0 else rest

abbrev pub Chunks : Type 0
Chunks = List (List ℕ)

-- The bytes before the end of the headers, those after it, and the reads that are left. No piece at all is
-- a connection without a request.
abbrev pub at_end : List ℕ → Chunks → Option ℕ → Option (List ℕ × List ℕ × Chunks)
at_end buf cs none = none
at_end buf cs (some pos) = some (take pos buf, drop (pos + 4) buf, cs)

abbrev pub or_more :
    Option (List ℕ × List ℕ × Chunks)
    → Result SyncError (Option (List ℕ × List ℕ × Chunks))
    → Result SyncError (Option (List ℕ × List ℕ × Chunks))
or_more none more = more
or_more (some parts) more = ok (some parts)

abbrev pub cut_off : List ℕ → Result SyncError (Option (List ℕ × List ℕ × Chunks))
cut_off List.[] = ok none
cut_off (List.◌∷◌ b bs) = err (http "conexión cortada en headers")

unfoldable pub read_head : List ℕ → Chunks → Result SyncError (Option (List ℕ × List ℕ × Chunks))
read_head buf List.[] = cut_off buf
read_head buf (List.◌∷◌ c cs) =
    let more = read_head (buf ++ c) cs in
    or_more (at_end (buf ++ c) cs (find_header_end (buf ++ c)))
      (if ltb (64 * 1024) (length (buf ++ c)) then err (http "headers demasiado grandes") else more)

-- Reads until there are `n` bytes; what goes beyond them is dropped.
unfoldable pub read_body : ℕ → List ℕ → Chunks → Result SyncError (List ℕ × Chunks)
read_body n body List.[] =
    if leb n (length body) then ok (take n body, List.[]) else err (http "conexión cortada en body")
read_body n body (List.◌∷◌ c cs) =
    let more = read_body n (body ++ c) cs in
    if leb n (length body) then ok (take n body, List.◌∷◌ c cs) else more

-- `lines()`: a carriage return before the line break goes too.
unfoldable pub strip_cr : String → String
strip_cr [] = []
strip_cr (c ∷ s) = let rest = strip_cr s in if (code c == 13) && is_empty s then [] else c ∷ rest

abbrev pub into_lines : List String → List String
into_lines List.[] = List.[]
into_lines (List.◌∷◌ s List.[]) = if is_empty s then List.[] else List.◌∷◌ s List.[]
into_lines (List.◌∷◌ s (List.◌∷◌ t ts)) = List.◌∷◌ (strip_cr s) (into_lines (List.◌∷◌ t ts))

abbrev pub lines : String → List String
lines s = into_lines (split_on 10 s)

abbrev pub first_or : String → List String → String
first_or s List.[] = s
first_or s (List.◌∷◌ w ws) = w

abbrev pub second_or : String → List String → String
second_or s List.[] = s
second_or s (List.◌∷◌ w ws) = first_or s ws

abbrev pub or_zero : Option ℕ → ℕ
or_zero none = 0
or_zero (some n) = n

module _ ⦃f : Foreign⦄ where
  abbrev pub add_header : Option (String × String) → List (String × String) → List (String × String)
  add_header none headers = headers
  add_header (some (k, v)) headers = insert (to_lowercase (trim k)) (trim v) headers

  unfoldable pub headers_of : List String → List (String × String) → List (String × String)
  headers_of List.[] headers = headers
  headers_of (List.◌∷◌ line rest) headers =
      headers_of rest (add_header (split_once b':' line) headers)

  abbrev pub is_chunked : Option String → Bool
  is_chunked none = false
  is_chunked (some v) = contains "chunked" (to_lowercase v)

  abbrev pub length_of : Option String → ℕ
  length_of none = 0
  length_of (some v) = or_zero (parse_unsigned (2 ^ 64 - 1) v)

  abbrev pub wants_close : Option String → Bool
  wants_close none = false
  wants_close (some v) = eq_ignore_ascii_case v "close"

  abbrev pub body_opt : ℕ → List ℕ → Option (List ℕ)
  body_opt n body = if ltb 0 n then some body else none

  abbrev pub request_of :
      String
      → List (String × String)
      → ℕ
      → Result SyncError (List ℕ × Chunks)
      → Result SyncError (Option (Request × Chunks))
  request_of line headers n (err e) = err e
  request_of line headers n (ok (body, cs)) = ok (
      some (
        record {
          method = first_or "" (words_of "" line);
          path = second_or "/" (words_of "" line);
          close = wants_close (lookup "connection" headers);
          body = body_opt n body;
        },
        cs,
      ))

  unfoldable pub with_headers :
      ℕ
      → String
      → List (String × String)
      → List ℕ
      → Chunks
      → Result SyncError (Option (Request × Chunks))
  with_headers max_body line headers body cs =
      let n = length_of (lookup "content-length" headers) in
      if is_chunked (lookup "transfer-encoding" headers)
      then err (http "transfer-encoding no soportado: use Content-Length")
      else if ltb max_body n
      then err (http "body demasiado grande")
      else request_of line headers n (read_body n body cs)

  abbrev pub with_lines :
      ℕ → List String → List ℕ → Chunks → Result SyncError (Option (Request × Chunks))
  with_lines max_body List.[] body cs = err (http "petición vacía")
  with_lines max_body (List.◌∷◌ line rest) body cs =
      with_headers max_body line (headers_of rest List.[]) body cs

  module _ (from_utf8_lossy : List ℕ → String) where
    abbrev pub with_head :
        ℕ
        → Result SyncError (Option (List ℕ × List ℕ × Chunks))
        → Result SyncError (Option (Request × Chunks))
    with_head max_body (err e) = err e
    with_head max_body (ok none) = ok none
    with_head max_body (ok (some (head, body, cs))) =
        with_lines max_body (lines (from_utf8_lossy head)) body cs

    unfoldable pub read_http_request : ℕ → Chunks → Result SyncError (Option (Request × Chunks))
    read_http_request max_body cs = with_head max_body (read_head List.[] cs)

-- ===== src/Sync/Http/Whole.antt =====
-- A request is the same as from all its bytes at once: crates/vault-sync/src/server.rs.
use ubod.Base.{
  ℕ, ◌+◌, ◌*◌, ◌≤◌, String, ltb, if◌then◌else◌, Option, none, some, List, [], ◌∷◌, ◌++◌, ◌≡◌, refl,
  ap, ◌∙◌, take, drop, Bool-cases, inl, inr,
}
use ubod.Base.Exec.{Result, ok, err}
use ubod.Base.Foreign.{Foreign}
use ubod.Fs.World.{lookup}
use ubod.Index.Text.{words_of}
use ubod.Sync.{SyncError, http, Request}
use ubod.Sync.Http.{
  Chunks, find_header_end, read_head, read_body, is_chunked, length_of, wants_close, body_opt,
  first_or, second_or, request_of, with_headers, with_lines, with_head, headers_of, lines,
  read_http_request,
}
use ubod.Sync.Http.Pieces.{
  joined, HeadOf, read_head-HeadOf, whole_body, only_body, read_body-whole_body,
}

-- The request, without the reads that are left.
abbrev pub only_request :
    Result SyncError (Option (Request × Chunks)) → Result SyncError (Option Request)
only_request (err e) = err e
only_request (ok none) = ok none
only_request (ok (some (r, cs))) = ok (some r)

module _ ⦃f : Foreign⦄ where
  -- The parser of a request that has all the bytes: the headers up to `pos`, the body behind.
  abbrev pub whole_request :
      String
      → List (String × String)
      → ℕ
      → Result SyncError (List ℕ)
      → Result SyncError (Option Request)
  whole_request line headers n (err e) = err e
  whole_request line headers n (ok body) = ok (
      some (record {
        method = first_or "" (words_of "" line);
        path = second_or "/" (words_of "" line);
        close = wants_close (lookup "connection" headers);
        body = body_opt n body;
      }))

  abbrev pub whole_headers :
      ℕ → String → List (String × String) → List ℕ → Result SyncError (Option Request)
  whole_headers max_body line headers bytes =
      let n = length_of (lookup "content-length" headers) in
      if is_chunked (lookup "transfer-encoding" headers)
      then err (http "transfer-encoding no soportado: use Content-Length")
      else if ltb max_body n
      then err (http "body demasiado grande")
      else whole_request line headers n (whole_body n bytes)

  abbrev pub whole_lines : ℕ → List String → List ℕ → Result SyncError (Option Request)
  whole_lines max_body [] bytes = err (http "petición vacía")
  whole_lines max_body (line ∷ rest) bytes = whole_headers max_body line (headers_of rest []) bytes

  abbrev pub parse_whole : (List ℕ → String) → ℕ → ℕ → List ℕ → Result SyncError (Option Request)
  parse_whole from_utf8_lossy max_body pos bytes =
      whole_lines max_body (lines (from_utf8_lossy (take pos bytes))) (drop (pos + 4) bytes)

  request_of-whole :
      (line : String) (headers : List (String × String)) (n : ℕ)
      (r : Result SyncError (List ℕ × Chunks))
      → only_request (request_of line headers n r) ≡ whole_request line headers n (only_body r)
  request_of-whole line headers n (err e) = refl
  request_of-whole line headers n (ok (body, cs)) = refl

  with_headers-whole :
      (max_body : ℕ) (line : String) (headers : List (String × String)) (body : List ℕ)
      (cs : Chunks)
      → only_request (with_headers max_body line headers body cs)
        ≡ whole_headers max_body line headers (body ++ joined cs)
  unfolding with_headers
  with_headers-whole max_body line headers body cs =
      let n = length_of (lookup "content-length" headers) in
      elim (Bool-cases (is_chunked (lookup "transfer-encoding" headers))) [
        | inl e ↦ rw e refl
        | inr e ↦ elim (Bool-cases (ltb max_body n)) [
          | inl k ↦ rw (e, k) refl
          | inr k ↦
              rw (e, k)
                (request_of-whole line headers n (read_body n body cs)
                  ∙ ap (whole_request line headers n) (read_body-whole_body n cs body))
        ]
      ]

  with_lines-whole :
      (max_body : ℕ) (ls : List String) (body : List ℕ) (cs : Chunks)
      → only_request (with_lines max_body ls body cs) ≡ whole_lines max_body ls (body ++ joined cs)
  with_lines-whole max_body [] body cs = refl
  with_lines-whole max_body (line ∷ rest) body cs =
      with_headers-whole max_body line (headers_of rest []) body cs

  module _ (from_utf8_lossy : List ℕ → String) (max_body pos : ℕ) where
    with_head-whole :
        (whole : List ℕ) (r : Result SyncError (Option (List ℕ × List ℕ × Chunks)))
        → HeadOf whole pos r
        → only_request (with_head from_utf8_lossy max_body r)
          ≡ parse_whole from_utf8_lossy max_body pos whole
    with_head-whole whole r (body, cs, e, rest) =
        ap (λ x. only_request (with_head from_utf8_lossy max_body x)) e
        ∙ with_lines-whole max_body (lines (from_utf8_lossy (take pos whole))) body cs
        ∙ ap (whole_lines max_body (lines (from_utf8_lossy (take pos whole)))) rest

    -- The reading of a request from a stream gives what the parser of all its bytes gives, where the headers end
    -- within 64 KiB: the request, or the error, does not depend on the pieces that the bytes come in.
    pub read_http_request-parse_whole :
        (cs : Chunks)
        → find_header_end (joined cs) ≡ some pos
        → pos + 3 ≤ 64 * 1024
        → only_request (read_http_request from_utf8_lossy max_body cs)
          ≡ parse_whole from_utf8_lossy max_body pos (joined cs)
    unfolding read_http_request find_header_end
    read_http_request-parse_whole cs there fits =
        with_head-whole (joined cs) (read_head [] cs) (read_head-HeadOf cs [] pos refl there fits)

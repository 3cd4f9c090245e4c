-- ===== src/Sync/Http/Bounds.antt =====
-- How much a request may hold: crates/vault-sync/src/server.rs.
use ubod.Base.{
  ℕ, ◌≤◌, String, true, false, leb, ltb, Option, none, some, List, [], ◌∷◌, ◌++◌, ◌≡◌, arith,
  length, take, length-take, Bool-cases, inl, inr,
}
use ubod.Base.Exec.{Result, ok, err}
use ubod.Base.Foreign.{Foreign}
use ubod.Fs.World.{lookup}
use ubod.Sync.{SyncError, Request}
use ubod.Sync.Http.{
  Chunks, read_head, read_body, is_chunked, length_of, body_opt, request_of, with_headers,
  with_lines, with_head, headers_of, lines, read_http_request,
}

-- A read of the body that returns gives exactly what was asked for.
abbrev HasLength : ℕ → Result SyncError (List ℕ × Chunks) → Type 0
HasLength n (err e) = Unit
HasLength n (ok (body, cs)) = length body ≡ n

taken : (n : ℕ) (body : List ℕ) → leb n (length body) ≡ true → length (take n body) ≡ n
taken n body h = ground (arith, h, length-take n body)

read_body-HasLength : (n : ℕ) (body : List ℕ) (cs : Chunks) → HasLength n (read_body n body cs)
unfolding read_body
read_body-HasLength n body [] = elim (Bool-cases (leb n (length body))) [
  | inl e ↦ rw e (taken n body e)
  | inr e ↦ rw e tt
]
read_body-HasLength n body (c ∷ cs) = elim (Bool-cases (leb n (length body))) [
  | inl e ↦ rw e (taken n body e)
  | inr e ↦ rw e (read_body-HasLength n (body ++ c) cs)
]

abbrev pub body_length : Option (List ℕ) → ℕ
body_length none = 0
body_length (some body) = length body

-- The body of a request that is read is no longer than the limit.
abbrev pub Bounded : ℕ → Result SyncError (Option (Request × Chunks)) → Type 0
Bounded max_body (err e) = Unit
Bounded max_body (ok none) = Unit
Bounded max_body (ok (some (r, cs))) = body_length r.body ≤ max_body

module _ ⦃f : Foreign⦄ where
  body_opt-le :
      (n max_body : ℕ) (body : List ℕ)
      → length body ≡ n
      → ltb max_body n ≡ false
      → body_length (body_opt n body) ≤ max_body
  body_opt-le n max_body body h k = ground (arith, h, k)

  request_of-Bounded :
      (max_body : ℕ) (line : String) (headers : List (String × String)) (n : ℕ)
      (r : Result SyncError (List ℕ × Chunks))
      → HasLength n r
      → ltb max_body n ≡ false
      → Bounded max_body (request_of line headers n r)
  request_of-Bounded max_body line headers n (err e) h k = tt
  request_of-Bounded max_body line headers n (ok (body, cs)) h k = body_opt-le n max_body body h k

  with_headers-Bounded :
      (max_body : ℕ) (line : String) (headers : List (String × String)) (body : List ℕ)
      (cs : Chunks)
      → Bounded max_body (with_headers max_body line headers body cs)
  unfolding with_headers
  with_headers-Bounded max_body line headers body cs =
      let n = length_of (lookup "content-length" headers) in
      elim (Bool-cases (is_chunked (lookup "transfer-encoding" headers))) [
        | inl e ↦ rw e tt
        | inr e ↦ elim (Bool-cases (ltb max_body n)) [
          | inl k ↦ rw (e, k) tt
          | inr k ↦
              rw (e, k)
                (request_of-Bounded max_body line headers n (read_body n body cs)
                  (read_body-HasLength n body cs) k)
        ]
      ]

  with_lines-Bounded :
      (max_body : ℕ) (ls : List String) (body : List ℕ) (cs : Chunks)
      → Bounded max_body (with_lines max_body ls body cs)
  with_lines-Bounded max_body [] body cs = tt
  with_lines-Bounded max_body (line ∷ rest) body cs =
      with_headers-Bounded max_body line (headers_of rest []) body cs

  module _ (from_utf8_lossy : List ℕ → String) where
    with_head-Bounded :
        (max_body : ℕ) (r : Result SyncError (Option (List ℕ × List ℕ × Chunks)))
        → Bounded max_body (with_head from_utf8_lossy max_body r)
    with_head-Bounded max_body (err e) = tt
    with_head-Bounded max_body (ok none) = tt
    with_head-Bounded max_body (ok (some (head, body, cs))) =
        with_lines-Bounded max_body (lines (from_utf8_lossy head)) body cs

    -- However a stream is cut into pieces and whatever its bytes are, a request that is read off it has a
    -- body of at most `max_body` bytes.
    pub read_http_request-Bounded :
        (max_body : ℕ) (cs : Chunks)
        → Bounded max_body (read_http_request from_utf8_lossy max_body cs)
    unfolding read_http_request
    read_http_request-Bounded max_body cs = with_head-Bounded max_body (read_head [] cs)

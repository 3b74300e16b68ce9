-- ===== src/Http1/Writer.antt =====
-- The response side of `HTTP11Handler` of echocorn/http1.py: what it writes, and its bookkeeping.
use echocorn.Base.{
  ℕ, ◌+◌, Bool, true, false, not, Option, some, List, [], ◌∷◌, ◌++◌, length, null, if◌then◌else◌,
}
use echocorn.Base.Bytes.{Bytes, bytes_eq, codes}
use echocorn.Base.Numerals.{decimal}
use echocorn.Utils.Headers.{Headers, has_header}
use echocorn.Http1.Chunked.{crlf}
use echocorn.Http1.Chunked.Encode.{encode_chunk}

-- The settings that the writer reads, and the code outside of it that it calls: `int` on the digits
-- that `normalize_response_headers` lets through as a length, with `none` for the `ValueError`, the
-- coding negotiated from the request's headers, the reason phrase, the date, zlib with what it was
-- given before, and whether `transport.write` raises, from the bytes written and the ones to write.
pub record Env : Type 0 where
  pub compression : Bool
  pub safe_headers : Bool
  pub int_of : Bytes → Option ℕ
  pub negotiate : Headers → Option Bytes
  pub status_phrase : ℕ → Bytes
  pub date : Bytes
  pub compress : Bytes → List Bytes → Bytes → Bytes
  pub flush : Bytes → List Bytes → Bytes
  pub broken : Bytes → Bytes → Bool

-- What the writer reads of the request's scope.
pub record Scope : Type 0 where
  pub method : Bytes
  pub http_version : Bytes
  pub headers : Headers

-- The locals of `_write_response`, the fields of the request that it sets, and the connection. The
-- compressor is its coding and what it was given.
pub record Writer : Type 0 where
  pub headers : Headers
  pub compressor : Option (Bytes × List Bytes)
  pub chunked : Bool
  pub started : Bool
  pub aborted : Bool
  pub trailers_expected : Bool
  pub awaiting_trailers : Bool
  pub discard_body : Bool
  pub declared_length : Option ℕ
  pub body_bytes : ℕ
  pub status : Option ℕ
  pub keep_alive : Bool
  pub bytes_sent : ℕ
  pub wire : Bytes
  pub closed : Bool

abbrev safe_fields : Headers
safe_fields =
    (codes "strict-transport-security", codes "max-age=31536000; includeSubDomains; preload")
    ∷ (codes "cross-origin-opener-policy", codes "same-origin")
    ∷ (codes "cross-origin-embedder-policy", codes "require-corp")
    ∷ (codes "cross-origin-resource-policy", codes "same-origin")
    ∷ (codes "x-frame-options", codes "SAMEORIGIN")
    ∷ (codes "x-content-type-options", codes "nosniff")
    ∷ (codes "referrer-policy", codes "strict-origin-when-cross-origin")
    ∷ (codes "permissions-policy", codes "geolocation=(), camera=(), microphone=()")
    ∷ []

-- `_write`; a transport that raises closes the connection.
unfoldable pub write : Env → Bytes → Writer → Writer
write env data_ w =
    if w.closed
    then w
    else if null data_
    then w
    else if env.broken w.wire data_
    then (record w { closed = true })
    else (record w { wire = w.wire ++ data_ })

-- `_write_chunk`
unfoldable pub write_chunk : Env → Bytes → Writer → Writer
unfolding write encode_chunk
write_chunk env data_ w =
    if null data_
    then w
    else let w' = write env (if w.chunked then encode_chunk data_ else data_) w in
      record w' { bytes_sent = w'.bytes_sent + length data_ }

abbrev pub field_lines : Headers → Bytes
field_lines [] = []
field_lines ((name, value) ∷ headers) = name ++ codes ": " ++ value ++ crlf ++ field_lines headers

abbrev status_line : Env → ℕ → Bytes
status_line env status =
    codes "HTTP/1.1 " ++ decimal status ++ codes " " ++ env.status_phrase status ++ crlf

-- the fields of the second list that the first does not have
abbrev missing : Headers → Headers → Headers
missing headers [] = []
missing headers ((name, value) ∷ fields) =
    let rest = missing headers fields in
    if has_header headers name then rest else (name, value) ∷ rest

abbrev connection_fields : Scope → Bool → Headers
connection_fields scope keep_alive =
    if not keep_alive
    then (codes "connection", codes "close") ∷ []
    else if bytes_eq scope.http_version (codes "1.0")
    then (codes "connection", codes "keep-alive") ∷ []
    else []

-- `_build_head`
unfoldable pub build_head : Env → Scope → ℕ → Headers → Bool → Bytes
unfolding decimal has_header bytes_eq
build_head env scope status headers keep_alive =
    status_line env status
    ++ field_lines
        (missing headers ((codes "date", env.date) ∷ (codes "server", codes "echocorn/1.0.5") ∷ []))
    ++ field_lines headers
    ++ field_lines (if env.safe_headers then missing headers safe_fields else [])
    ++ field_lines (connection_fields scope keep_alive)
    ++ crlf

-- an informational answer
unfoldable pub interim_head : Env → ℕ → Headers → Bytes
unfolding decimal
interim_head env status headers = status_line env status ++ field_lines headers ++ crlf

-- `_write_error_response`
unfoldable pub write_error_response : Env → Scope → ℕ → Writer → Writer
unfolding write build_head decimal
write_error_response env scope status w =
    let body = codes "Internal Server Error" in
    let headers : Headers =
      (codes "content-type", codes "text/plain; charset=utf-8")
      ∷ (codes "content-length", decimal (length body))
      ∷ [] in
    let w1 : Writer = record w { status = some status; keep_alive = false } in
    let w2 = write env body (write env (build_head env scope status headers false) w1) in
    record w2 { bytes_sent = w2.bytes_sent + length body }

-- ===== src/Http1/Head.antt =====
-- `parse_request_head` of echocorn/http1.py and the helpers beside it. `urlsplit` of the standard
-- library is a parameter: `none` where it raises `ValueError`.
pub mod Framing
use echocorn.Base.{
  ℕ, zero, suc, ◌+◌, ◌-◌, ◌*◌, ◌≡◌, Bool, true, false, ◌&&◌, ◌||◌, not, Option, none, some, List,
  [], ◌∷◌, ◌++◌, leb, ltb, ◌==◌, length, take, drop, null, any, all, if◌then◌else◌, map, is_some,
  get_or_else,
}
use echocorn.Base.Bytes.{
  Bytes, bytes_eq, codes, lower, strip_blanks, starts_with, find, partition, split, mem,
}
use echocorn.Base.Pattern.{
  token_match, is_token_byte, digits_match, has_illegal_value, has_illegal_target,
}
use echocorn.Utils.Authority.{valid_authority}
use echocorn.Utils.Headers.{Headers, list_tokens}
use echocorn.Http1.Error.{Result, ok, err, fail, refuse_if, ◌>>=◌, ◌>>◌}
use echocorn.Http1.Fields.{
  no_fields, ServerConfig, push_line, split_lines, version_match, request_line, decimal, Fields,
  starts_blank, read_length, read_expect, read_field, field_line, add_field, read_line, read_lines,
}

pub record ParsedHead : Type 0 where
  pub method : Bytes
  pub target : Bytes
  pub version : Bytes
  pub headers : Headers
  pub content_length : Option ℕ
  pub chunked : Bool
  pub keep_alive : Bool
  pub expect_continue : Bool
  pub host : Bytes

abbrev pub max_target_length : ℕ
max_target_length = 8192

abbrev allowed_methods : List Bytes
allowed_methods =
    map codes ("GET" ∷ "HEAD" ∷ "POST" ∷ "PUT" ∷ "DELETE" ∷ "PATCH" ∷ "OPTIONS" ∷ "TRACE" ∷ [])

abbrev http11 : Bytes
http11 = codes "1.1"

unfoldable pub is_absolute : Bytes → Bool
unfolding starts_with
is_absolute target = starts_with target (codes "http://") || starts_with target (codes "https://")

-- The host, and whether the authority is known.
unfoldable pub host_of : Bytes → Bytes → List Bytes → Result (Bytes × Bool)
unfolding is_absolute
host_of version target [] =
    if bytes_eq version http11
    then fail 400 (codes "missing host header")
    else ok ([], is_absolute target)
host_of version target (host ∷ []) =
    if not (valid_authority host) then fail 400 (codes "invalid host header") else ok (host, true)
host_of version target (host ∷ other ∷ hosts) = fail 400 (codes "duplicate host header")

-- The first `host` field gets the authority, any further one is left out.
unfoldable pub rewrite_host : Bool → Bytes → Headers → Headers
unfolding bytes_eq
rewrite_host seen authority [] = if seen then [] else (codes "host", authority) ∷ []
rewrite_host seen authority ((name, value) ∷ headers) =
    let unseen = rewrite_host true authority headers in
    let same = rewrite_host seen authority headers in
    if bytes_eq name (codes "host")
    then (if seen then unseen else (codes "host", authority) ∷ unseen)
    else (name, value) ∷ same

abbrev count_of : Bytes → List Bytes → ℕ
count_of x [] = 0
count_of x (y ∷ ys) = (if bytes_eq x y then 1 else 0) + count_of x ys

abbrev last_or : Bytes → List Bytes → Bytes
last_or d [] = d
last_or d (x ∷ xs) = last_or x xs

-- How the body is framed: whether it is chunked, and its announced length.
unfoldable pub framing : ServerConfig → Bytes → List Bytes → List ℕ → Result (Bool × Option ℕ)
framing config version [] [] = ok (false, none)
framing config version [] (n ∷ lengths) = do
  refuse_if (any (λ m. not (m == n)) lengths) 400 (codes "conflicting content-length values")
  refuse_if (not (config.max_request_size == 0) && ltb config.max_request_size n) 413
      (codes "payload too large")
  ok (false, some n)
framing config version (c ∷ encodings) lengths = do
  refuse_if (bytes_eq version (codes "1.0")) 400 (codes "transfer-encoding is not valid in h10")
  refuse_if (not (null lengths)) 400 (codes "both transfer-encoding and content-length present")
  refuse_if (ltb 1 (count_of (codes "chunked") (c ∷ encodings))) 400
      (codes "chunked applied more than once")
  refuse_if (not (bytes_eq (last_or c encodings) (codes "chunked"))) 400
      (codes "chunked must be the final transfer coding")
  refuse_if (any (λ t. not (bytes_eq t (codes "chunked"))) (c ∷ encodings)) 501
      (codes "unsupported transfer coding")
  ok (true, none)

unfoldable keep_alive_of : Bytes → Bool → List Bytes → Bool
unfolding bytes_eq
keep_alive_of version authority_known tokens =
    if mem (codes "close") tokens
    then false
    else if mem (codes "keep-alive") tokens && (bytes_eq version http11 || authority_known)
    then true
    else bytes_eq version http11

unfoldable pub check_method : Bytes → Result (Unit {0})
unfolding bytes_eq
check_method method =
    if mem method allowed_methods
    then ok tt
    else err (record {
      status = 405;
      message = codes "method not allowed";
      allow = some (codes "DELETE, GET, HEAD, OPTIONS, PATCH, POST, PUT, TRACE");
    })

-- What `urlsplit` makes of a target.
pub record Url : Type 0 where
  pub netloc : Bytes
  pub path : Bytes
  pub query : Bytes

-- `_split_target`: the raw path and the query string.
unfoldable pub split_target : (Bytes → Option Url) → Bytes → Result (Bytes × Bytes)
unfolding is_absolute bytes_eq partition starts_with
split_target urlsplit target =
    if bytes_eq target (codes "*")
    then ok (codes "*", [])
    else if starts_with target (codes "/")
    then (let (path, found, query) = partition b'?' target in ok (path, query))
    else if is_absolute target
    then elim (urlsplit target) [
      | none ↦ fail 400 (codes "malformed authority in request target")
      | some url ↦
          if null url.netloc
          then fail 400 (codes "missing authority in request target")
          else ok ((if null url.path then codes "/" else url.path), url.query)
    ]
    else fail 400 (codes "unsupported request target form")

unfoldable pub target_authority : (Bytes → Option Url) → Bytes → Option Bytes
target_authority urlsplit target = elim (urlsplit target) [
  | none ↦ none
  | some url ↦ some url.netloc
]

-- What an absolute target makes of the host, the knowledge of it, and the fields.
unfoldable pub apply_target :
    (Bytes → Option Url) → Bytes → Headers → Bytes × Bool → Result (Bytes × Bool × Headers)
unfolding is_absolute target_authority rewrite_host
apply_target urlsplit target headers (host, known) =
    if not (is_absolute target)
    then ok (host, known, headers)
    else elim (target_authority urlsplit target) [
      | none ↦ fail 400 (codes "malformed authority in request target")
      | some authority ↦ do
        refuse_if (null authority) 400 (codes "missing authority in request target")
        refuse_if (not (valid_authority authority)) 400
            (codes "invalid authority in request target")
        ok (authority, true, rewrite_host false authority headers)
    ]

unfoldable pub build_head :
    Bytes × Bytes × Bytes → Fields → Bytes × Bool × Headers → Bool × Option ℕ → ParsedHead
unfolding keep_alive_of
build_head (method, target, version) f (host, known, headers) (chunked, content_length) = record {
  method = method;
  target = target;
  version = version;
  headers = headers;
  content_length = content_length;
  chunked = chunked;
  keep_alive = keep_alive_of version known f.connection_tokens;
  expect_continue = f.expect_continue;
  host = host;
}

-- the head of complete lines
unfoldable pub head_of :
    (Bytes → Option Url) → ServerConfig → Bytes × Bytes × Bytes → List Bytes → Result ParsedHead
unfolding check_method read_lines host_of apply_target framing build_head
head_of urlsplit config (method, target, version) lines = do
  refuse_if (ltb max_target_length (length target)) 414 (codes "URI too long")
  refuse_if (has_illegal_target target) 400 (codes "illegal character in request target")
  check_method method
  f ← read_lines config 1 lines no_fields
  from_field ← host_of version target f.host_values
  site ← apply_target urlsplit target f.headers from_field
  frame ← framing config version f.transfer_encodings f.content_lengths
  ok (build_head (method, target, version) f site frame)

abbrev pub crlf2 : Bytes
crlf2 = 13 ∷ 10 ∷ 13 ∷ 10 ∷ []

abbrev pub request_of : (Bytes → Option Url) → ServerConfig → List Bytes → Result ParsedHead
request_of urlsplit config [] = fail 400 (codes "malformed request line")
request_of urlsplit config (first ∷ lines) = elim (request_line first) [
  | none ↦ fail 400 (codes "malformed request line")
  | some parts ↦ head_of urlsplit config parts lines
]

-- the head that ends at `index`, and the buffer behind it
unfoldable pub head_at :
    (Bytes → Option Url) → ServerConfig → Bytes → ℕ → Result (Option (ParsedHead × Bytes))
unfolding split_lines request_line head_of
head_at urlsplit config buffer index = do
  refuse_if (ltb config.max_header_size (index + 4)) 431 (codes "request head too large")
  head ← request_of urlsplit config (split_lines (take index buffer))
  ok (some (head, drop (index + 4) buffer))

-- `none` when more data is required.
unfoldable pub parse_request_head :
    (Bytes → Option Url) → ServerConfig → Bytes → Result (Option (ParsedHead × Bytes))
unfolding find head_at
parse_request_head urlsplit config buffer = elim (find buffer crlf2) [
  | none ↦
      if ltb config.max_header_size (length buffer)
      then fail 431 (codes "request head too large")
      else ok none
  | some index ↦ head_at urlsplit config buffer index
]

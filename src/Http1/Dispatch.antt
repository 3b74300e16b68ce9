-- ===== src/Http1/Dispatch.antt =====
-- `_start_request` of echocorn/http1.py: what becomes of the bytes of a request head, up to the new
-- exchange or WebSocket session. The limiter is any state with a check; the regular expression
-- `_METHOD_RE` and base64 are functions.
pub mod Admitted
pub mod Limited
mod Tests
use echocorn.Base.{
  ℕ, ◌-◌, Bool, true, false, ◌&&◌, ◌||◌, not, Option, none, some, List, [], ◌∷◌, ◌++◌, leb, ltb,
  ◌==◌, length, take, drop, null, all, if◌then◌else◌, map,
}
use echocorn.Base.Bytes.{Bytes, bytes_eq, codes, strip, find, split, is_digit, is_alpha}
use echocorn.Base.Numerals.{decimal}
use echocorn.RateLimit.{retry_after_seconds}
use echocorn.Utils.Authority.{authority_host}
use echocorn.Utils.Headers.{Headers, get_header}
use echocorn.WebSocket.Text.{wants_websocket}
use echocorn.Http1.Error.{Result, ok, err}
use echocorn.Http1.Fields.{ServerConfig}
use echocorn.Http1.Head.{ParsedHead, Url, parse_request_head, split_target}

pub record Settings : Type 0 where
  pub limits : ServerConfig
  pub bind_domain : Bytes
  pub websockets : Bool

-- What `_send_error` is called with.
pub record Refusal : Type 0 where
  pub status : ℕ
  pub message : Bytes
  pub allow : Option Bytes
  pub extra : Headers
  pub method : Bytes
  pub target : Bytes

-- What becomes of the buffer: more is needed, an error answer, a WebSocket session, or an exchange;
-- with the raw path, the query and what is left in the buffer.
pub data Dispatch : Type 0 where
  incomplete : Dispatch
  refused : Refusal → Dispatch
  upgraded : ParsedHead → Bytes → Bytes → Bytes → Dispatch
  dispatched : ParsedHead → Bytes → Bytes → Bytes → Dispatch

-- `check` of the limiter: the wait of a client that is refused
pub record Limiter (S : Type 0) : Type 0 where
  pub check : Bytes → S → Option ℕ × S

abbrev first_line : Bytes → Bytes
first_line buffer = elim (find buffer (codes "\r\n")) [ none ↦ buffer | some end ↦ take end buffer ]

abbrev upper_byte : ℕ → ℕ
upper_byte c = if leb b'a' c && leb c b'z' then c - 32 else c

-- the letters in front of a blank, `none` behind something else
unfoldable pub letters : Bytes → Option Bytes
letters [] = none
letters (c ∷ s) =
    let rest = letters s in
    if is_alpha c
    then elim rest [ none ↦ none | some word ↦ some (upper_byte c ∷ word) ]
    else if (c == 32) || (c == 9)
    then some []
    else none

-- `_peek_method`; a blank in front leaves no method
unfoldable pub peek_method : Bytes → Bytes
unfolding find letters
peek_method buffer = elim (letters (first_line buffer)) [ none ↦ [] | some word ↦ word ]

abbrev second : List Bytes → Bytes
second [] = []
second (a ∷ []) = []
second (a ∷ b ∷ rest) = b

-- `_peek_target`
unfoldable pub peek_target : Bytes → Bytes
unfolding find split
peek_target buffer = second (split 32 (first_line buffer))

abbrev pub plain_refusal : ℕ → Bytes → Bytes → Bytes → Refusal
plain_refusal status message method target = record {
  status = status;
  message = message;
  allow = none;
  extra = [];
  method = method;
  target = target;
}

abbrev is_base64_byte : ℕ → Bool
is_base64_byte c = is_digit c || is_alpha c || (c == b'+') || (c == b'/')

-- `valid_key`: what decodes to sixteen bytes
unfoldable pub valid_key : Bytes → Bool
unfolding bytes_eq
valid_key key =
    (length key == 24) && all is_base64_byte (take 22 key) && bytes_eq (drop 22 key) (codes "==")

abbrev has_body : ParsedHead → Bool
has_body head = head.chunked || (elim head.content_length [ none ↦ false | some n ↦ not (n == 0) ])

-- the tests of the handshake in `_serve_websocket`
unfoldable pub handshake_error : ParsedHead → Option Refusal
unfolding get_header valid_key strip bytes_eq
handshake_error head =
    let refuse : ℕ → Bytes → Headers → Refusal = λ status message extra.
      record (plain_refusal status message head.method head.target) { extra = extra } in
    let good_key : Bool = elim (get_header head.headers (codes "sec-websocket-key")) [
      | none ↦ false
      | some key ↦ valid_key (strip key)
    ] in
    let good_version : Bool = elim (get_header head.headers (codes "sec-websocket-version")) [
      | none ↦ false
      | some version ↦ bytes_eq (strip version) (codes "13")
    ] in
    if not good_key
    then some (refuse 400 (codes "invalid sec-websocket-key") [])
    else if not good_version
    then some (
        refuse 426 (codes "unsupported websocket version")
          ((codes "sec-websocket-version", codes "13") ∷ []))
    else if has_body head
    then some (refuse 400 (codes "websocket upgrade with a request body") [])
    else none

abbrev pub refused_or : Option Refusal → Dispatch → Dispatch
refused_or none d = d
refused_or (some refusal) d = refused refusal

unfoldable pub serve_websocket : ParsedHead → Bytes → Bytes → Bytes → Dispatch
unfolding handshake_error
serve_websocket head path query rest =
    refused_or (handshake_error head) (upgraded head path query rest)

-- the request is for another host than the one that is served
unfoldable pub misdirected : Settings → ParsedHead → Bool
unfolding authority_host bytes_eq
misdirected settings head =
    not (null settings.bind_domain)
    && not (bytes_eq (authority_host head.host) (authority_host settings.bind_domain))

abbrev pub asks_upgrade : Settings → ParsedHead → Bool
asks_upgrade settings head =
    settings.websockets
    && bytes_eq head.version (codes "1.1")
    && bytes_eq head.method (codes "GET")
    && wants_websocket head.headers

-- the request with its target split
unfoldable pub route_to : Settings → ParsedHead → Bytes → Bytes → Bytes → Dispatch
unfolding misdirected wants_websocket serve_websocket bytes_eq
route_to settings head path query rest =
    if misdirected settings head
    then refused (plain_refusal 421 (codes "misdirected request") head.method head.target)
    else if asks_upgrade settings head
    then serve_websocket head path query rest
    else dispatched head path query rest

-- what follows once the limiter has let the request through
unfoldable pub route : (Bytes → Option Url) → Settings → ParsedHead → Bytes → Dispatch
unfolding split_target route_to
route urlsplit settings head rest = elim (split_target urlsplit head.target) [
  | err e ↦ refused (plain_refusal e.status e.message head.method head.target)
  | ok split ↦ route_to settings head split.0 split.1 rest
]

abbrev pub too_many : ℕ → ParsedHead → Refusal
too_many ticks head =
    record (plain_refusal 429 (codes "too many requests") head.method head.target) {
      extra = (codes "retry-after", decimal (retry_after_seconds ticks)) ∷ [];
    }

abbrev pub refusal_of : Option ℕ → ParsedHead → Option Refusal
refusal_of none head = none
refusal_of (some ticks) head = some (too_many ticks head)

-- `_allow_request`, and what follows
unfoldable pub admit :
    {S : Type 0}
    → (Bytes → Option Url)
    → Settings
    → Limiter S
    → Bytes
    → ParsedHead
    → Bytes
    → S
    → Dispatch × S
unfolding route retry_after_seconds decimal
admit urlsplit settings limiter client head rest s =
    let (wait, s') = limiter.check client s in
    (refused_or (refusal_of wait head) (route urlsplit settings head rest), s')

-- what becomes of a head that is parsed, or not
unfoldable pub start_parsed :
    {S : Type 0}
    → (Bytes → Option Url)
    → Settings
    → Limiter S
    → Bytes
    → Bytes
    → S
    → Result (Option (ParsedHead × Bytes))
    → Dispatch × S
unfolding admit peek_method peek_target
start_parsed urlsplit settings limiter client buffer s (err e) = (
  refused (record (plain_refusal e.status e.message (peek_method buffer) (peek_target buffer)) {
    allow = e.allow;
  }),
  s,
)
start_parsed urlsplit settings limiter client buffer s (ok none) = (incomplete, s)
start_parsed urlsplit settings limiter client buffer s (ok (some (head, rest))) =
    admit urlsplit settings limiter client head rest s

unfoldable pub start_request :
    {S : Type 0} → (Bytes → Option Url) → Settings → Limiter S → Bytes → Bytes → S → Dispatch × S
unfolding parse_request_head start_parsed
start_request urlsplit settings limiter client buffer s =
    start_parsed urlsplit settings limiter client buffer s
      (parse_request_head urlsplit settings.limits buffer)

-- without a limiter
abbrev pub unlimited : Limiter (Unit {0})
unlimited = record { check = λ client s. (none, s) }

-- ===== src/Http1/Dispatch/Tests.antt =====
-- Runs of `_start_request` of echocorn/http1.py at concrete inputs.
use native.Mathlib.Omega.{arith}
use echocorn.Base.{
  length, ◌≤◌, ◌+◌, ℕ, ◌≡◌, refl, ap, Bool, true, false, Option, none, some, List, [], ◌∷◌, ◌++◌,
}
use echocorn.Base.Bytes.{Bytes, codes}
use echocorn.Http1.Error.{ok}
use echocorn.Http1.Head.{ParsedHead, Url, parse_request_head, split_target}
use echocorn.Http1.Dispatch.{Settings, Limiter, refused, dispatched, misdirected, start_request}
use echocorn.RateLimit.Limiter.{RateLimiter, LimiterConfig, World, make_limiter, from_config}
use echocorn.Http1.Dispatch.Limited.{Arrival, limiter_at, one_of, passed_in}
use echocorn.Http1.Dispatch.Limited.Bound.{start_request-passed_in}
use echocorn.Http1.Dispatch.Admitted.{passed_on, start_request-passed_on}

-- a parser that reads no authority
abbrev no_url : Bytes → Option Url
no_url target = none

abbrev settings : Settings
settings = record {
  limits = record { max_header_size = 200; max_header_count = 9; max_request_size = 100 };
  bind_domain = codes "H:443";
  websockets = true;
}

-- one request for each client, and a wait of five seconds
abbrev once : Limiter Bool
once = record { check = λ client seen. (if_seen seen, true) }
  where
    if_seen : Bool → Option ℕ
    if_seen true = some 5
    if_seen false = none

abbrev sent : Bytes
sent = codes "GET /a?b HTTP/1.1\r\nHost: h\r\n\r\nnext"

abbrev head : ParsedHead
head = record {
  method = codes "GET";
  target = codes "/a?b";
  version = codes "1.1";
  headers = (codes "host", codes "h") ∷ [];
  content_length = none;
  chunked = false;
  keep_alive = true;
  expect_continue = false;
  host = codes "h";
}

sent_dispatched :
    start_request no_url settings once (codes "c") sent false
    ≡ (dispatched head (codes "/a") (codes "b") (codes "next"), true)
unfolding start_request echocorn.Base.Pattern.has_illegal_target echocorn.Base.Pattern.token_match
    echocorn.Base.Pattern.has_illegal_value echocorn.Base.Bytes.strip_blanks
    echocorn.Utils.Authority.valid_authority
sent_dispatched = refl

start_request-passed_on_example :
    (parse_request_head no_url settings.limits sent ≡ ok (some (head, codes "next")))
    × ((once.check (codes "c") false).0 ≡ none)
    × (split_target no_url head.target ≡ ok (codes "/a", codes "b"))
    × (misdirected settings head ≡ false)
start_request-passed_on_example =
    start_request-passed_on no_url settings once (codes "c") sent false head (codes "/a")
      (codes "b") (codes "next") (ap (λ r. passed_on r.0) sent_dispatched)

-- the second request of the client
sent_refused : start_request no_url settings once (codes "c") sent true ≡ (
  refused (record {
    status = 429;
    message = codes "too many requests";
    allow = none;
    extra = (codes "retry-after", codes "1") ∷ [];
    method = codes "GET";
    target = codes "/a?b";
  }),
  true,
)
unfolding start_request echocorn.Base.Pattern.has_illegal_target echocorn.Base.Pattern.token_match
    echocorn.Base.Pattern.has_illegal_value echocorn.Base.Bytes.strip_blanks
    echocorn.Utils.Authority.valid_authority
sent_refused = refl

-- a line without a version: the answer still names the method and the target
bad_refused : start_request no_url settings once (codes "c") (codes "get /a b\r\n\r\n") false ≡ (
  refused (record {
    status = 400;
    message = codes "malformed request line";
    allow = none;
    extra = [];
    method = codes "GET";
    target = codes "/a";
  }),
  false,
)
unfolding start_request echocorn.Base.Pattern.has_illegal_target echocorn.Base.Pattern.token_match
    echocorn.Base.Pattern.has_illegal_value echocorn.Base.Bytes.strip_blanks
    echocorn.Utils.Authority.valid_authority
bad_refused = refl

abbrev world : World
world = record {
  crc32 = length;
  pack = λ client. client;
  stuck = λ shard. false;
  busy = λ shard. false;
}

abbrev config : LimiterConfig
config = record {
  ratelimit_enabled = true;
  ratelimit_requests = 1;
  ratelimit_peak = 9;
  ratelimit_window = 10_000_000;
  ratelimit_ban = 0;
  ratelimit_cache_size = 1;
}

abbrev limiter : RateLimiter
unfolding make_limiter
limiter = make_limiter 1 9 10_000_000 0 none (some 2048)

abbrev arrival : Bytes → ℕ → Arrival
arrival client moment = record { client = client; buffer = sent; moment = moment }

abbrev arrivals : List Arrival
arrivals =
    arrival (codes "c") 100
    ∷ arrival (codes "d") 110
    ∷ arrival (codes "c") 120
    ∷ arrival (codes "c") 130
    ∷ []

config-limiter : from_config config none ≡ some limiter
unfolding from_config
config-limiter = refl

start_request-passed_in_example :
    passed_in no_url settings world limiter.limits.window 150 (codes "c") arrivals limiter ≤ 1 + 1
unfolding make_limiter
start_request-passed_in_example =
    start_request-passed_in no_url settings world config limiter arrivals 150 (codes "c")
      config-limiter (omega arith, (omega arith, (omega arith, (omega arith, tt)))) (omega arith)

-- the bound is reached, and stays below the peak of nine
two_passed :
    passed_in no_url settings world limiter.limits.window 150 (codes "c") arrivals limiter ≡ 2
unfolding passed_in limiter limiter_at one_of echocorn.Base.Pattern.has_illegal_target
    echocorn.Base.Pattern.token_match echocorn.Base.Pattern.has_illegal_value
    echocorn.Base.Bytes.strip_blanks echocorn.Utils.Authority.valid_authority
two_passed = refl

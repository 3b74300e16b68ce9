-- ===== src/Config.antt =====
-- `ServerConfig` of echocorn/config.py: the settings and their defaults.
pub mod Checks
pub mod Rules
pub mod Valid
pub mod Schema
pub mod Target
pub mod Load
pub mod Accepted
pub mod Known
mod Tests
use echocorn.Base.{
  ℕ, ◌-◌, ◌+◌, ◌≡◌, ◌⊎◌, inl, inr, refl, Bool, true, false, ◌&&◌, ◌||◌, not, Option, none, some,
  List, [], ◌∷◌, map, leb, ltb, ◌==◌, null, if◌then◌else◌, any,
}
use echocorn.Base.Bytes.{Bytes, bytes_eq, codes, lstrip_by, rstrip_by}

-- `ConfigError` and `ValueError`, with the message less the file's name and less what Python prints of a value
pub data Checked (A : Type 0) : Type 0 where
  accepted : A → Checked A
  rejected : Bytes → Checked A

infixl 5 ◌>>=◌ ◌>>◌
abbrev pub ◌>>=◌ : {Given Next : Type 0} → Checked Given → (Given → Checked Next) → Checked Next
rejected message >>= next = rejected message
accepted given >>= next = next given

abbrev pub ◌>>◌ : {Next : Type 0} → Checked (Unit {0}) → Checked Next → Checked Next
test >> next = test >>= λ _. next

abbrev pub reject_if : Bool → Bytes → Checked (Unit {0})
reject_if true message = rejected message
reject_if false message = accepted tt

-- Python's integers
pub data ℤ : Type 0 where
  pos : ℕ → ℤ
  negsuc : ℕ → ℤ

abbrev pub below : ℤ → ℕ → Bool
below (pos n) bound = ltb n bound
below (negsuc n) bound = true

abbrev pub above : ℤ → ℕ → Bool
above (pos n) bound = ltb bound n
above (negsuc n) bound = false

-- `int(max(0, i))`
abbrev pub magnitude : ℤ → ℕ
magnitude (pos n) = n
magnitude (negsuc n) = 0

-- Python's floats, as far as the checks tell them apart: a finite one is a number of halves of a power
-- of two.
pub data Float : Type 0 where
  finite : ℤ → ℕ → Float
  infinite : Bool → Float
  nan : Float

-- `x < 0`, where `infinite true` is the one below zero
abbrev pub is_negative : Float → Bool
is_negative (finite i scale) = below i 0
is_negative (infinite minus) = minus
is_negative nan = false

-- `x <= 0`
abbrev pub not_positive : Float → Bool
not_positive (finite i scale) = below i 1
not_positive (infinite minus) = minus
not_positive nan = false

pub record ServerConfig : Type 0 where
  pub host : Bytes
  pub port : ℤ
  pub workers : ℤ
  pub http1_enabled : Bool
  pub http2_enabled : Bool
  pub websockets : Bool
  pub certfile : Option Bytes
  pub keyfile : Option Bytes
  pub redirect_enabled : Bool
  pub redirect_host : Bytes
  pub redirect_port : ℤ
  pub redirect_status : ℤ
  pub compression : Bool
  pub safe_headers : Bool
  pub bind_domain : Bytes
  pub max_header_size : ℤ
  pub max_header_count : ℤ
  pub max_request_size : ℤ
  pub max_response_size : ℤ
  pub max_websocket_message_size : ℤ
  pub max_connections : ℤ
  pub backlog : ℤ
  pub ratelimit_enabled : Bool
  pub ratelimit_requests : ℤ
  pub ratelimit_peak : ℤ
  pub ratelimit_window : Float
  pub ratelimit_ban : Float
  pub ratelimit_shards : ℤ
  pub ratelimit_cache_size : ℤ
  pub request_timeout : Float
  pub keep_alive_timeout : Float
  pub graceful_timeout : Float
  pub h2_max_concurrent_streams : ℤ
  pub h2_initial_window_size : ℤ
  pub h2_max_frame_size : ℤ
  pub h2_max_header_list_size : ℤ
  pub log_level : Bytes
  pub access_log : Bool
  pub log_color : Bool

-- `app` is not among the fields: nothing in the file sets it.
abbrev pub defaults : ServerConfig
defaults = record {
  host = [];
  port = pos 8000;
  workers = pos 1;
  http1_enabled = true;
  http2_enabled = true;
  websockets = true;
  certfile = none;
  keyfile = none;
  redirect_enabled = false;
  redirect_host = [];
  redirect_port = pos 80;
  redirect_status = pos 308;
  compression = false;
  safe_headers = false;
  bind_domain = [];
  max_header_size = pos 16384;
  max_header_count = pos 128;
  max_request_size = pos 0;
  max_response_size = pos 0;
  max_websocket_message_size = pos 4194304;
  max_connections = pos 0;
  backlog = pos 2048;
  ratelimit_enabled = false;
  ratelimit_requests = pos 10;
  ratelimit_peak = pos 12;
  ratelimit_window = finite (pos 7) 0;
  ratelimit_ban = finite (pos 60) 0;
  ratelimit_shards = pos 64;
  ratelimit_cache_size = pos 128;
  request_timeout = finite (pos 10) 0;
  keep_alive_timeout = finite (pos 5) 0;
  graceful_timeout = finite (pos 10) 0;
  h2_max_concurrent_streams = pos 100;
  h2_initial_window_size = pos 65535;
  h2_max_frame_size = pos 16384;
  h2_max_header_list_size = pos 16384;
  log_level = codes "INFO";
  access_log = true;
  log_color = false;
}

-- `str.upper`, as far as the result may be a level: besides the small letters, the dotless i has a
-- capital letter of ASCII, and the long s, which is in no level.
abbrev upper : ℕ → ℕ
upper c =
    if leb b'a' c && leb c b'z'
    then c - 32
    else if c == 305
    then b'I'
    else if c == 383
    then b'S'
    else c

abbrev canonical : Bytes → Bytes
canonical level =
    if bytes_eq level (codes "WARNING")
    then codes "WARN"
    else if bytes_eq level (codes "CRITICAL")
    then codes "CRIT"
    else level

-- `_LEVEL_ALIASES.get(level.upper(), level.upper())`
unfoldable pub short_level : Bytes → Bytes
unfolding bytes_eq
short_level level = canonical (map upper level)

unfoldable pub is_level : Bytes → Bool
unfolding bytes_eq
is_level level =
    any (bytes_eq level)
      (codes "CRIT" ∷ codes "ERROR" ∷ codes "WARN" ∷ codes "INFO" ∷ codes "DEBUG" ∷ [])

-- what `str.strip` takes off
abbrev is_blank : ℕ → Bool
is_blank c =
    (c == 32)
    || (leb 9 c && leb c 13)
    || (leb 28 c && leb c 31)
    || (c == 133)
    || (c == 160)
    || (c == 5760)
    || (leb 8192 c && leb c 8202)
    || (c == 8232)
    || (c == 8233)
    || (c == 8239)
    || (c == 8287)
    || (c == 12288)

unfoldable pub text_strip : Bytes → Bytes
unfolding lstrip_by rstrip_by
text_strip s = rstrip_by is_blank (lstrip_by is_blank s)

-- the truth of an optional path
abbrev pub is_set : Option Bytes → Bool
is_set none = false
is_set (some path) = not (null path)

-- ===== src/Config/Schema.antt =====
-- `SCHEMA` and `_check` of echocorn/config.py.
use echocorn.Base.{Bool, Option, none, some, List, [], ◌∷◌, null, ◌++◌, if◌then◌else◌}
use echocorn.Base.Bytes.{Bytes, bytes_eq, codes}
use echocorn.Config.{
  Checked, accepted, rejected, ℤ, Float, ServerConfig, short_level, is_level, text_strip,
}

-- A value of a TOML document, that of a nested table or of an array or a date left out.
pub data Value : Type 0 where
  bool : Bool → Value
  int : ℤ → Value
  float : Float → Value
  text : Bytes → Value
  other : Value

-- A key's kind, with the field of `ServerConfig` that it sets.
pub data Entry : Type 0 where
  bool_key : (Bool → ServerConfig → ServerConfig) → Entry
  int_key : (ℤ → ServerConfig → ServerConfig) → Entry
  float_key : (Float → ServerConfig → ServerConfig) → Entry
  level_key : (Bytes → ServerConfig → ServerConfig) → Entry
  path_key : (Option Bytes → ServerConfig → ServerConfig) → Entry
  str_key : (Bytes → ServerConfig → ServerConfig) → Entry

abbrev Table : Type 0
Table = List (Bytes × Entry)

abbrev server_keys : Table
server_keys =
    (codes "host", str_key (λ v c. record c { host = v }))
    ∷ (codes "port", int_key (λ v c. record c { port = v }))
    ∷ (codes "workers", int_key (λ v c. record c { workers = v }))
    ∷ (codes "request_timeout", float_key (λ v c. record c { request_timeout = v }))
    ∷ (codes "keep_alive_timeout", float_key (λ v c. record c { keep_alive_timeout = v }))
    ∷ (codes "graceful_timeout", float_key (λ v c. record c { graceful_timeout = v }))
    ∷ (codes "max_connections", int_key (λ v c. record c { max_connections = v }))
    ∷ (codes "backlog", int_key (λ v c. record c { backlog = v }))
    ∷ (codes "max_header_size", int_key (λ v c. record c { max_header_size = v }))
    ∷ (codes "max_header_count", int_key (λ v c. record c { max_header_count = v }))
    ∷ (codes "max_request_size", int_key (λ v c. record c { max_request_size = v }))
    ∷ (codes "max_response_size", int_key (λ v c. record c { max_response_size = v }))
    ∷ (codes "bind_domain", str_key (λ v c. record c { bind_domain = v }))
    ∷ (codes "compression", bool_key (λ v c. record c { compression = v }))
    ∷ (codes "safe_headers", bool_key (λ v c. record c { safe_headers = v }))
    ∷ []

abbrev http2_keys : Table
http2_keys =
    (codes "enabled", bool_key (λ v c. record c { http2_enabled = v }))
    ∷ (codes "max_concurrent_streams", int_key (λ v c. record c { h2_max_concurrent_streams = v }))
    ∷ (codes "initial_window_size", int_key (λ v c. record c { h2_initial_window_size = v }))
    ∷ (codes "max_frame_size", int_key (λ v c. record c { h2_max_frame_size = v }))
    ∷ (codes "max_header_list_size", int_key (λ v c. record c { h2_max_header_list_size = v }))
    ∷ []

abbrev websocket_keys : Table
websocket_keys =
    (codes "enabled", bool_key (λ v c. record c { websockets = v }))
    ∷ (codes "max_message_size", int_key (λ v c. record c { max_websocket_message_size = v }))
    ∷ []

abbrev redirect_keys : Table
redirect_keys =
    (codes "enabled", bool_key (λ v c. record c { redirect_enabled = v }))
    ∷ (codes "host", str_key (λ v c. record c { redirect_host = v }))
    ∷ (codes "port", int_key (λ v c. record c { redirect_port = v }))
    ∷ (codes "status", int_key (λ v c. record c { redirect_status = v }))
    ∷ []

abbrev ratelimit_keys : Table
ratelimit_keys =
    (codes "enabled", bool_key (λ v c. record c { ratelimit_enabled = v }))
    ∷ (codes "requests", int_key (λ v c. record c { ratelimit_requests = v }))
    ∷ (codes "peak", int_key (λ v c. record c { ratelimit_peak = v }))
    ∷ (codes "window", float_key (λ v c. record c { ratelimit_window = v }))
    ∷ (codes "ban", float_key (λ v c. record c { ratelimit_ban = v }))
    ∷ (codes "shards", int_key (λ v c. record c { ratelimit_shards = v }))
    ∷ (codes "cache_size", int_key (λ v c. record c { ratelimit_cache_size = v }))
    ∷ []

abbrev logging_keys : Table
logging_keys =
    (codes "level", level_key (λ v c. record c { log_level = v }))
    ∷ (codes "access", bool_key (λ v c. record c { access_log = v }))
    ∷ (codes "color", bool_key (λ v c. record c { log_color = v }))
    ∷ []

abbrev schema : List (Bytes × Table)
schema =
    (codes "server", server_keys)
    ∷ (codes "http1", (codes "enabled", bool_key (λ v c. record c { http1_enabled = v })) ∷ [])
    ∷ (codes "http2", http2_keys)
    ∷ (codes "websocket", websocket_keys)
    ∷ (codes "redirect", redirect_keys)
    ∷ (codes "ratelimit", ratelimit_keys)
    ∷ (codes "logging", logging_keys)
    ∷ (
      codes "tls",
      (codes "certfile", path_key (λ v c. record c { certfile = v }))
          ∷ (codes "keyfile", path_key (λ v c. record c { keyfile = v }))
          ∷ [],
    )
    ∷ []

-- `dict.get`
unfoldable pub lookup : {A : Type 0} → Bytes → List (Bytes × A) → Option A
unfolding bytes_eq
lookup name [] = none
lookup name ((key, a) ∷ entries) = if bytes_eq key name then some a else lookup name entries

-- the keys of a section
unfoldable pub section : Bytes → Option Table
unfolding lookup
section name = lookup name schema

abbrev must_be : {A : Type 0} → Bytes → Checked A
must_be expected = rejected (codes "must be " ++ expected)

-- What the loader calls outside of Python's own types: `float` of an integer, `none` for the
-- `OverflowError`, and a path read from the directory of the file.
pub record Env : Type 0 where
  pub float_of : ℤ → Option Float
  pub resolve : Bytes → Bytes
  pub private_address : Bytes → Option Bool

-- `_check`, and the field set to what it returns; `none` for an error that is no `ConfigError`
unfoldable pub check : Env → Entry → Value → ServerConfig → Option (Checked ServerConfig)
unfolding short_level is_level text_strip
check env (bool_key set) (bool b) c = some (accepted (set b c))
check env (bool_key set) _ c = some (must_be (codes "true or false"))
check env (int_key set) (int i) c = some (accepted (set i c))
check env (int_key set) _ c = some (must_be (codes "an integer"))
check env (float_key set) (float x) c = some (accepted (set x c))
check env (float_key set) (int i) c = elim (env.float_of i) [
  | none ↦ none
  | some x ↦ some (accepted (set x c))
]
check env (float_key set) _ c = some (must_be (codes "a number"))
check env (level_key set) (text s) c =
    let level = short_level (text_strip s) in
    if is_level level
    then some (accepted (set level c))
    else some (must_be (codes "one of CRIT, ERROR, WARN, INFO, DEBUG"))
check env (level_key set) _ c = some (must_be (codes "a string"))
check env (path_key set) (text s) c =
    some (accepted (set (if null s then none else some (env.resolve s)) c))
check env (path_key set) _ c = some (must_be (codes "a string path"))
check env (str_key set) (text s) c = some (accepted (set s c))
check env (str_key set) _ c = some (must_be (codes "a string"))

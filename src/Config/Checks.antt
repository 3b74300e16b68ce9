-- ===== src/Config/Checks.antt =====
-- `ServerConfig.__post_init__` of echocorn/config.py.
use echocorn.Base.{
  ℕ, ◌*◌, Bool, true, false, ◌&&◌, ◌||◌, not, Option, none, some, List, [], ◌∷◌, ltb, if◌then◌else◌,
  ◌==◌,
}
use echocorn.Base.Bytes.{Bytes, codes}
use echocorn.RateLimit.{effective_peak, slot_size, min_slots}
use echocorn.Config.{
  Checked, accepted, rejected, ℤ, pos, negsuc, below, above, magnitude, is_negative, not_positive,
  ServerConfig, short_level, is_level, is_set,
}

-- `not low <= i <= high`
abbrev outside : ℕ → ℕ → ℤ → Bool
outside low high i = below i low || above i high

-- `0 < i < j`
abbrev pub positive_below : ℤ → ℤ → Bool
positive_below (pos n) (pos m) = ltb 0 n && ltb n m
positive_below (pos n) (negsuc m) = false
positive_below (negsuc n) j = false

abbrev pub same : ℤ → ℤ → Bool
same (pos n) (pos m) = n == m
same (negsuc n) (negsuc m) = n == m
same _ _ = false

-- `a != b`
abbrev pub differ : Bool → Bool → Bool
differ true b = not b
differ false b = b

-- the table of client counters is too small; a peak below zero counts like none
unfoldable pub table_too_small : ServerConfig → Bool
unfolding effective_peak slot_size
table_too_small c =
    c.ratelimit_enabled
    && ltb (magnitude c.ratelimit_cache_size * 1024 * 1024) (
        min_slots
        * slot_size (effective_peak (magnitude c.ratelimit_requests) (magnitude c.ratelimit_peak)))

-- The conditions in the order in which they are tested, each with the message that it raises.
abbrev pub checks : ServerConfig → List (Bool × Bytes)
checks c =
    (outside 0 65535 c.port, codes "port must be within 0..65535")
    ∷ (outside 1 64 c.workers, codes "workers must be at least 1 (within 1..64)")
    ∷ (below c.backlog 1, codes "backlog must be at least 1")
    ∷ (
      not (is_level (short_level c.log_level)),
      codes "log_level must be one of CRIT, ERROR, WARN, INFO, DEBUG",
    )
    ∷ (
      not (c.http1_enabled || c.http2_enabled),
      codes "at least one of http1.enabled and http2.enabled must be true",
    )
    ∷ (c.websockets && not c.http1_enabled, codes "websocket.enabled requires http1.enabled")
    ∷ (is_negative c.keep_alive_timeout, codes "keep_alive_timeout must not be negative")
    ∷ (is_negative c.graceful_timeout, codes "graceful_timeout must not be negative")
    ∷ (below c.h2_max_concurrent_streams 1, codes "h2_max_concurrent_streams must be positive")
    ∷ (
      below c.h2_max_header_list_size 256,
      codes "h2_max_header_list_size must be at least 256 bytes",
    )
    ∷ (below c.max_header_size 256, codes "max_header_size must be at least 256 bytes")
    ∷ (below c.max_header_count 1, codes "max_header_count must be positive")
    ∷ (below c.max_request_size 0, codes "max_request_size must not be negative")
    ∷ (below c.max_response_size 0, codes "max_response_size must not be negative")
    ∷ (
      below c.max_websocket_message_size 125,
      codes "max_websocket_message_size must be at least 125",
    )
    ∷ (below c.max_connections 0, codes "max_connections must not be negative")
    ∷ (is_negative c.request_timeout, codes "request_timeout must not be negative")
    ∷ (below c.ratelimit_requests 1, codes "ratelimit_requests must be positive")
    ∷ (
      positive_below c.ratelimit_peak c.ratelimit_requests,
      codes "ratelimit_peak must be at least ratelimit_requests, or 0 for no burst",
    )
    ∷ (not_positive c.ratelimit_window, codes "ratelimit_window must be positive")
    ∷ (is_negative c.ratelimit_ban, codes "ratelimit_ban must not be negative")
    ∷ (below c.ratelimit_shards 1, codes "ratelimit_shards must be positive")
    ∷ (below c.ratelimit_cache_size 1, codes "ratelimit_cache_size must be at least one megabyte")
    ∷ (table_too_small c, codes "ratelimit_cache_size is too small for ratelimit_peak")
    ∷ (outside 0 65535 c.redirect_port, codes "redirect_port must be within 0..65535")
    ∷ (
      not (
          same c.redirect_status (pos 301)
          || same c.redirect_status (pos 302)
          || same c.redirect_status (pos 307)
          || same c.redirect_status (pos 308)),
      codes "redirect_status must be 301, 302, 307 or 308",
    )
    ∷ (
      c.redirect_enabled && not (is_set c.certfile && is_set c.keyfile),
      codes "redirect.enabled requires tls.certfile and tls.keyfile",
    )
    ∷ (
      c.redirect_enabled && not (same c.redirect_port (pos 0)) && same c.redirect_port c.port,
      codes "redirect.port must differ from server.port",
    )
    ∷ (
      differ (is_set c.certfile) (is_set c.keyfile),
      codes "tls.certfile and tls.keyfile must be set together",
    )
    ∷ (
      outside 16384 16777215 c.h2_max_frame_size,
      codes "h2_max_frame_size must be within 16384..16777215",
    )
    ∷ (outside 0 2147483647 c.h2_initial_window_size, codes "h2_initial_window_size out of range")
    ∷ []

abbrev pub first_error : List (Bool × Bytes) → Option Bytes
first_error [] = none
first_error ((failed, message) ∷ tests) = if failed then some message else first_error tests

abbrev pub verdict : Option Bytes → ServerConfig → Checked ServerConfig
verdict none c = accepted c
verdict (some message) c = rejected message

unfoldable pub post_init : ServerConfig → Checked ServerConfig
unfolding short_level is_level table_too_small
post_init c = verdict (first_error (checks c)) (record c { log_level = short_level c.log_level })

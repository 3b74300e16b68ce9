-- ===== src/RateLimit/Limiter.antt =====
-- `RateLimiter` of echocorn/ratelimit.py: the limiter of one worker, wherever its counters live.
use echocorn.Base.{
  ℕ, ◌*◌, ◌/◌, ◌==◌, max, Bool, true, false, not, Option, none, some, if◌then◌else◌,
}
use echocorn.Base.Bytes.{Bytes}
use echocorn.RateLimit.{Limits, make_limits, bytes_per_client}
use echocorn.RateLimit.Local
use echocorn.RateLimit.Local.{LocalCounters}
use echocorn.RateLimit.Table
use echocorn.RateLimit.Table.{SharedCounters}

-- Where requests are counted: in this process alone, or in the shared table, whose own local
-- counters are then those of the limiter.
pub data Counters : Type 0 where
  alone : LocalCounters → Counters
  together : SharedCounters → Counters

pub record RateLimiter : Type 0 where
  pub limits : Limits
  pub counters : Counters

-- What a configuration says of the limiter.
pub record LimiterConfig : Type 0 where
  pub ratelimit_enabled : Bool
  pub ratelimit_requests : ℕ
  pub ratelimit_peak : ℕ
  pub ratelimit_window : ℕ
  pub ratelimit_ban : ℕ
  pub ratelimit_cache_size : ℕ

-- the counters of a limiter with those limits
abbrev pub counters_of : Limits → Option ℕ → Option SharedCounters → Counters
counters_of limits capacity (some shared) = together shared
counters_of limits capacity none =
    alone (Local.init limits.requests limits.peak limits.window limits.ban capacity)

-- `__init__`
unfoldable pub make_limiter : ℕ → ℕ → ℕ → ℕ → Option SharedCounters → Option ℕ → RateLimiter
unfolding make_limits Local.init
make_limiter requests peak window ban shared capacity =
    let limits = make_limits requests peak window ban in
    record { limits = limits; counters = counters_of limits capacity shared }

unfoldable pub capacity_of : ℕ → Option ℕ
capacity_of cache_size =
    if cache_size == 0 then none else some (max 1024 (cache_size * 1024 * 1024 / bytes_per_client))

unfoldable pub from_config : LimiterConfig → Option SharedCounters → Option RateLimiter
unfolding make_limiter capacity_of
from_config config shared =
    if not config.ratelimit_enabled
    then none
    else some (
        make_limiter config.ratelimit_requests config.ratelimit_peak config.ratelimit_window
          config.ratelimit_ban shared (capacity_of config.ratelimit_cache_size))

-- `local`
abbrev pub local_of : Counters → LocalCounters
local_of (alone local) = local
local_of (together shared) = shared.local

-- `start`, of both classes; whether there is a segment that can be mapped is a parameter
unfoldable pub start : Bool → Counters → Bool × Counters
start maps (alone local) = (true, alone local)
start true (together shared) = (true, together (record shared { running = true }))
start false (together shared) = (false, together shared)

-- `close`
unfoldable pub close : Counters → Counters
close (alone local) = alone local
close (together shared) = together (record shared { running = false })

-- What `consume` of the shared table relies on; see RateLimit.Table.
pub record World : Type 0 where
  pub crc32 : Bytes → ℕ
  pub pack : Bytes → Bytes
  pub stuck : ℕ → Bool
  pub busy : ℕ → Bool

unfoldable pub count : World → Bytes → ℕ → Counters → Option ℕ × Counters
unfolding Table.consume Local.consume
count world client now (alone local) =
    let (answer, local') = Local.consume client now local in (answer, alone local')
count world client now (together shared) =
    if shared.running
    then (let (answer, shared') =
          Table.consume world.crc32 world.pack world.stuck world.busy client now shared in
        (answer, together shared'))
    else (let (answer, local') = Local.consume client now shared.local in
        (answer, together (record shared { local = local' })))

-- `check`, with the clock
unfoldable pub check : World → Bytes → ℕ → RateLimiter → Option ℕ × RateLimiter
unfolding count
check world client now limiter =
    let (answer, counters) = count world client now limiter.counters in
    (answer, record limiter { counters = counters })

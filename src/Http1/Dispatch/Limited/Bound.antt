-- ===== src/Http1/Dispatch/Limited/Bound.antt =====
-- How many requests of a client the heads that echocorn/http1.py reads let on to the application,
-- when `RateLimiter` of echocorn/ratelimit.py counts them in one process.
use native.Mathlib.Nat.{le_trans}
use mathlib.Core.Path.{subst}
use echocorn.Base.{
  ℕ, ◌+◌, ◌≤◌, ◌≡◌, refl, ap, inl, inr, Option, none, some, List, arith, get_or_else, length,
  Bool-cases, max,
}
use echocorn.Base.Bytes.{Bytes}
use echocorn.RateLimit.{make_limits}
use echocorn.RateLimit.Client.Log.{served_in}
use echocorn.RateLimit.Local
use echocorn.RateLimit.Local.{LocalCounters}
use echocorn.RateLimit.Local.Trace.{log_of, served_by_local-le}
use echocorn.RateLimit.Limiter.{
  RateLimiter, World, LimiterConfig, from_config, make_limiter, capacity_of, local_of,
}
use echocorn.Http1.Head.{Url}
use echocorn.Http1.Dispatch.{Settings}
use echocorn.Http1.Dispatch.Limited.{Arrival, passed_in}
use echocorn.Http1.Dispatch.Limited.Counted.{
  InOrder, trace_of, trace_of-InOrder, length-trace_of, passed_in-le,
}

-- the limits that a limiter has are not changed by the counters it builds
init-limits :
    (requests peak window ban : ℕ) (capacity : Option ℕ)
    → let l = make_limits requests peak window ban in
      let s = Local.init l.requests l.peak l.window l.ban capacity in
      (s.window ≡ l.window) × (s.requests ≡ max 1 requests)
unfolding make_limits Local.init
init-limits requests peak window ban capacity = (ground arith, omega arith)

module _ (urlsplit : Bytes → Option Url) (settings : Settings) (world : World) (end : ℕ)
    (k : Bytes) where
  passed_in-made :
      (requests peak window ban : ℕ) (capacity : Option ℕ) (arrivals : List Arrival)
      → let limiter = make_limiter requests peak window ban none capacity in
        InOrder 0 arrivals
        → length arrivals ≤ (local_of limiter.counters).capacity
        → passed_in urlsplit settings world limiter.limits.window end k arrivals limiter
          ≤ max 1 requests + 1
  unfolding make_limiter
  passed_in-made requests peak window ban capacity arrivals order room =
      let l = make_limits requests peak window ban in
      let s = Local.init l.requests l.peak l.window l.ban capacity in
      let trace = trace_of urlsplit settings world l.window end k arrivals in
      let (windows, allowed) = init-limits requests peak window ban capacity in
      let few = length-trace_of urlsplit settings world l.window end k arrivals in
      let ordered =
        trace_of-InOrder urlsplit settings world l.window end k 0 0 arrivals (omega arith) order in
      let bound =
        served_by_local-le k l.requests l.peak l.window l.ban capacity trace end ordered
          (omega (arith, few, room)) in
      le_trans (passed_in-le urlsplit settings world l.window end k l arrivals s) (
        subst (λ r. served_in l.window end (log_of k s trace) ≤ r + 1) allowed
          (subst (λ w. served_in w end (log_of k s trace) ≤ s.requests + 1) windows bound))

some-injective : (a b : RateLimiter) → some a ≡ some b → a ≡ b
some-injective a b h = ap (get_or_else a) h

made_by : LimiterConfig → RateLimiter
made_by config =
    make_limiter config.ratelimit_requests config.ratelimit_peak config.ratelimit_window
      config.ratelimit_ban none (capacity_of config.ratelimit_cache_size)

from_config-made :
    (config : LimiterConfig) (limiter : RateLimiter)
    → from_config config none ≡ some limiter
    → made_by config ≡ limiter
unfolding from_config made_by
from_config-made config limiter built = elim (Bool-cases config.ratelimit_enabled) [
  | inl on ↦ some-injective (made_by config) limiter (rw (← built) (rw on refl))
  | inr off ↦ absurd (ground arith)
]

-- The limiter of a single worker, as its configuration builds it, lets no client have more than one
-- request above the configured allowance go on to the application, over all the connections of the
-- worker and in any window, wherever the window ends, in whatever order the heads arrive, whatever
-- their bytes and whatever the peak; if the table has room for as many clients as there are heads.
pub start_request-passed_in :
    (urlsplit : Bytes → Option Url) (settings : Settings) (world : World) (config : LimiterConfig)
    (limiter : RateLimiter) (arrivals : List Arrival) (end : ℕ) (k : Bytes)
    → from_config config none ≡ some limiter
    → InOrder 0 arrivals
    → length arrivals ≤ (local_of limiter.counters).capacity
    → passed_in urlsplit settings world limiter.limits.window end k arrivals limiter
      ≤ max 1 config.ratelimit_requests + 1
unfolding made_by
start_request-passed_in urlsplit settings world config limiter arrivals end k built order room =
    let made = from_config-made config limiter built in
    subst
      (λ (l : RateLimiter).
        length arrivals ≤ (local_of l.counters).capacity
        → passed_in urlsplit settings world l.limits.window end k arrivals l
          ≤ max 1 config.ratelimit_requests + 1)
      made
      (passed_in-made urlsplit settings world end k config.ratelimit_requests config.ratelimit_peak
        config.ratelimit_window config.ratelimit_ban (capacity_of config.ratelimit_cache_size)
        arrivals order)
      room

-- ===== src/Http1/Dispatch/Limited.antt =====
-- `_start_request` of echocorn/http1.py together with `RateLimiter` of echocorn/ratelimit.py: the
-- heads that arrive on the connections of one worker, each at its moment.
pub mod Counted
pub mod Bound
use echocorn.Base.{ℕ, ◌+◌, Bool, ◌&&◌, Option, List, [], ◌∷◌, leb, ltb, if◌then◌else◌, is_some}
use echocorn.Base.Bytes.{Bytes, bytes_eq}
use echocorn.RateLimit.Limiter.{RateLimiter, World, check}
use echocorn.Http1.Head.{Url}
use echocorn.Http1.Dispatch.{Settings, Limiter, Dispatch, start_request}
use echocorn.Http1.Dispatch.Admitted.{passed_on}

pub record Arrival : Type 0 where
  pub client : Bytes
  pub buffer : Bytes
  pub moment : ℕ

-- the limiter of the worker with its clock
unfoldable pub limiter_at : World → ℕ → Limiter RateLimiter
unfolding check
limiter_at world now = record { check = λ client limiter. check world client now limiter }

module _ (urlsplit : Bytes → Option Url) (settings : Settings) (world : World) (window end : ℕ)
    (k : Bytes) where
  -- a request of `k` goes on to the application, in the window that ends at `end`
  unfoldable pub one_of : Arrival → Dispatch → ℕ
  unfolding bytes_eq
  one_of a d =
      if bytes_eq a.client k
        && is_some (passed_on d)
        && leb a.moment end
        && ltb end (a.moment + window)
      then 1
      else 0

  -- how many do
  unfoldable pub passed_in : List Arrival → RateLimiter → ℕ
  unfolding start_request limiter_at one_of
  passed_in [] limiter = 0
  passed_in (a ∷ arrivals) limiter =
      let (d, limiter') =
        start_request urlsplit settings (limiter_at world a.moment) a.client a.buffer limiter in
      one_of a d + passed_in arrivals limiter'

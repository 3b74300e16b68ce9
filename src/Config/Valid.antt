-- ===== src/Config/Valid.antt =====
-- What `ServerConfig.__post_init__` of echocorn/config.py vouches for.
use mathlib.Core.Path.{subst}
use native.Mathlib.Nat.{div-mul-le_self}
use echocorn.Base.{
  ℕ, zero, suc, ◌*◌, max, ◌/◌, ◌≤◌, ◌≡◌, ◌⊎◌, inl, inr, refl, ap, sym, Bool, true, false, ◌&&◌,
  Option, none, some, List, [], ◌∷◌, All, arith, ltb-false, get_or,
}
use echocorn.Base.Bytes.{Bytes}
use echocorn.RateLimit.{effective_peak, slot_size, slot_count, min_slots}
use echocorn.Config.{
  Checked, accepted, rejected, ℤ, pos, negsuc, magnitude, ServerConfig, short_level, is_level,
  is_set,
}
use echocorn.Config.Checks.{table_too_small, same, checks, verdict, first_error, post_init}
use echocorn.Config.Rules.{
  AtLeast, IsValid, outside-Within, below-AtLeast, either, needs, needs_both, differ-false,
  not-false, is_negative-NotBelowZero, not_positive-AboveZeroOrNan, one_of_four, own_port,
  peak_fits,
}

abbrev Passed : Bool × Bytes → Type 0
Passed test = test.0 ≡ false

first_error-none : (tests : List (Bool × Bytes)) → first_error tests ≡ none → All Passed tests
first_error-none [] h = tt
first_error-none ((true, message) ∷ tests) h = cc
first_error-none ((false, message) ∷ tests) h = (refl, first_error-none tests h)

second_fails : (a b : Bool) → (a && b) ≡ false → a ≡ true → b ≡ false
second_fails a b h on = ground arith

table_fits :
    (c : ServerConfig)
    → table_too_small c ≡ false
    → c.ratelimit_enabled ≡ true
    → min_slots
        * slot_size (effective_peak (magnitude c.ratelimit_requests) (magnitude c.ratelimit_peak))
      ≤ magnitude c.ratelimit_cache_size * 1024 * 1024
unfolding table_too_small
table_fits c h on = ltb-false _ _ (second_fails c.ratelimit_enabled _ h on)

passed :
    (tests : List (Bool × Bytes)) (i : ℕ) → All Passed tests → Passed (get_or tests i (false, []))
passed [] i h = refl
passed (test ∷ tests) zero h = h.0
passed (test ∷ tests) (suc i) h = passed tests i h.1

-- The level that is stored is one of the five.
checks-IsValid :
    (c : ServerConfig)
    → All Passed (checks c)
    → IsValid (record c { log_level = short_level c.log_level })
checks-IsValid c h =
    let test : (i : ℕ) → Passed (get_or (checks c) i (false, [])) = λ i. passed (checks c) i h in
    (
      (
        outside-Within 0 65535 c.port (test 0),
        outside-Within 1 64 c.workers (test 1),
        below-AtLeast 1 c.backlog (test 2),
        below-AtLeast 0 c.max_connections (test 15),
        not-false (is_level (short_level c.log_level)) (test 3),
        either c.http1_enabled c.http2_enabled (test 4),
        needs c.websockets c.http1_enabled (test 5),
        differ-false (is_set c.certfile) (is_set c.keyfile) (test 28),
      ),
      (
        below-AtLeast 256 c.max_header_size (test 10),
        below-AtLeast 1 c.max_header_count (test 11),
        below-AtLeast 0 c.max_request_size (test 12),
        below-AtLeast 0 c.max_response_size (test 13),
        below-AtLeast 125 c.max_websocket_message_size (test 14),
        is_negative-NotBelowZero c.request_timeout (test 16),
        is_negative-NotBelowZero c.keep_alive_timeout (test 6),
        is_negative-NotBelowZero c.graceful_timeout (test 7),
        below-AtLeast 1 c.h2_max_concurrent_streams (test 8),
        below-AtLeast 256 c.h2_max_header_list_size (test 9),
        outside-Within 16384 16777215 c.h2_max_frame_size (test 29),
        outside-Within 0 2147483647 c.h2_initial_window_size (test 30),
      ),
      (
        below-AtLeast 1 c.ratelimit_requests (test 17),
        peak_fits c.ratelimit_peak c.ratelimit_requests (test 18),
        not_positive-AboveZeroOrNan c.ratelimit_window (test 19),
        is_negative-NotBelowZero c.ratelimit_ban (test 20),
        below-AtLeast 1 c.ratelimit_shards (test 21),
        below-AtLeast 1 c.ratelimit_cache_size (test 22),
        table_fits c (test 23),
      ),
      (
        outside-Within 0 65535 c.redirect_port (test 24),
        one_of_four c.redirect_status (test 25),
        needs_both c.redirect_enabled (is_set c.certfile) (is_set c.keyfile) (test 26),
        own_port c.redirect_enabled c.redirect_port c.port (test 27),
      ),
    )

abbrev config_or : ServerConfig → Checked ServerConfig → ServerConfig
config_or c (accepted c') = c'
config_or c (rejected message) = c

verdict-accepted :
    (error : Option Bytes) (c c' : ServerConfig)
    → verdict error c ≡ accepted c'
    → (error ≡ none) × (c ≡ c')
verdict-accepted none c c' h = (refl, ap (config_or c) h)
verdict-accepted (some message) c c' h = cc

-- What an accepted configuration went through.
pub post_init-Passed :
    (c c' : ServerConfig)
    → post_init c ≡ accepted c'
    → All Passed (checks c) × (record c { log_level = short_level c.log_level } ≡ c')
unfolding post_init
post_init-Passed c c' h =
    let normal : ServerConfig = record c { log_level = short_level c.log_level } in
    let (clean, same) = verdict-accepted (first_error (checks c)) normal c' h in
    (first_error-none (checks c) clean, same)

-- A configuration that `__post_init__` accepts has passed each of its checks.
pub post_init-IsValid : (c c' : ServerConfig) → post_init c ≡ accepted c' → IsValid c'
post_init-IsValid c c' h =
    let (tests, same) = post_init-Passed c c' h in subst IsValid same (checks-IsValid c tests)

max-cases : (a b : ℕ) → (max a b ≡ a) ⊎ (max a b ≡ b)
max-cases a b = ground arith

max-fits :
    (least budget size : ℕ) → least * size ≤ budget → max least (budget / size) * size ≤ budget
max-fits least budget size h = elim (max-cases least (budget / size)) [
  | inl e ↦ rw e h
  | inr e ↦ rw e (div-mul-le_self budget size)
]

slot_count-fits :
    (cache peak : ℕ)
    → 1 ≤ cache
    → min_slots * slot_size peak ≤ cache * 1024 * 1024
    → slot_count cache peak * slot_size peak ≤ cache * 1024 * 1024
unfolding slot_count slot_size
slot_count-fits cache peak some_cache h =
    let e : max 1 cache ≡ cache = omega arith in
    subst
      (λ m. max min_slots (m * 1024 * 1024 / slot_size peak) * slot_size peak ≤ cache * 1024 * 1024)
      (sym e) (max-fits min_slots (cache * 1024 * 1024) (slot_size peak) h)

table_too_small-false :
    (c : ServerConfig)
    → table_too_small c ≡ false
    → c.ratelimit_enabled ≡ true
    → min_slots
        * slot_size (effective_peak (magnitude c.ratelimit_requests) (magnitude c.ratelimit_peak))
      ≤ magnitude c.ratelimit_cache_size * 1024 * 1024
unfolding table_too_small
table_too_small-false c h enabled = ground (
  arith,
  ltb-false (magnitude c.ratelimit_cache_size * 1024 * 1024) (
      min_slots
      * slot_size (effective_peak (magnitude c.ratelimit_requests) (magnitude c.ratelimit_peak))),
)

AtLeast-magnitude : (low : ℕ) (i : ℤ) → AtLeast low i → low ≤ magnitude i
AtLeast-magnitude low (pos n) h = h
AtLeast-magnitude low (negsuc n) h = ground arith

-- What the rate limiter makes of an accepted configuration that enables it: the memory that the
-- configuration grants has room for the slots that the table has, and the limiter does not fall back on
-- the smallest table, which would take more.
pub post_init-slot_count :
    (c c' : ServerConfig)
    → post_init c ≡ accepted c'
    → c'.ratelimit_enabled ≡ true
    → slot_count
          (magnitude c'.ratelimit_cache_size)
          (effective_peak (magnitude c'.ratelimit_requests) (magnitude c'.ratelimit_peak))
        * slot_size (effective_peak (magnitude c'.ratelimit_requests) (magnitude c'.ratelimit_peak))
      ≤ magnitude c'.ratelimit_cache_size * 1024 * 1024
unfolding table_too_small
post_init-slot_count c c' h enabled =
    let (tests, same) = post_init-Passed c c' h in
    let fits : table_too_small c' ≡ false =
      subst (λ d. table_too_small d ≡ false) same
        (tests.1.1.1.1.1.1.1.1.1.1.1.1.1.1.1.1.1.1.1.1.1.1.1.0) in
    let cache : AtLeast 1 c'.ratelimit_cache_size =
      subst (λ d. AtLeast 1 d.ratelimit_cache_size) same
        (below-AtLeast 1 c.ratelimit_cache_size
          (tests.1.1.1.1.1.1.1.1.1.1.1.1.1.1.1.1.1.1.1.1.1.1.0)) in
    slot_count-fits (magnitude c'.ratelimit_cache_size)
      (effective_peak (magnitude c'.ratelimit_requests) (magnitude c'.ratelimit_peak))
      (AtLeast-magnitude 1 c'.ratelimit_cache_size cache) (table_too_small-false c' fits enabled)

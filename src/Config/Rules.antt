-- ===== src/Config/Rules.antt =====
-- What a configuration that echocorn/config.py accepts satisfies, and the tests that show it.
use echocorn.Base.{
  ℕ, ◌*◌, ◌≤◌, ◌≡◌, ◌⊎◌, inl, inr, refl, ap, Bool, true, false, ◌&&◌, ◌||◌, not, arith, ◌≢◌,
  Bool-cases,
}
use echocorn.RateLimit.{effective_peak, slot_size, min_slots}
use echocorn.Config.{
  ℤ, pos, negsuc, below, above, magnitude, Float, finite, infinite, nan, is_negative, not_positive,
  ServerConfig, is_level, is_set,
}
use echocorn.Config.Checks.{differ, same, positive_below}

-- An integer from the first number to the second.
abbrev pub Within : ℕ → ℕ → ℤ → Type 0
Within low high (pos n) = (low ≤ n) × (n ≤ high)
Within low high (negsuc n) = ⊥

abbrev pub AtLeast : ℕ → ℤ → Type 0
AtLeast low (pos n) = low ≤ n
AtLeast low (negsuc n) = ⊥

pub outside-Within :
    (low high : ℕ) (i : ℤ) → (below i low || above i high) ≡ false → Within low high i
outside-Within low high (pos n) h = ground arith
outside-Within low high (negsuc n) h = cc

pub below-AtLeast : (low : ℕ) (i : ℤ) → below i low ≡ false → AtLeast low i
below-AtLeast low (pos n) h = ground arith
below-AtLeast low (negsuc n) h = cc

-- A float that is not below zero; nan is not, and neither is it above.
abbrev pub NotBelowZero : Float → Type 0
NotBelowZero (finite i scale) = AtLeast 0 i
NotBelowZero (infinite minus) = minus ≡ false
NotBelowZero nan = Unit

-- A float that is above zero, or nan.
abbrev pub AboveZeroOrNan : Float → Type 0
AboveZeroOrNan (finite i scale) = AtLeast 1 i
AboveZeroOrNan (infinite minus) = minus ≡ false
AboveZeroOrNan nan = Unit

-- The sockets and the process model, what is served, and the log.
abbrev pub IsServable : ServerConfig → Type 0
IsServable c =
    Within 0 65535 c.port
    × Within 1 64 c.workers
    × AtLeast 1 c.backlog
    × AtLeast 0 c.max_connections
    × (is_level c.log_level ≡ true)
    × ((c.http1_enabled ≡ true) ⊎ (c.http2_enabled ≡ true))
    × (c.websockets ≡ true → c.http1_enabled ≡ true)
    × (is_set c.certfile ≡ is_set c.keyfile)

-- The sizes and the times of requests, and HTTP/2.
abbrev pub IsMeasured : ServerConfig → Type 0
IsMeasured c =
    AtLeast 256 c.max_header_size
    × AtLeast 1 c.max_header_count
    × AtLeast 0 c.max_request_size
    × AtLeast 0 c.max_response_size
    × AtLeast 125 c.max_websocket_message_size
    × NotBelowZero c.request_timeout
    × NotBelowZero c.keep_alive_timeout
    × NotBelowZero c.graceful_timeout
    × AtLeast 1 c.h2_max_concurrent_streams
    × AtLeast 256 c.h2_max_header_list_size
    × Within 16384 16777215 c.h2_max_frame_size
    × Within 0 2147483647 c.h2_initial_window_size

-- The rate limit: a peak of none, or of the allowance at least, and a table with the least number of
-- slots.
abbrev pub IsLimited : ServerConfig → Type 0
IsLimited c =
    AtLeast 1 c.ratelimit_requests
    × ((magnitude c.ratelimit_peak ≡ 0)
        ⊎ (magnitude c.ratelimit_requests ≤ magnitude c.ratelimit_peak))
    × AboveZeroOrNan c.ratelimit_window
    × NotBelowZero c.ratelimit_ban
    × AtLeast 1 c.ratelimit_shards
    × AtLeast 1 c.ratelimit_cache_size
    × (c.ratelimit_enabled ≡ true
        → min_slots
            * slot_size
                (effective_peak (magnitude c.ratelimit_requests) (magnitude c.ratelimit_peak))
          ≤ magnitude c.ratelimit_cache_size * 1024 * 1024)

-- The redirect: one of four answers, a certificate and a key, and a port of its own.
abbrev pub IsRedirecting : ServerConfig → Type 0
IsRedirecting c =
    Within 0 65535 c.redirect_port
    × ((c.redirect_status ≡ pos 301)
        ⊎ (c.redirect_status ≡ pos 302)
        ⊎ (c.redirect_status ≡ pos 307)
        ⊎ (c.redirect_status ≡ pos 308))
    × (c.redirect_enabled ≡ true → (is_set c.certfile ≡ true) × (is_set c.keyfile ≡ true))
    × (c.redirect_enabled ≡ true → (c.redirect_port ≡ pos 0) ⊎ (c.redirect_port ≢ c.port))

-- What `__post_init__` asks of the settings, all of it.
abbrev pub IsValid : ServerConfig → Type 0
IsValid c = IsServable c × IsMeasured c × IsLimited c × IsRedirecting c

pub either : (a b : Bool) → not (a || b) ≡ false → (a ≡ true) ⊎ (b ≡ true)
either a b h = ground arith

pub needs : (a b : Bool) → (a && not b) ≡ false → a ≡ true → b ≡ true
needs a b h given = ground arith

pub needs_both : (a b c : Bool) → (a && not (b && c)) ≡ false → a ≡ true → (b ≡ true) × (c ≡ true)
needs_both a b c h given = ground arith

pub differ-false : (a b : Bool) → differ a b ≡ false → a ≡ b
differ-false a b h = ground arith

pub not-false : (b : Bool) → not b ≡ false → b ≡ true
not-false b h = ground arith

pub is_negative-NotBelowZero : (x : Float) → is_negative x ≡ false → NotBelowZero x
is_negative-NotBelowZero (finite i scale) h = below-AtLeast 0 i h
is_negative-NotBelowZero (infinite minus) h = h
is_negative-NotBelowZero nan h = tt

pub not_positive-AboveZeroOrNan : (x : Float) → not_positive x ≡ false → AboveZeroOrNan x
not_positive-AboveZeroOrNan (finite i scale) h = below-AtLeast 1 i h
not_positive-AboveZeroOrNan (infinite minus) h = h
not_positive-AboveZeroOrNan nan h = tt

pub same-eq : (i j : ℤ) → same i j ≡ true → i ≡ j
same-eq (pos n) (pos m) h = ap pos (ground arith)
same-eq (negsuc n) (negsuc m) h = ap negsuc (ground arith)
same-eq (pos n) (negsuc m) h = cc
same-eq (negsuc n) (pos m) h = cc

pub same_refl : (i j : ℤ) → i ≡ j → same i j ≡ true
same_refl (pos n) j e = rw (← e) (ground arith)
same_refl (negsuc n) j e = rw (← e) (ground arith)

pub one_of_four :
    (i : ℤ)
    → not (same i (pos 301) || same i (pos 302) || same i (pos 307) || same i (pos 308)) ≡ false
    → (i ≡ pos 301) ⊎ (i ≡ pos 302) ⊎ (i ≡ pos 307) ⊎ (i ≡ pos 308)
one_of_four i h =
    ground
      (arith, same-eq i (pos 301), same-eq i (pos 302), same-eq i (pos 307), same-eq i (pos 308))

pub own_port :
    (enabled : Bool) (i j : ℤ)
    → (enabled && not (same i (pos 0)) && same i j) ≡ false
    → enabled ≡ true
    → (i ≡ pos 0) ⊎ (i ≢ j)
own_port enabled i j h on = elim (Bool-cases (same i (pos 0))) [
  | inl zero_port ↦ inl (same-eq i (pos 0) zero_port)
  | inr other ↦ inr (λ e. let clash = same_refl i j e in ground arith)
]

pub peak_fits :
    (peak requests : ℤ)
    → positive_below peak requests ≡ false
    → (magnitude peak ≡ 0) ⊎ (magnitude requests ≤ magnitude peak)
peak_fits (pos n) (pos m) h = ground arith
peak_fits (pos n) (negsuc m) h = inr (omega arith)
peak_fits (negsuc n) requests h = inl refl

-- ===== src/RateLimit.antt =====
-- echocorn/ratelimit.py: the allowance of a client, and the sizes and names that both kinds of
-- counters share. A moment and a duration are whole microseconds; the counters are in the children.
pub mod Client
pub mod Limiter
pub mod Local
pub mod Shared
pub mod Table
mod Tests
use echocorn.Base.{
  ℕ, ◌+◌, ◌-◌, ◌*◌, ◌/◌, ◌<◌, max, Bool, Option, none, some, List, [], ◌∷◌, ltb, get_or_else, take,
  if◌then◌else◌, any, ◌==◌,
}
use echocorn.Base.Bytes.{Bytes, codes}

-- One second of the monotonic clock.
abbrev pub second : ℕ
second = 1_000_000

-- What one address may do; see `LocalCounters` for the words.
pub record Limits : Type 0 where
  pub requests : ℕ
  pub peak : ℕ
  pub window : ℕ
  pub ban : ℕ

unfoldable pub effective_peak : ℕ → ℕ → ℕ
effective_peak requests peak =
    let requests' = max 1 requests in if ltb peak requests' then requests' else peak

-- What every constructor of the module does to its four numbers.
unfoldable pub make_limits : ℕ → ℕ → ℕ → ℕ → Limits
unfolding effective_peak
make_limits requests peak window ban = record {
  requests = max 1 requests;
  peak = effective_peak (max 1 requests) peak;
  window = if ltb 0 window then window else second;
  ban = ban;
}

abbrev pub min_slots : ℕ
min_slots = 256

abbrev pub bytes_per_client : ℕ
bytes_per_client = 512

-- `struct.calcsize("<B16sddII5x")`
abbrev pub slot_head_size : ℕ
slot_head_size = 46

unfoldable pub slot_size : ℕ → ℕ
slot_size peak = slot_head_size + 8 * (peak + 1)

unfoldable pub slot_count : ℕ → ℕ → ℕ
unfolding slot_size
slot_count cache_size_mb peak =
    let budget = max 1 cache_size_mb * 1024 * 1024 in max min_slots (budget / slot_size peak)

-- The items of the peer name as texts, none of them for `None` or an empty name.
unfoldable pub client_key : List Bytes → Bytes
client_key [] = codes "-"
client_key (host ∷ rest) = host

-- Whole seconds of a wait, rounded up.
unfoldable pub retry_after_seconds : ℕ → ℕ
retry_after_seconds wait = max 1 ((wait + (second - 1)) / second)

-- `inet6` and `inet4` are `socket.inet_pton` for the two families, `none` for an `OSError`.
unfoldable pack_client : (Bytes → Option Bytes) → (Bytes → Option Bytes) → Bytes → Bytes
pack_client inet6 inet4 key =
    if any (λ c. c == b':') key
    then get_or_else (take 16 key) (inet6 key)
    else get_or_else (take 16 key) (inet4 key)

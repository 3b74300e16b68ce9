-- ===== src/RateLimit/Local/Bounded.antt =====
-- What `LocalCounters.consume` of echocorn/ratelimit.py keeps in memory.
use echocorn.Base.{ℕ, ◌≡◌, true, List, is_some, take, All}
use echocorn.Base.Bytes.{Bytes}
use echocorn.Dict.{lookup, insert}
use echocorn.RateLimit.Local.{LocalCounters, maybe_sweep, open_window, recorded}

-- The clients that an eviction looks at are all locked out.
abbrev pub IsCrowded : LocalCounters → Type 0
IsCrowded s =
    All (λ (entry : Bytes × List ℕ). is_some (lookup entry.0 s.bans) ≡ true) (take 256 s.hits)

module _ (now : ℕ) (k : Bytes) (s : LocalCounters) where
  abbrev opened : LocalCounters
  opened = open_window k (maybe_sweep now s)

  -- the counters with the request in them, on which it is decided
  abbrev counted : LocalCounters
  counted = record opened { hits = insert k (recorded k now opened) opened.hits }

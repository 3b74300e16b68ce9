-- ===== src/RateLimit/Client.antt =====
-- The window of one address, as ratelimit.py describes it: the specification that both kinds of
-- counters are held to.
pub mod Settle
pub mod Log
pub mod Bound
use echocorn.Base.{
  ℕ, ◌+◌, ◌-◌, Bool, true, Option, none, some, List, [], ◌∷◌, ◌++◌, ◌&&◌, ltb, leb, length,
  if◌then◌else◌,
}
use echocorn.RateLimit.{Limits}

pub record Client : Type 0 where
  pub hits : List ℕ
  pub burst : Option ℕ
  pub ban : Option ℕ

abbrev pub fresh : Client
fresh = record { hits = []; burst = none; ban = none }

-- The requests that are still inside the window that ends now.
unfoldable pub prune : ℕ → ℕ → List ℕ → List ℕ
prune window now [] = []
prune window now (h ∷ hs) = if leb (h + window) now then prune window now hs else h ∷ hs

unfoldable pub push : ℕ → ℕ → List ℕ → List ℕ
push peak now hits = if ltb (length hits) (peak + 1) then hits ++ (now ∷ []) else hits

unfoldable pub burst_free : ℕ → ℕ → Option ℕ → Bool
burst_free window now none = true
burst_free window now (some used) = leb (used + window) now

-- How long until the oldest request of the window ages out.
unfoldable pub room_in : ℕ → ℕ → List ℕ → ℕ
room_in window now [] = 0
room_in window now (h ∷ hs) = h + window - now

unfoldable pub refuse : Limits → ℕ → Client → Option ℕ × Client
unfolding room_in
refuse l now c =
    if ltb 0 l.ban
    then (some l.ban, record c { ban = some (now + l.ban) })
    else (some (room_in l.window now c.hits), c)

unfoldable pub judge : Limits → ℕ → Client → Option ℕ × Client
unfolding burst_free refuse
judge l now c =
    if leb (length c.hits) l.requests
    then (none, c)
    else if leb (length c.hits) l.peak && burst_free l.window now c.burst
    then (none, record c { burst = some now })
    else refuse l now c

unfoldable pub count_hit : Limits → ℕ → Client → Option ℕ × Client
unfolding prune push judge
count_hit l now c =
    judge l now
      (record { hits = push l.peak now (prune l.window now c.hits); burst = c.burst; ban = none })

-- One request: `none` when it may be served, else how long to wait.
unfoldable pub request : Limits → ℕ → Client → Option ℕ × Client
unfolding count_hit
request l now c = elim c.ban [
  | none ↦ count_hit l now c
  | some until ↦ if ltb now until then (some (until - now), c) else count_hit l now c
]

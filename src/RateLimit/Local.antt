-- ===== src/RateLimit/Local.antt =====
-- `LocalCounters` of echocorn/ratelimit.py: the windows of one process, in three dictionaries.
pub mod View
pub mod Valid
pub mod Window
pub mod Bounded
pub mod Lockout
pub mod Simulation
pub mod Trace
use echocorn.Base.{
  ℕ, ◌+◌, ◌-◌, ◌*◌, ◌/◌, max, Bool, true, false, not, Option, none, some, List, [], ◌∷◌, ◌++◌, ◌&&◌,
  ltb, leb, length, take, if◌then◌else◌, is_some, get_or_else,
}
use echocorn.Base.Bytes.{Bytes}
use echocorn.Dict.{lookup, insert, remove, keep}
use echocorn.RateLimit.{Limits, second, make_limits, bytes_per_client}

pub record LocalCounters : Type 0 where
  pub limits : Limits
  pub open limits use *
  pub hits : List (Bytes × List ℕ)
  pub bursts : List (Bytes × ℕ)
  pub bans : List (Bytes × ℕ)
  pub next_sweep : ℕ
  pub capacity : ℕ

abbrev default_capacity : ℕ
default_capacity = 128 * 1024 * 1024 / bytes_per_client

-- `__init__`; a capacity of `none` or zero takes the default.
unfoldable pub init : ℕ → ℕ → ℕ → ℕ → Option ℕ → LocalCounters
unfolding make_limits
init requests peak window ban capacity = record {
  limits = make_limits requests peak window ban;
  hits = [];
  bursts = [];
  bans = [];
  next_sweep = 0;
  capacity =
      let wanted = get_or_else 0 capacity in
      if ltb 0 wanted then max 1024 wanted else default_capacity;
}

-- `not hits or hits[-1] <= edge`, with `edge` the clock less the window
unfoldable pub aged_out : ℕ → ℕ → List ℕ → Bool
aged_out window now [] = true
aged_out window now (h ∷ []) = leb (h + window) now
aged_out window now (h ∷ h' ∷ hs) = aged_out window now (h' ∷ hs)

unfoldable pub maybe_sweep : ℕ → LocalCounters → LocalCounters
unfolding aged_out keep
maybe_sweep now s = if ltb now s.next_sweep then s else (record s {
  next_sweep = now + max s.window second;
  hits = keep (λ hits. not (aged_out s.window now hits)) s.hits;
  bursts = keep (λ burst. not (leb (burst + s.window) now)) s.bursts;
  bans = keep (λ until. not (leb until now)) s.bans;
})

-- the first of these clients that is under no lockout
unfoldable pub first_free : List (Bytes × ℕ) → List (Bytes × List ℕ) → Option Bytes
unfolding lookup
first_free bans [] = none
first_free bans ((client, hits) ∷ rest) =
    let later = first_free bans rest in if is_some (lookup client bans) then later else some client

unfoldable pub evict_oldest : LocalCounters → LocalCounters
unfolding first_free remove
evict_oldest s = elim (first_free s.bans (take 256 s.hits)) [
  | none ↦ s
  | some chosen ↦ record s {
    hits = remove chosen s.hits;
    bursts = remove chosen s.bursts;
    bans = remove chosen s.bans;
  }
]

-- `hits = self._hits.get(client)`, and the entry that is made when there is none
unfoldable pub open_window : Bytes → LocalCounters → LocalCounters
unfolding evict_oldest insert
open_window client s =
    if is_some (lookup client s.hits)
    then s
    else let s' = if leb s.capacity (length s.hits) then evict_oldest s else s in
      record s' { hits = insert client [] s'.hits }

-- `while hits and hits[0] <= edge: hits.popleft()`
unfoldable pub popleft_while : ℕ → ℕ → List ℕ → List ℕ
popleft_while window now [] = []
popleft_while window now (h ∷ hs) =
    if leb (h + window) now then popleft_while window now hs else h ∷ hs

unfoldable pub refuse : Bytes → ℕ → List ℕ → LocalCounters → Option ℕ × LocalCounters
unfolding insert
refuse client now hits s =
    if ltb 0 s.ban
    then (some s.ban, record s { bans = insert client (now + s.ban) s.bans })
    else (elim hits [ [] ↦ some 0 | h ∷ _ ↦ some (h + s.window - now) ], s)

-- `burst is None or now - burst >= self.window`
unfoldable pub burst_allowed : ℕ → ℕ → Option ℕ → Bool
burst_allowed window now none = true
burst_allowed window now (some burst) = leb (burst + window) now

-- the decision, once the request is counted
unfoldable pub decide : Bytes → ℕ → List ℕ → LocalCounters → Option ℕ × LocalCounters
unfolding burst_allowed refuse
decide client now hits s =
    if leb (length hits) s.requests
    then (none, s)
    else if leb (length hits) s.peak && burst_allowed s.window now (lookup client s.bursts)
    then (none, record s { bursts = insert client now s.bursts })
    else refuse client now hits s

-- the client's window with this request in it, unless it is full
unfoldable pub recorded : Bytes → ℕ → LocalCounters → List ℕ
unfolding popleft_while
recorded client now s =
    let recent = popleft_while s.window now (get_or_else [] (lookup client s.hits)) in
    if ltb (length recent) (s.peak + 1) then recent ++ (now ∷ []) else recent

-- `consume` from `self._maybe_sweep(now)` on
unfoldable pub count_request : Bytes → ℕ → LocalCounters → Option ℕ × LocalCounters
unfolding maybe_sweep open_window recorded decide
count_request client now s =
    let s' = open_window client (maybe_sweep now s) in
    let hits = recorded client now s' in
    decide client now hits (record s' { hits = insert client hits s'.hits })

-- `none` when the request may be served, else how long the client has to wait.
unfoldable pub consume : Bytes → ℕ → LocalCounters → Option ℕ × LocalCounters
unfolding count_request
consume client now s = elim (lookup client s.bans) [
  | none ↦ count_request client now s
  | some until ↦
      if ltb now until
      then (some (until - now), s)
      else count_request client now (record s { bans = remove client s.bans })
]

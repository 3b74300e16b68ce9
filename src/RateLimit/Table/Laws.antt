-- ===== src/RateLimit/Table/Laws.antt =====
-- What the table of slots promises, and where a sweep breaks it.
use native.Mathlib.Nat.{add-zero}
use echocorn.Base.{
  if-true, if-false, ℕ, suc, ◌+◌, ◌-◌, ◌%◌, ◌≤◌, ◌<◌, ◌≡◌, sym, ap, ◌∙◌, Bool, true, false, Option,
  none, some, List, arith, ◌==◌, length, set, get_or-set_self,
}
use echocorn.Base.Bytes.{Bytes}
use echocorn.RateLimit.{Limits}
use echocorn.RateLimit.Client.{Client, fresh, request}
use echocorn.RateLimit.Client.Settle.{request_locked}
use echocorn.RateLimit.Shared.{Slot, decide}
use echocorn.RateLimit.Shared.Ring.{read_ring}
use echocorn.RateLimit.Shared.Decision.{IsSlot, slot_view, nonzero-pos}
use echocorn.RateLimit.Shared.Equal.{decide-request}
use echocorn.RateLimit.Table.{
  SharedCounters, Stats, decided, slot_at, belongs, put_slot, probe_from, expired, cleared,
  sweep_one, after_probe, consume, probes,
}

-- The client's slot is at `index`, behind slots of other clients, with no mutex stuck on the way.
pub data Finds (stuck : ℕ → Bool) (s : SharedCounters) (packed : Bytes) (digest index : ℕ)
    : ℕ → ℕ → Type 0 where
  here :
      {left step : ℕ}
      → (digest + step) % s.slots ≡ index
      → stuck (index % s.shards) ≡ false
      → ((slot_at s index).length == 0) ≡ false
      → belongs packed (slot_at s index) ≡ true
      → Finds stuck s packed digest index (suc left) step
  there :
      {left step : ℕ}
      → stuck (((digest + step) % s.slots) % s.shards) ≡ false
      → ((slot_at s ((digest + step) % s.slots)).length == 0) ≡ false
      → belongs packed (slot_at s ((digest + step) % s.slots)) ≡ false
      → Finds stuck s packed digest index left (step + 1)
      → Finds stuck s packed digest index (suc left) step

module _ (stuck : ℕ → Bool) (s : SharedCounters) (packed : Bytes) (digest index now : ℕ)
    (stats : Stats) where
  pub probe-Finds :
      {left step : ℕ}
      → Finds stuck s packed digest index left step
      → probe_from stuck (record s { stats = stats }) packed digest now left step
        ≡ put_slot s index (decide s.limits now packed (slot_at s index))
  unfolding probe_from
  probe-Finds (here e free taken own) = rw (e, free, taken, own)
  probe-Finds (there free taken other rest) = rw (free, taken, other) (probe-Finds rest)

  pub probe-free :
      (left step : ℕ)
      → (digest + step) % s.slots ≡ index
      → stuck (index % s.shards) ≡ false
      → (slot_at s index).length ≡ 0
      → probe_from stuck (record s { stats = stats }) packed digest now (suc left) step
        ≡ put_slot s index (
            decide s.limits now packed
              (record (slot_at s index) { count = 0; ban_until = 0; burst = 0; oldest = 0 }))
  unfolding probe_from
  probe-free left step e free empty = rw (e, free, empty)

module _ (crc32 : Bytes → ℕ) (pack : Bytes → Bytes) (stuck busy : ℕ → Bool) (client : Bytes)
    (now : ℕ) (s : SharedCounters) where
  abbrev counted : Stats
  counted = let t = s.stats in record t { decisions = t.decisions + 1 }

  after_probe-answer :
      (s' : SharedCounters) (answer : Option ℕ) (table : List Slot)
      → (after_probe busy client now s' (decided answer table)).0 ≡ answer
  unfolding after_probe
  after_probe-answer s' answer table = ground arith

  consume-decided :
      (index : ℕ) (r : Option ℕ × Slot)
      → s.running ≡ true
      → probe_from stuck
          (record s { stats = counted })
          (pack client)
          (crc32 (pack client))
          now
          probes
          0
        ≡ put_slot s index r
      → (consume crc32 pack stuck busy client now s).0 ≡ r.0
  unfolding consume
  consume-decided index r running e =
      let s' : SharedCounters = record s { stats = counted } in
      ap (λ (x : Option ℕ × SharedCounters). x.0) (if-true _ _ running)
      ∙ ap (λ p. (after_probe busy client now s' p).0) e
      ∙ after_probe-answer s' r.0 (set s.table index r.1)

  -- A client whose slot is found, behind slots of others, gets the answer of its own window.
  pub consume-request :
      (index : ℕ)
      → s.running ≡ true
      → 0 < now
      → Finds stuck s (pack client) (crc32 (pack client)) index probes 0
      → IsSlot (s.peak + 1) (slot_at s index)
      → (consume crc32 pack stuck busy client now s).0
        ≡ (request s.limits now (slot_view (s.peak + 1) (slot_at s index))).0
  consume-request index running pos found good =
      consume-decided index (decide s.limits now (pack client) (slot_at s index)) running
        (probe-Finds stuck s (pack client) (crc32 (pack client)) index now counted found)
      ∙ (decide-request s.limits now (pack client) (slot_at s index) pos good).0

  -- A client whose first slot is free starts with a fresh window, whatever stands in the others.
  consume-free :
      (index : ℕ)
      → s.running ≡ true
      → 0 < now
      → crc32 (pack client) % s.slots ≡ index
      → stuck (index % s.shards) ≡ false
      → (slot_at s index).length ≡ 0
      → length (slot_at s index).ring ≡ s.peak + 1
      → (consume crc32 pack stuck busy client now s).0 ≡ (request s.limits now fresh).0
  unfolding read_ring
  consume-free index running pos e free empty whole =
      let slot = slot_at s index in
      let slot' : Slot = record slot { count = 0; ban_until = 0; burst = 0; oldest = 0 } in
      consume-decided index (decide s.limits now (pack client) slot') running (
        probe-free stuck s (pack client) (crc32 (pack client)) index now counted 3 0
          (ap (λ i. i % s.slots) (add-zero (crc32 (pack client))) ∙ e) free empty)
      ∙ (decide-request s.limits now (pack client) slot' pos
          (record { whole = whole; inside = omega arith; fits = omega arith })).0

request-fresh : (l : Limits) (now : ℕ) → 1 ≤ l.requests → (request l now fresh).0 ≡ none
unfolding request
request-fresh l now h = ground arith

-- The table after a sweep has cleared the slot under its cursor.
abbrev swept_table : SharedCounters → SharedCounters
swept_table s =
    let t = s.stats in
    record s {
      sweep_cursor = (s.sweep_cursor + 1) % s.slots;
      table = set s.table s.sweep_cursor (cleared (slot_at s s.sweep_cursor));
      stats = record t { swept = t.swept + 1 };
    }

sweep_one-clears :
    (busy : ℕ → Bool) (now : ℕ) (s : SharedCounters)
    → busy (s.sweep_cursor % s.shards) ≡ false
    → expired s.limits now (slot_at s s.sweep_cursor) ≡ true
    → sweep_one busy now s ≡ swept_table s
unfolding sweep_one
sweep_one-clears busy now s free gone = if-false _ _ free ∙ if-true _ _ gone

slot_at-swept :
    (s : SharedCounters)
    → s.sweep_cursor < length s.table
    → slot_at (swept_table s) s.sweep_cursor ≡ cleared (slot_at s s.sweep_cursor)
slot_at-swept s inside = get_or-set_self s.table s.sweep_cursor _ _ inside

-- A sweep that clears a slot in front of a client that is locked out makes the next request find the
-- free slot first: just before the sweep the client is told to wait out its lockout, just after it
-- the client is served.
pub sweep_forgets_lockout :
    (crc32 : Bytes → ℕ) (pack : Bytes → Bytes) (free : ℕ → Bool) (client : Bytes) (now : ℕ)
    (s : SharedCounters) (index : ℕ)
    → s.running ≡ true
    → 0 < now
    → 1 ≤ s.requests
    → ((i : ℕ) → free i ≡ false)
    → s.sweep_cursor ≡ crc32 (pack client) % s.slots
    → s.sweep_cursor < length s.table
    → expired s.limits now (slot_at s s.sweep_cursor) ≡ true
    → length (slot_at s s.sweep_cursor).ring ≡ s.peak + 1
    → Finds free s (pack client) (crc32 (pack client)) index probes 0
    → IsSlot (s.peak + 1) (slot_at s index)
    → now < (slot_at s index).ban_until
    → ((consume crc32 pack free free client now s).0 ≡ some ((slot_at s index).ban_until - now))
      × ((consume crc32 pack free free client now (sweep_one free now s)).0 ≡ none)
sweep_forgets_lockout crc32 pack free client now s index running pos allowed none_stuck e inside
      gone whole found good banned =
    let at = s.sweep_cursor in
    let now_free = slot_at-swept s inside in
    (
      consume-request crc32 pack free free client now s index running pos found good
          ∙ ap (λ (r : Option ℕ × Client). r.0)
              (request_locked s.limits now (slot_view (s.peak + 1) (slot_at s index))
                (slot_at s index).ban_until (nonzero-pos (slot_at s index).ban_until (omega arith))
                banned),
      rw (sweep_one-clears free now s (none_stuck (at % s.shards)) gone) (
          consume-free crc32 pack free free client now (swept_table s) at running pos (sym e)
            (none_stuck (at % s.shards)) (ap (λ (x : Slot). x.length) now_free)
            (ap (λ (x : Slot). length x.ring) now_free ∙ whole)
          ∙ request-fresh s.limits now allowed),
    )

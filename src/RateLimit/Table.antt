-- ===== src/RateLimit/Table.antt =====
-- `SharedCounters.consume`, `_sweep` and `_degrade` of echocorn/ratelimit.py: the table of slots
-- with its probes and its mutexes. What the mutexes do at one moment is a parameter: `stuck` says
-- which shards cannot be taken within the timeout, `busy` which ones somebody holds.
pub mod Laws
pub mod Sequence
use echocorn.Base.{
  ℕ, zero, suc, ◌+◌, ◌-◌, ◌*◌, ◌/◌, ◌%◌, max, Bool, true, false, not, Option, none, some, List, [],
  ◌∷◌, ◌++◌, ◌&&◌, ◌||◌, ltb, leb, ◌==◌, length, take, set, get_or, replicate, if◌then◌else◌,
}
use echocorn.Base.Bytes.{Bytes, bytes_eq}
use echocorn.RateLimit.{Limits, second, make_limits, min_slots, client_key}
use echocorn.RateLimit.Local
use echocorn.RateLimit.Local.{LocalCounters}
use echocorn.RateLimit.Shared.{Slot, read_timestamp, decide}
use echocorn.RateLimit.Shared.Equal.{free_slot}

pub record Stats : Type 0 where
  pub timeouts : ℕ
  pub overflow : ℕ
  pub swept : ℕ
  pub decisions : ℕ

pub record SharedCounters : Type 0 where
  pub limits : Limits
  pub open limits use *
  pub slots : ℕ
  pub shards : ℕ
  pub running : Bool
  pub table : List Slot
  pub local : LocalCounters
  pub stats : Stats
  pub warned : ℕ
  pub last_warn : ℕ
  pub sweep_cursor : ℕ
  pub since_sweep : ℕ

abbrev pub probes : ℕ
probes = 4

abbrev pub sweep_every : ℕ
sweep_every = 64

abbrev sweep_step : ℕ
sweep_step = 4

-- `__init__`, with the memory of a new segment, which is all zero bytes
unfoldable pub init : ℕ → ℕ → ℕ → ℕ → ℕ → ℕ → SharedCounters
unfolding make_limits Local.init
init requests peak window ban slots shards =
    let limits = make_limits requests peak window ban in
    record {
      limits = limits;
      slots = max min_slots slots;
      shards = max 1 shards;
      running = false;
      table = replicate (max min_slots slots) (free_slot (replicate (limits.peak + 1) 0));
      local = Local.init limits.requests limits.peak limits.window limits.ban none;
      stats = record { timeouts = 0; overflow = 0; swept = 0; decisions = 0 };
      warned = 0;
      last_warn = 0;
      sweep_cursor = 0;
      since_sweep = 0;
    }

-- The slot at an index, as `unpack_from` reads it.
abbrev pub slot_at : SharedCounters → ℕ → Slot
slot_at s index = get_or s.table index (free_slot (replicate (s.peak + 1) 0))

pub data Kind : Type 0 where
  timeouts overflow : Kind

-- `_degrade`; the clock shows `now`.
unfoldable degrade : Kind → ℕ → SharedCounters → SharedCounters
degrade kind now s =
    let t = s.stats in
    let counted : Stats = elim kind [
      | timeouts ↦ record t { timeouts = t.timeouts + 1 }
      | overflow ↦ record t { overflow = t.overflow + 1 }
    ] in
    if ltb (60 * second) (now - s.last_warn)
    then (record s { stats = counted; last_warn = now; warned = s.warned + 1 })
    else (record s { stats = counted })

-- what the run over the probes found
pub data Probe : Type 0 where
  decided : Option ℕ → List Slot → Probe
  stuck_mutex : Probe
  full_run : Probe

abbrev pub belongs : Bytes → Slot → Bool
belongs packed slot =
    (slot.length == length packed) && bytes_eq (take (length packed) slot.key) packed

abbrev pub put_slot : SharedCounters → ℕ → Option ℕ × Slot → Probe
put_slot s index (answer, slot) = decided answer (set s.table index slot)

-- the `for step in range(PROBES)` loop, `left` turns before its end
unfoldable pub probe_from : (ℕ → Bool) → SharedCounters → Bytes → ℕ → ℕ → ℕ → ℕ → Probe
unfolding decide
probe_from stuck s packed digest now zero step = full_run
probe_from stuck s packed digest now (suc left) step =
    let rest = probe_from stuck s packed digest now left (step + 1) in
    let index = (digest + step) % s.slots in
    let slot = slot_at s index in
    if stuck (index % s.shards)
    then stuck_mutex
    else if slot.length == 0
    then put_slot s index (
        decide s.limits now packed
          (record slot { count = 0; ban_until = 0; burst = 0; oldest = 0 }))
    else if belongs packed slot
    then put_slot s index (decide s.limits now packed slot)
    else rest

-- a slot whose window, and lockout, have passed
unfoldable pub expired : Limits → ℕ → Slot → Bool
expired l now slot =
    if slot.length == 0
    then false
    else if not (slot.ban_until == 0) && ltb now slot.ban_until
    then false
    else if slot.count == 0
    then true
    else leb (read_timestamp slot.ring ((slot.oldest + slot.count - 1) % (l.peak + 1)) + l.window)
        now

abbrev pub cleared : Slot → Slot
cleared slot = free_slot slot.ring

-- one turn of the loop of `_sweep`
unfoldable pub sweep_one : (ℕ → Bool) → ℕ → SharedCounters → SharedCounters
unfolding expired
sweep_one busy now s =
    let index = s.sweep_cursor in
    let t = s.stats in
    let moved : SharedCounters = record s { sweep_cursor = (index + 1) % s.slots } in
    if busy (index % s.shards)
    then moved
    else if expired s.limits now (slot_at s index)
    then (record moved {
      table = set s.table index (cleared (slot_at s index));
      stats = record t { swept = t.swept + 1 };
    })
    else moved

unfoldable sweep : (ℕ → Bool) → ℕ → ℕ → SharedCounters → SharedCounters
unfolding sweep_one
sweep busy now zero s = s
sweep busy now (suc n) s = sweep busy now n (sweep_one busy now s)

-- count a request in this process alone
unfoldable count_alone : Bytes → ℕ → SharedCounters → Option ℕ × SharedCounters
count_alone client now s =
    let (answer, local) = Local.consume client now s.local in (answer, record s { local = local })

unfoldable pub after_probe :
    (ℕ → Bool) → Bytes → ℕ → SharedCounters → Probe → Option ℕ × SharedCounters
unfolding sweep degrade count_alone
after_probe busy client now s stuck_mutex = count_alone client now (degrade timeouts now s)
after_probe busy client now s full_run = count_alone client now (degrade overflow now s)
after_probe busy client now s (decided answer table) =
    if leb sweep_every (s.since_sweep + 1)
    then (answer, sweep busy now sweep_step (record s { table = table; since_sweep = 0 }))
    else (answer, record s { table = table; since_sweep = s.since_sweep + 1 })

-- `consume`; `crc32` is that of zlib, `pack` is `pack_client`.
unfoldable pub consume :
    (Bytes → ℕ)
    → (Bytes → Bytes)
    → (ℕ → Bool)
    → (ℕ → Bool)
    → Bytes
    → ℕ
    → SharedCounters
    → Option ℕ × SharedCounters
unfolding probe_from after_probe count_alone
consume crc32 pack stuck busy client now s =
    let t = s.stats in
    if s.running
    then (let s' : SharedCounters = record s { stats = record t { decisions = t.decisions + 1 } } in
        let packed = pack client in
        after_probe busy client now s' (probe_from stuck s' packed (crc32 packed) now probes 0))
    else count_alone client now s

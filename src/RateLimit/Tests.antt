-- ===== src/RateLimit/Tests.antt =====
-- Runs of the rate limiter at concrete inputs, the programs of tests/test_ratelimit.py among them.
use native.Mathlib.Omega.{arith}
use echocorn.RateLimit.{make_limits}
use echocorn.RateLimit.Table
use echocorn.RateLimit.Table.{SharedCounters, slot_at, sweep_one, probes}
use echocorn.RateLimit.Table.Sequence.{IsReady, home_slot, table_log, table_log-client_log}
use echocorn.RateLimit.Table.Laws.{Finds, here, there, sweep_forgets_lockout}
use echocorn.RateLimit.Local.Lockout.{consume-lockout}
use echocorn.RateLimit.Local.View.{view}
use echocorn.RateLimit.Local.Valid.{init-IsValid}
use echocorn.Base.{
  length, inl, ℕ, ◌+◌, ◌≤◌, replicate, Bool, false, true, ◌≡◌, refl, none, some, [], ◌∷◌,
}
use echocorn.Base.Bytes.{Bytes, bytes_eq, codes}
use echocorn.Dict.{lookup, insert}
use echocorn.RateLimit.Client.Log.{served_in, client_log}
use echocorn.RateLimit.Local
use echocorn.RateLimit.Local.{LocalCounters}
use echocorn.RateLimit.Local.Trace.{
  Trace, log_of, moments_of, log_of-client_log, served_by_local-le,
}
use echocorn.RateLimit.Shared.Decision.{IsSlot, slot_view}
use echocorn.RateLimit.Shared.{Slot, pad_key, decide}
use echocorn.RateLimit.Shared.Equal.{slot_log, free_slot, shared-eq-local, decide-request}
use echocorn.RateLimit.Client.{request}

abbrev alice : Bytes
alice = codes "a"

abbrev bob : Bytes
bob = codes "b"

program : Unit {0}
unfolding Local.consume Local.init log_of lookup insert bytes_eq client_log served_in decide request
    slot_log make_limits Table.expired
program = tt

-- test_the_peak_is_one_burst_per_window, in tenths of a second
abbrev spikes : Trace
spikes =
    (alice, 100_000) ∷ (bob, 150_000) ∷ (alice, 200_000) ∷ (alice, 300_000) ∷ (alice, 400_000) ∷ []

abbrev started : LocalCounters
started = Local.init 2 4 10_000_000 0 none

burst_once :
    log_of alice started spikes
    ≡ (100_000, none) ∷ (200_000, none) ∷ (300_000, none) ∷ (400_000, some 9_700_000) ∷ []
unfolding program
burst_once = refl

log_of-client_log_example :
    log_of alice started spikes
    ≡ client_log started.limits (view alice started) (moments_of alice spikes)
unfolding program
log_of-client_log_example =
    log_of-client_log alice 0 started spikes (init-IsValid 0 2 4 10_000_000 0 none) (omega arith)
      (omega arith)

served_by_local-le_example :
    served_in started.window 10_050_000 (log_of alice started spikes) ≤ started.requests + 1
unfolding program
served_by_local-le_example =
    served_by_local-le alice 2 4 10_000_000 0 none spikes 10_050_000 (omega arith) (omega arith)

-- the bound is reached, and stays below the peak of 4
three_served : served_in 10_000_000 10_050_000 (log_of alice started spikes) ≡ 3
unfolding program
three_served = refl

shared-eq-local_example :
    log_of alice (Local.init 2 4 10_000_000 0 none) spikes
    ≡ slot_log
        (make_limits 2 4 10_000_000 0)
        alice
        (free_slot (replicate 5 7))
        (moments_of alice spikes)
unfolding program
shared-eq-local_example =
    shared-eq-local alice alice 2 4 10_000_000 0 none (replicate 5 7) spikes (omega arith)
      (omega arith) (omega arith)

abbrev one_hit : Slot
one_hit = record {
  length = 3;
  key = pad_key (codes "bob");
  ban_until = 0;
  burst = 0;
  count = 1;
  oldest = 4;
  ring = 0 ∷ 0 ∷ 0 ∷ 0 ∷ 90 ∷ [];
}

decide-request_example :
    let l = make_limits 2 4 50 0 in
    ((decide l 100 (codes "bob") one_hit).0 ≡ (request l 100 (slot_view (l.peak + 1) one_hit)).0)
    × (slot_view (l.peak + 1) (decide l 100 (codes "bob") one_hit).1
        ≡ (request l 100 (slot_view (l.peak + 1) one_hit)).1)
    × IsSlot (l.peak + 1) (decide l 100 (codes "bob") one_hit).1
unfolding program
decide-request_example =
    decide-request (make_limits 2 4 50 0) 100 (codes "bob") one_hit (omega arith)
      (record { whole = refl; inside = omega arith; fits = omega arith })

abbrev locked : LocalCounters
locked = record started { bans = (bob, 500) ∷ [] }

consume-lockout_example : lookup bob (Local.consume alice 100 locked).1.bans ≡ some 500
unfolding program
consume-lockout_example = consume-lockout locked alice bob 100 500 (refl, tt) refl (omega arith)

-- the counters once alice has asked
abbrev one_client : LocalCounters
one_client = (Local.count_request alice 100 started).1

-- alice has aged out by then
swept_alice : lookup alice (Local.count_request bob 20_000_000 one_client).1.hits ≡ none
unfolding program
swept_alice = refl

-- a table of two slots: an aged-out stranger in front of bob, who is locked out until 1000
abbrev two_slots : SharedCounters
two_slots =
    let l = make_limits 2 4 50 900 in
    record {
      limits = l;
      slots = 2;
      shards = 1;
      running = true;
      table =
          record one_hit { key = pad_key (codes "eve"); ring = 0 ∷ 0 ∷ 0 ∷ 0 ∷ 10 ∷ [] }
          ∷ record one_hit { ban_until = 1000 }
          ∷ [];
      local = Local.init 2 4 50 900 none;
      stats = record { timeouts = 0; overflow = 0; swept = 0; decisions = 0 };
      warned = 0;
      last_warn = 0;
      sweep_cursor = 0;
      since_sweep = 0;
    }

abbrev checksum : Bytes → ℕ
checksum key = 0

abbrev as_is : Bytes → Bytes
as_is key = key

abbrev nobody : ℕ → Bool
nobody i = false

two_slots-Finds : Finds nobody two_slots (codes "bob") 0 1 probes 0
unfolding program
two_slots-Finds = there refl refl refl (here refl refl refl refl)

sweep_forgets_lockout_example :
    ((Table.consume checksum as_is nobody nobody (codes "bob") 100 two_slots).0 ≡ some 900)
    × ((Table.consume checksum as_is nobody nobody
          (codes "bob")
          100
          (sweep_one nobody 100 two_slots)).0
        ≡ none)
unfolding program
sweep_forgets_lockout_example =
    sweep_forgets_lockout checksum as_is nobody (codes "bob") 100 two_slots 1 refl (omega arith)
      (omega arith) (λ i. refl) refl (omega arith) refl refl two_slots-Finds
      (record { whole = refl; inside = omega arith; fits = omega arith }) (omega arith)

-- a table with a free slot for alice
abbrev free_table : SharedCounters
free_table = record two_slots { table = free_slot (0 ∷ 0 ∷ 0 ∷ 0 ∷ 0 ∷ []) ∷ one_hit ∷ [] }

free_table-IsReady : IsReady nobody alice 0 free_table
free_table-IsReady = record {
  running = refl;
  free_mutex = refl;
  inside = omega arith;
  home = inl refl;
}

table_log-client_log_example :
    table_log checksum as_is nobody nobody alice free_table (10 ∷ 20 ∷ 30 ∷ 40 ∷ [])
    ≡ client_log free_table.limits
        (slot_view (free_table.peak + 1) (home_slot checksum as_is nobody nobody alice free_table))
        (10 ∷ 20 ∷ 30 ∷ 40 ∷ [])
unfolding make_limits
table_log-client_log_example =
    table_log-client_log checksum as_is nobody nobody alice (omega arith) (omega arith) 10
      free_table (10 ∷ 20 ∷ 30 ∷ 40 ∷ []) free_table-IsReady (omega arith) (omega arith)
      (omega arith, (omega arith, (omega arith, (omega arith, tt))))
      (record { whole = refl; inside = omega arith; fits = omega arith })

-- the fourth is refused, for the time of a lockout
four_asked :
    table_log checksum as_is nobody nobody alice free_table (10 ∷ 20 ∷ 30 ∷ 40 ∷ [])
    ≡ (10, none) ∷ (20, none) ∷ (30, none) ∷ (40, some 900) ∷ []
unfolding program table_log
four_asked = refl

-- ===== src/RateLimit/Table/Sequence.antt =====
-- The requests of one client, counted by `SharedCounters.consume` of echocorn/ratelimit.py in its slot.
use mathlib.Core.Path.{subst}
use native.Mathlib.Nat.{add-zero}
use echocorn.Base.{
  lt→leb-false, ℕ, zero, suc, ◌+◌, ◌%◌, ◌≤◌, ◌<◌, ◌≡◌, ◌⊎◌, inl, inr, refl, sym, ap, ◌∙◌, Bool,
  true, false, Option, List, [], ◌∷◌, ◌++◌, arith, length, take, set, replicate, get_or-set_self,
  length-set, if-true, if-false, if-both,
}
use echocorn.Base.Bytes.{Bytes, bytes_eq, bytes_eq_refl}
use echocorn.RateLimit.{Limits}
use echocorn.RateLimit.Client.Log.{Log, client_log, InOrder}
use echocorn.RateLimit.Shared.{Slot, pad_key, decide, settle_slot, append_timestamp, ban_in_force}
use echocorn.RateLimit.Shared.Decision.{IsSlot, slot_view}
use echocorn.RateLimit.Shared.Equal.{slot_log, slot_log-client_log, free_slot}
use echocorn.RateLimit.Table.Laws.{here, probe-Finds, probe-free}
use echocorn.RateLimit.Table.{
  SharedCounters, Stats, slot_at, belongs, put_slot, probe_from, after_probe, consume, probes,
  sweep_every,
}

take-pad : (n : ℕ) (p z : Bytes) → length p ≤ n → take (length p) (take n (p ++ z)) ≡ p
take-pad n [] z h = refl
take-pad zero (c ∷ p) z h = absurd (omega arith)
take-pad (suc n) (c ∷ p) z h = ap (◌∷◌ c) (take-pad n p z (omega arith))

-- the slot says whose it is
IsKeyed : Bytes → Slot → Type 0
IsKeyed packed s = (s.length ≡ length packed) × (s.key ≡ pad_key packed)

-- The slot is the client's, or nobody's.
abbrev pub IsHome : Bytes → Slot → Type 0
IsHome packed s = (s ≡ free_slot s.ring) ⊎ ((s.length ≡ length packed) × (s.key ≡ pad_key packed))

settle_slot-IsKeyed :
    (l : Limits) (now : ℕ) (packed : Bytes) (s : Slot)
    → IsKeyed packed s
    → IsKeyed packed (settle_slot l now s).1
unfolding settle_slot IsKeyed
settle_slot-IsKeyed l now packed s h = ground arith

append_timestamp-IsKeyed :
    (size now : ℕ) (packed : Bytes) (s : Slot)
    → IsKeyed packed s
    → IsKeyed packed (append_timestamp size now s)
unfolding append_timestamp IsKeyed
append_timestamp-IsKeyed size now packed s h = ground arith

decide-IsHome :
    (l : Limits) (now : ℕ) (packed : Bytes) (s : Slot)
    → IsHome packed s
    → IsHome packed (decide l now packed s).1
unfolding decide IsKeyed
decide-IsHome l now packed s h =
    if-both (λ (r : Option ℕ × Slot). IsHome packed r.1) (ban_in_force now s.ban_until) h
      (inr (
        settle_slot-IsKeyed l now packed _
          (append_timestamp-IsKeyed (l.peak + 1) now packed _ (refl, refl))))

belongs-IsKeyed :
    (packed : Bytes) (s : Slot) → length packed ≤ 16 → IsKeyed packed s → belongs packed s ≡ true
unfolding IsKeyed
belongs-IsKeyed packed s short h =
    let own : bytes_eq (take (length packed) s.key) packed ≡ true =
      ap (λ k. bytes_eq (take (length packed) k) packed) h.1
      ∙ ap (λ t. bytes_eq t packed) (take-pad 16 packed (replicate 16 0) short)
      ∙ bytes_eq_refl packed in
    ground arith

-- The client's run of slots begins at a mutex that can be taken, with a slot that is its own or free.
module _ (stuck : ℕ → Bool) (packed : Bytes) (digest : ℕ) where
  abbrev home_of : SharedCounters → ℕ
  home_of s = digest % s.slots

  pub record IsReady (s : SharedCounters) : Type 0 where
    pub running : s.running ≡ true
    pub free_mutex : stuck (home_of s % s.shards) ≡ false
    pub inside : home_of s < length s.table
    pub home : IsHome packed (slot_at s (home_of s))

module _ (stuck : ℕ → Bool) (packed : Bytes) (digest now : ℕ) (s : SharedCounters) (stats : Stats)
    (short : length packed ≤ 16) (some_key : 0 < length packed)
    (ready : IsReady stuck packed digest s) where
  abbrev home : ℕ
  home = home_of stuck packed digest s

  probe-home :
      probe_from stuck (record s { stats = stats }) packed digest now probes 0
      ≡ put_slot s home (decide s.limits now packed (slot_at s home))
  unfolding IsKeyed
  probe-home = elim ready.home [
    | inl free ↦
        probe-free stuck s packed digest home now stats 3 0 at_home ready.free_mutex
          (ap (λ (x : Slot). x.length) free)
        ∙ ap (λ x. put_slot s home (decide s.limits now packed x))
            (ap (λ (x : Slot). record x { count = 0; ban_until = 0; burst = 0; oldest = 0 }) free
              ∙ sym free)
    | inr keyed ↦ probe-Finds stuck s packed digest home now stats (
        here at_home ready.free_mutex (ground (arith, keyed.0))
          (belongs-IsKeyed packed (slot_at s home) short keyed))
  ]
    where
      at_home : (digest + 0) % s.slots ≡ home
      at_home = ap (λ i. i % s.slots) (add-zero digest)

module _ (crc32 : Bytes → ℕ) (pack : Bytes → Bytes) (stuck busy : ℕ → Bool) (client : Bytes) where
  abbrev pub home_slot : SharedCounters → Slot
  home_slot s = slot_at s (home_of stuck (pack client) (crc32 (pack client)) s)

  -- the answers to the client's requests, one after another
  unfoldable pub table_log : SharedCounters → List ℕ → Log
  unfolding consume
  table_log s [] = []
  table_log s (t ∷ ts) =
      let (answer, s') = consume crc32 pack stuck busy client t s in (t, answer) ∷ table_log s' ts

  abbrev pub Ready : SharedCounters → Type 0
  Ready = IsReady stuck (pack client) (crc32 (pack client))

  -- the table when the slot is written back, no sweep being due
  abbrev written : SharedCounters → Slot → SharedCounters
  written s slot =
      let t = s.stats in
      record s {
        stats = record t { decisions = t.decisions + 1 };
        table = set s.table (home_of stuck (pack client) (crc32 (pack client)) s) slot;
        since_sweep = s.since_sweep + 1;
      }

  module _ (short : length (pack client) ≤ 16) (some_key : 0 < length (pack client)) where
    consume-written :
        (now : ℕ) (s : SharedCounters)
        → Ready s
        → s.since_sweep + 1 < sweep_every
        → consume crc32 pack stuck busy client now s ≡ (
          (decide s.limits now (pack client) (home_slot s)).0,
          written s (decide s.limits now (pack client) (home_slot s)).1,
        )
    unfolding consume after_probe
    consume-written now s ready early =
        let t = s.stats in
        let counted : Stats = record t { decisions = t.decisions + 1 } in
        if-true _ _ ready.running
        ∙ ap (after_probe busy client now (record s { stats = counted })) (
            probe-home stuck (pack client) (crc32 (pack client)) now s counted short some_key ready)
        ∙ if-false _ _ (lt→leb-false sweep_every (s.since_sweep + 1) early)

    written-Ready :
        (now : ℕ) (s : SharedCounters)
        → Ready s
        → Ready (written s (decide s.limits now (pack client) (home_slot s)).1)
          × (home_slot (written s (decide s.limits now (pack client) (home_slot s)).1)
              ≡ (decide s.limits now (pack client) (home_slot s)).1)
    written-Ready now s ready =
        let slot = (decide s.limits now (pack client) (home_slot s)).1 in
        let home = home_of stuck (pack client) (crc32 (pack client)) s in
        let kept : home_slot (written s slot) ≡ slot =
          get_or-set_self s.table home slot _ ready.inside in
        (
          record {
            running = ready.running;
            free_mutex = ready.free_mutex;
            inside = omega (arith, ready.inside, length-set s.table home slot);
            home =
                subst (IsHome (pack client)) (sym kept)
                  (decide-IsHome s.limits now (pack client) (home_slot s) ready.home);
          },
          kept,
        )

    table_log-slot_log :
        (s : SharedCounters) (ts : List ℕ)
        → Ready s
        → s.since_sweep + length ts < sweep_every
        → table_log s ts ≡ slot_log s.limits (pack client) (home_slot s) ts
    unfolding table_log slot_log
    table_log-slot_log s [] ready early = refl
    table_log-slot_log s (t ∷ ts) ready early =
        let (answer, slot) = decide s.limits t (pack client) (home_slot s) in
        let (still, kept) = written-Ready t s ready in
        ap (λ (r : Option ℕ × SharedCounters). (t, r.0) ∷ table_log r.1 ts)
          (consume-written t s ready (omega arith))
        ∙ ap (λ log. (t, answer) ∷ log)
            (table_log-slot_log (written s slot) ts still (omega arith)
              ∙ ap (λ x. slot_log s.limits (pack client) x ts) kept)

    -- The requests of a client that a running shared table counts one after another get the answers of
    -- the client's window: each finds the slot that the last one has written. The first slot that the
    -- client is sent to is its own or free at the start, and its mutex can be taken; no sweep comes due
    -- meanwhile; the clock has left zero and does not go back; the key has one to sixteen bytes.
    pub table_log-client_log :
        (now : ℕ) (s : SharedCounters) (ts : List ℕ)
        → Ready s
        → s.since_sweep + length ts < sweep_every
        → 0 < now
        → InOrder now ts
        → IsSlot (s.peak + 1) (home_slot s)
        → table_log s ts ≡ client_log s.limits (slot_view (s.peak + 1) (home_slot s)) ts
    table_log-client_log now s ts ready early pos order good =
        table_log-slot_log s ts ready early
        ∙ slot_log-client_log s.limits (pack client) now (home_slot s) ts pos order good

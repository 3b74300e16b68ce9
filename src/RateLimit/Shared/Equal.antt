-- ===== src/RateLimit/Shared/Equal.antt =====
-- `_decide` and `LocalCounters.consume` are one decision: both are the window of the client.
use echocorn.Base.{
  replicate, [], ◌∷◌, ◌⊎◌, ℕ, zero, suc, ◌+◌, ◌-◌, ◌≤◌, ◌<◌, ◌≡◌, refl, sym, ap, ◌∙◌, Option, none,
  some, List, arith, ltb, length, Bool-cases, inl, inr, ltb→lt, ltb-false, true, false,
}
use echocorn.Base.Bytes.{Bytes}
use echocorn.RateLimit.{Limits, make_limits}
use echocorn.RateLimit.Client.Log.{Log, client_log, InOrder}
use echocorn.RateLimit.Local.{init}
use echocorn.RateLimit.Local.Valid.{init-IsValid}
use echocorn.RateLimit.Local.Trace.{
  Trace, TraceInOrder, log_of, moments_of, moments-InOrder, log_of-client_log,
}
use echocorn.RateLimit.Client.{Client, push, judge, count_hit, request}
use echocorn.RateLimit.Client.Settle.{count_hit_lem, request_free, request_locked, request_over}
use echocorn.RateLimit.Shared.{
  Slot, pad_key, drop_aged, append_timestamp, settle_slot, decide, ban_in_force, clear_ban,
}
use echocorn.Dict.{lookup}
use echocorn.RateLimit.Shared.Ring.{read_ring, drop_aged-prune, drop_aged_bounds}
use echocorn.RateLimit.Shared.Decision.{
  IsSlot, slot_view, nonzero, nonzero-pos, append-push, append-IsSlot, settle_slot-judge,
  settle_slot-IsSlot,
}

zero-or-pos : (n : ℕ) → (n ≡ 0) ⊎ (0 < n)
zero-or-pos zero = inl refl
zero-or-pos (suc n) = inr (omega arith)

ban_over : (now b : ℕ) → b ≤ now → (ban_in_force now b ≡ false) × (clear_ban now b ≡ 0)
unfolding ban_in_force clear_ban
ban_over now b h = ground arith

ban_holds : (now b : ℕ) → now < b → ban_in_force now b ≡ true
unfolding ban_in_force
ban_holds now b h = ground arith

module _ (l : Limits) (now : ℕ) (packed : Bytes) (s : Slot) where
  -- the slot when the decision is taken, its lockout over
  abbrev dropped : Slot
  dropped =
      let (count, oldest) = drop_aged (l.peak + 1) l.window now s.ring s.count s.oldest in
      record s {
        length = length packed;
        key = pad_key packed;
        ban_until = 0;
        count = count;
        oldest = oldest;
      }

  dropped-IsSlot : IsSlot (l.peak + 1) s → IsSlot (l.peak + 1) dropped
  dropped-IsSlot h =
      let (few, inside) =
        drop_aged_bounds (l.peak + 1) l.window now s.ring s.count s.oldest h.inside in
      record { whole = h.whole; inside = inside; fits = omega (arith, h.fits) }

  decide_open :
      s.ban_until ≤ now
      → decide l now packed s ≡ settle_slot l now (append_timestamp (l.peak + 1) now dropped)
  unfolding decide
  decide_open over = let (free, zeroed) = ban_over now s.ban_until over in rw (free, zeroed)

  decide_locked : now < s.ban_until → decide l now packed s ≡ (some (s.ban_until - now), s)
  unfolding decide
  decide_locked h = rw (ban_holds now s.ban_until h)

  decide_open-count_hit :
      0 < now
      → IsSlot (l.peak + 1) s
      → s.ban_until ≤ now
      → ((decide l now packed s).0 ≡ (count_hit l now (slot_view (l.peak + 1) s)).0)
        × (slot_view (l.peak + 1) (decide l now packed s).1
            ≡ (count_hit l now (slot_view (l.peak + 1) s)).1)
  decide_open-count_hit pos h over =
      let size = l.peak + 1 in
      let ready = append_timestamp size now dropped in
      let good = dropped-IsSlot h in
      let (answer, state) =
        settle_slot-judge l now ready pos (append-IsSlot size now dropped good) in
      let pruned = drop_aged-prune size l.window now s.ring s.count s.oldest in
      let counted = append-push size now dropped good l.peak refl in
      let e : judge l now (slot_view size ready) ≡ count_hit l now (slot_view size s) =
        ap (judge l now) counted
        ∙ ap
            (λ (x : List ℕ).
              judge l now
                (record { hits = push l.peak now x; burst = nonzero s.burst; ban = none }))
            pruned
        ∙ sym (count_hit_lem l now (slot_view size s)) in
      let opened = decide_open over in
      (
        ap (λ (r : Option ℕ × Slot). r.0) opened ∙ answer ∙ ap (λ (r : Option ℕ × Client). r.0) e,
        ap (λ (r : Option ℕ × Slot). slot_view size r.1) opened
            ∙ state
            ∙ ap (λ (r : Option ℕ × Client). r.1) e,
      )

  over-count_hit :
      s.ban_until ≤ now
      → request l now (slot_view (l.peak + 1) s) ≡ count_hit l now (slot_view (l.peak + 1) s)
  over-count_hit past = elim (zero-or-pos s.ban_until) [
    | inl free ↦ request_free l now (slot_view (l.peak + 1) s) (ap nonzero free)
    | inr pos ↦
        request_over l now (slot_view (l.peak + 1) s) s.ban_until (nonzero-pos s.ban_until pos) past
  ]

  -- One request counted in a well-formed slot: the answer of the client's window, and the slot then
  -- holds the window that follows, in a ring that is well formed again.
  pub decide-request :
      0 < now
      → IsSlot (l.peak + 1) s
      → ((decide l now packed s).0 ≡ (request l now (slot_view (l.peak + 1) s)).0)
        × (slot_view (l.peak + 1) (decide l now packed s).1
            ≡ (request l now (slot_view (l.peak + 1) s)).1)
        × IsSlot (l.peak + 1) (decide l now packed s).1
  decide-request pos h = elim (Bool-cases (ltb now s.ban_until)) [
    | inl locked ↦
        let later = ltb→lt now s.ban_until locked in
        rw
          (
            decide_locked later,
            request_locked l now (slot_view (l.peak + 1) s) s.ban_until
                (nonzero-pos s.ban_until (omega arith)) later,
          )
          (refl, refl, h)
    | inr over ↦
        let past = ltb-false now s.ban_until over in
        let (answer, state) = decide_open-count_hit pos h past in
        let same = over-count_hit past in
        let good =
          settle_slot-IsSlot l now (append_timestamp (l.peak + 1) now dropped)
            (append-IsSlot (l.peak + 1) now dropped (dropped-IsSlot h)) in
        rw same (answer, state, rw (decide_open past) good)
  ]

-- The answers of one slot to a sequence of requests of its client.
unfoldable pub slot_log : Limits → Bytes → Slot → List ℕ → Log
slot_log l packed s [] = []
slot_log l packed s (t ∷ ts) =
    (t, (decide l t packed s).0) ∷ slot_log l packed (decide l t packed s).1 ts

pub slot_log-client_log :
    (l : Limits) (packed : Bytes) (now : ℕ) (s : Slot) (ts : List ℕ)
    → 0 < now
    → InOrder now ts
    → IsSlot (l.peak + 1) s
    → slot_log l packed s ts ≡ client_log l (slot_view (l.peak + 1) s) ts
unfolding slot_log client_log
slot_log-client_log l packed now s [] pos order h = refl
slot_log-client_log l packed now s (t ∷ ts) pos order h =
    let later : 0 < t = omega (arith, order.0) in
    let (answer, state, good) = decide-request l t packed s later h in
    let rest = slot_log-client_log l packed t (decide l t packed s).1 ts later order.1 good in
    cc (answer, state, rest)

-- A slot that nobody has: what its ring holds does not matter.
abbrev pub free_slot : List ℕ → Slot
free_slot ring = record {
  length = 0;
  key = replicate 16 0;
  ban_until = 0;
  burst = 0;
  count = 0;
  oldest = 0;
  ring = ring;
}

-- The two implementations do not drift apart: while the dictionaries have room, a client of the
-- one-process counters gets, decision for decision and wait for wait, what a slot of the shared
-- table gives it, whoever else asks in between. The clock must have left zero.
pub shared-eq-local :
    (k packed : Bytes) (requests peak window ban : ℕ) (capacity : Option ℕ) (ring : List ℕ)
    (trace : Trace)
    → TraceInOrder 1 trace
    → length ring ≡ (init requests peak window ban capacity).peak + 1
    → length trace ≤ (init requests peak window ban capacity).capacity
    → log_of k (init requests peak window ban capacity) trace
      ≡ slot_log (make_limits requests peak window ban) packed (free_slot ring) (moments_of k trace)
unfolding init lookup read_ring
shared-eq-local k packed requests peak window ban capacity ring trace order whole room =
    let s = init requests peak window ban capacity in
    log_of-client_log k 1 s trace (init-IsValid 1 requests peak window ban capacity) order
      (omega (arith, room))
    ∙ sym (
        slot_log-client_log s.limits packed 1 (free_slot ring) (moments_of k trace) (omega arith)
          (moments-InOrder k 1 trace order)
          (record { whole = whole; inside = omega arith; fits = omega arith }))

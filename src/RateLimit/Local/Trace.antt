-- ===== src/RateLimit/Local/Trace.antt =====
-- Sequences of requests of many clients, counted in one process.
use native.Mathlib.Nat.{le_trans}
use mathlib.Core.Path.{subst}
use echocorn.Base.{
  Option, ℕ, ◌+◌, ◌≤◌, ◌<◌, ◌≡◌, refl, ap, ◌∙◌, false, List, [], ◌∷◌, arith, if◌then◌else◌, length,
  if-both, Bool-cases, inl, inr,
}
use echocorn.Base.Bytes.{Bytes, bytes_eq, bytes_eq_iff}
use echocorn.Dict.{lookup}
use echocorn.RateLimit.{make_limits}
use echocorn.RateLimit.Client.Bound.{served_in-le}
use echocorn.RateLimit.Client.Log.{Log, client_log, client_log-settle, InOrder, served_in}
use echocorn.RateLimit.Local.{LocalCounters, consume, init}
use echocorn.RateLimit.Local.Valid.{init-IsValid, IsValid, IsValid-mono, consume-IsValid}
use echocorn.RateLimit.Local.Simulation.{
  consume-limits, consume-length, consume-view_ne, consume-Alike,
}
use echocorn.RateLimit.Local.View.{view}

-- Who asked, and when.
abbrev pub Trace : Type 0
Trace = List (Bytes × ℕ)

unfoldable pub log_of : Bytes → LocalCounters → Trace → Log
log_of k s [] = []
log_of k s ((j, t) ∷ trace) =
    let rest = log_of k (consume j t s).1 trace in
    if bytes_eq j k then (t, (consume j t s).0) ∷ rest else rest

unfoldable pub moments_of : Bytes → Trace → List ℕ
moments_of k [] = []
moments_of k ((j, t) ∷ trace) =
    let rest = moments_of k trace in if bytes_eq j k then t ∷ rest else rest

abbrev pub TraceInOrder : ℕ → Trace → Type 0
TraceInOrder now [] = Unit
TraceInOrder now ((j, t) ∷ trace) = (now ≤ t) × TraceInOrder t trace

InOrder-weaken : (a b : ℕ) (ts : List ℕ) → a ≤ b → InOrder b ts → InOrder a ts
InOrder-weaken a b [] h order = tt
InOrder-weaken a b (t ∷ ts) h order = (le_trans h order.0, order.1)

pub moments-InOrder :
    (k : Bytes) (now : ℕ) (trace : Trace)
    → TraceInOrder now trace
    → InOrder now (moments_of k trace)
unfolding moments_of
moments-InOrder k now [] order = tt
moments-InOrder k now ((j, t) ∷ trace) order =
    if-both (InOrder now) (bytes_eq j k) (order.0, moments-InOrder k t trace order.1)
      (InOrder-weaken now t (moments_of k trace) order.0 (moments-InOrder k t trace order.1))

module _ (k : Bytes) (t : ℕ) (s : LocalCounters) (v : IsValid t s)
    (room : length s.hits < s.capacity) where
  -- a request of the client itself, and what follows
  log-own :
      (ts : List ℕ)
      → InOrder t ts
      → (t, (consume k t s).0) ∷ client_log s.limits (view k (consume k t s).1) ts
        ≡ client_log s.limits (view k s) (t ∷ ts)
  unfolding client_log
  log-own ts order =
      let (answer, state) = consume-Alike t k s v room in
      cc (answer, client_log-settle s.limits t _ _ ts order state)

  -- a request of another client, and what follows
  log-other :
      (j : Bytes) (ts : List ℕ)
      → bytes_eq j k ≡ false
      → InOrder t ts
      → client_log s.limits (view k (consume j t s).1) ts ≡ client_log s.limits (view k s) ts
  log-other j ts other order =
      client_log-settle s.limits t _ _ ts order (consume-view_ne t j s v room k other)

-- In a table with room for them all, each client gets the answers that its own requests alone
-- would get: the other clients, the sweeps and the dictionaries do not show.
pub log_of-client_log :
    (k : Bytes) (now : ℕ) (s : LocalCounters) (trace : Trace)
    → IsValid now s
    → TraceInOrder now trace
    → length s.hits + length trace ≤ s.capacity
    → log_of k s trace ≡ client_log s.limits (view k s) (moments_of k trace)
unfolding log_of moments_of client_log
log_of-client_log k now s [] v order room = refl
log_of-client_log k now s ((j, t) ∷ trace) v order room =
    let s' = (consume j t s).1 in
    let ts = moments_of k trace in
    let vt = IsValid-mono now t s order.0 v in
    let space : length s.hits < s.capacity = omega arith in
    let in_order = moments-InOrder k t trace order.1 in
    let (l, c) = consume-limits t j s in
    let ih : log_of k s' trace ≡ client_log s.limits (view k s') ts =
      log_of-client_log k t s' trace (consume-IsValid t j s vt) order.1
        (omega (arith, consume-length t j s vt space, c))
      ∙ ap (λ x. client_log x (view k s') ts) l in
    elim (Bool-cases (bytes_eq j k)) [
      | inl same ↦
          let e = (bytes_eq_iff j k).0 same in
          let own = log-own j t s vt space ts in_order in
          rw (same, ih)
            (subst
              (λ x.
                (t, (consume j t s).0) ∷ client_log s.limits (view x s') ts
                ≡ client_log s.limits (view x s) (t ∷ ts))
              e own)
      | inr other ↦ rw (other, ih) (log-other k t s vt space j ts other in_order)
    ]

requests-le-peak :
    (requests peak window ban : ℕ)
    → (make_limits requests peak window ban).requests ≤ (make_limits requests peak window ban).peak
unfolding make_limits
requests-le-peak requests peak window ban = ground arith

-- From its start, a table with room for them all serves no client more than one request above the
-- steady allowance in any window, wherever the window ends and whatever the peak.
pub served_by_local-le :
    (k : Bytes) (requests peak window ban : ℕ) (capacity : Option ℕ) (trace : Trace) (end : ℕ)
    → TraceInOrder 0 trace
    → length trace ≤ (init requests peak window ban capacity).capacity
    → served_in
        (init requests peak window ban capacity).window
        end
        (log_of k (init requests peak window ban capacity) trace)
      ≤ (init requests peak window ban capacity).requests + 1
unfolding init lookup
served_by_local-le k requests peak window ban capacity trace end order room =
    let s = init requests peak window ban capacity in
    let e =
      log_of-client_log k 0 s trace (init-IsValid 0 requests peak window ban capacity) order
        (omega (arith, room)) in
    rw e (
      served_in-le s.limits end (moments_of k trace) (requests-le-peak requests peak window ban)
        (moments-InOrder k 0 trace order))

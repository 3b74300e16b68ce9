-- ===== src/Http1/Dispatch/Limited/Counted.antt =====
-- The heads that echocorn/http1.py reads, against the log of the counters that the limiter asks.
use native.Mathlib.Nat.{le_trans}
use mathlib.Core.Path.{subst}
use echocorn.Base.{
  ℕ, ◌+◌, ◌≤◌, ◌≡◌, refl, sym, Bool, true, false, ◌⊎◌, inl, inr, Option, none, some, List, [], ◌∷◌,
  arith, length, Bool-cases, if◌then◌else◌,
}
use echocorn.Base.Bytes.{Bytes, bytes_eq}
use echocorn.RateLimit.{Limits}
use echocorn.RateLimit.Client.Log.{Log, served_in}
use echocorn.RateLimit.Local
use echocorn.RateLimit.Local.{LocalCounters}
use echocorn.RateLimit.Local.Trace.{Trace, TraceInOrder, log_of}
use echocorn.RateLimit.Limiter.{RateLimiter, World, alone, check, count}
use echocorn.Http1.Error.{Result, ok, err}
use echocorn.Http1.Head.{ParsedHead, Url, parse_request_head}
use echocorn.Http1.Dispatch.{
  Settings, Dispatch, admit, route, refused_or, refusal_of, start_parsed, start_request,
}
use echocorn.Http1.Dispatch.Admitted.{passed_on}
use echocorn.Http1.Dispatch.Limited.{Arrival, limiter_at, one_of, passed_in}

abbrev Parsed : Type 0
Parsed = Result (Option (ParsedHead × Bytes))

-- the limiter is asked
reaches : Parsed → Bool
reaches (err e) = false
reaches (ok none) = false
reaches (ok (some found)) = true

abbrev pub InOrder : ℕ → List Arrival → Type 0
InOrder now [] = Unit
InOrder now (a ∷ arrivals) = (now ≤ a.moment) × InOrder a.moment arrivals

abbrev pub with_local : Limits → LocalCounters → RateLimiter
with_local limits local = record { limits = limits; counters = alone local }

module _ (urlsplit : Bytes → Option Url) (settings : Settings) (world : World) (window end : ℕ)
    (k : Bytes) where
  parsed_of : Arrival → Parsed
  parsed_of a = parse_request_head urlsplit settings.limits a.buffer

  -- the requests that the limiter counts
  pub trace_of : List Arrival → Trace
  trace_of [] = []
  trace_of (a ∷ arrivals) =
      let rest = trace_of arrivals in
      if reaches (parsed_of a) then (a.client, a.moment) ∷ rest else rest

module _ (urlsplit : Bytes → Option Url) (settings : Settings) (world : World) (window end : ℕ)
    (k : Bytes) where
  pub trace_of-InOrder :
      (now now' : ℕ) (arrivals : List Arrival)
      → now ≤ now'
      → InOrder now' arrivals
      → TraceInOrder now (trace_of urlsplit settings world window end k arrivals)
  unfolding trace_of
  trace_of-InOrder now now' [] h order = tt
  trace_of-InOrder now now' (a ∷ arrivals) h order =
      elim (Bool-cases (reaches (parsed_of urlsplit settings world window end k a))) [
        | inl asked ↦
            rw asked (
              le_trans h order.0,
              trace_of-InOrder a.moment a.moment arrivals (omega arith) order.1,
            )
        | inr not_asked ↦
            rw not_asked (trace_of-InOrder now a.moment arrivals (le_trans h order.0) order.1)
      ]

  pub length-trace_of :
      (arrivals : List Arrival)
      → length (trace_of urlsplit settings world window end k arrivals) ≤ length arrivals
  unfolding trace_of
  length-trace_of [] = omega arith
  length-trace_of (a ∷ arrivals) = ground (arith, length-trace_of arrivals)

  -- an answer of the limiter in front of a log
  answered : Arrival → Option ℕ → Log → Log
  answered a answer log = if bytes_eq a.client k then (a.moment, answer) ∷ log else log

  one_of-le :
      (a : Arrival) (d : Dispatch) (answer : Option ℕ) (log : Log) (n : ℕ)
      → (passed_on d ≡ none) ⊎ (answer ≡ none)
      → n ≤ served_in window end log
      → one_of urlsplit settings world window end k a d + n
        ≤ served_in window end (answered a answer log)
  unfolding answered served_in one_of bytes_eq
  one_of-le a d (some wait) log n (inl stopped) h = rw stopped (ground arith)
  one_of-le a d none log n (inl stopped) h = rw stopped (ground arith)
  one_of-le a d (some wait) log n (inr free) h = cc
  one_of-le a d none log n (inr free) h = ground arith

module _ (urlsplit : Bytes → Option Url) (settings : Settings) (world : World) (limits : Limits)
    (client buffer : Bytes) (now : ℕ) (local : LocalCounters) where
  started : Parsed → Dispatch × RateLimiter
  started =
      start_parsed urlsplit settings (limiter_at world now) client buffer (with_local limits local)

module _ (urlsplit : Bytes → Option Url) (settings : Settings) (world : World) (limits : Limits)
    (client buffer : Bytes) (now : ℕ) (local : LocalCounters) where
  started-unasked :
      (p : Parsed)
      → reaches p ≡ false
      → (passed_on (started urlsplit settings world limits client buffer now local p).0 ≡ none)
        × ((started urlsplit settings world limits client buffer now local p).1
            ≡ with_local limits local)
  unfolding started start_parsed reaches
  started-unasked (err e) h = (refl, refl)
  started-unasked (ok none) h = (refl, refl)
  started-unasked (ok (some (head, rest))) h = cc

  started-asked :
      (p : Parsed)
      → reaches p ≡ true
      → ((passed_on (started urlsplit settings world limits client buffer now local p).0 ≡ none)
          ⊎ ((Local.consume client now local).0 ≡ none))
        × ((started urlsplit settings world limits client buffer now local p).1
            ≡ with_local limits (Local.consume client now local).1)
  unfolding started start_parsed reaches admit check count limiter_at
  started-asked (err e) h = cc
  started-asked (ok none) h = cc
  started-asked (ok (some (head, rest))) h = (
    refusal_of-stops (Local.consume client now local).0 head (route urlsplit settings head rest),
    refl,
  )
    where
      refusal_of-stops :
          (wait : Option ℕ) (head : ParsedHead) (d : Dispatch)
          → (passed_on (refused_or (refusal_of wait head) d) ≡ none) ⊎ (wait ≡ none)
      refusal_of-stops none head d = inr refl
      refusal_of-stops (some ticks) head d = inl refl

module _ (urlsplit : Bytes → Option Url) (settings : Settings) (world : World) (window end : ℕ)
    (k : Bytes) where
  log_of-asked :
      (a : Arrival) (arrivals : List Arrival) (local : LocalCounters)
      → reaches (parsed_of urlsplit settings world window end k a) ≡ true
      → log_of k local (trace_of urlsplit settings world window end k (a ∷ arrivals))
        ≡ answered urlsplit settings world window end k a
            (Local.consume a.client a.moment local).0
            (log_of k
              (Local.consume a.client a.moment local).1
              (trace_of urlsplit settings world window end k arrivals))
  unfolding trace_of log_of answered
  log_of-asked a arrivals local asked = rw asked refl

  trace_of-unasked :
      (a : Arrival) (arrivals : List Arrival)
      → reaches (parsed_of urlsplit settings world window end k a) ≡ false
      → trace_of urlsplit settings world window end k (a ∷ arrivals)
        ≡ trace_of urlsplit settings world window end k arrivals
  unfolding trace_of
  trace_of-unasked a arrivals unasked = rw unasked refl

  one_of-nothing :
      (a : Arrival) (d : Dispatch) (n : ℕ)
      → passed_on d ≡ none
      → one_of urlsplit settings world window end k a d + n ≡ n
  unfolding one_of bytes_eq
  one_of-nothing a d n stops = rw stops (ground arith)

  pub passed_in-le :
      (limits : Limits) (arrivals : List Arrival) (local : LocalCounters)
      → passed_in urlsplit settings world window end k arrivals (with_local limits local)
        ≤ served_in window end
            (log_of k local (trace_of urlsplit settings world window end k arrivals))
  unfolding passed_in start_request started parsed_of
  passed_in-le limits [] local = omega arith
  passed_in-le limits (a ∷ arrivals) local =
      let p : Parsed = parsed_of urlsplit settings world window end k a in
      let (answer, local') = Local.consume a.client a.moment local in
      let (d, limiter') =
        started urlsplit settings world limits a.client a.buffer a.moment local p in
      elim (Bool-cases (reaches p)) [
        | inl asked ↦
            let (stops, next) =
              started-asked urlsplit settings world limits a.client a.buffer a.moment local p
                asked in
            rw (log_of-asked a arrivals local asked) (
              one_of-le urlsplit settings world window end k a d answer
                (log_of k local' (trace_of urlsplit settings world window end k arrivals))
                (passed_in urlsplit settings world window end k arrivals limiter') stops
                (rw next (passed_in-le limits arrivals local')))
        | inr unasked ↦
            let (stops, next) =
              started-unasked urlsplit settings world limits a.client a.buffer a.moment local p
                unasked in
            rw (trace_of-unasked a arrivals unasked) (
              subst
                (λ m.
                  m
                  ≤ served_in window end
                      (log_of k local (trace_of urlsplit settings world window end k arrivals)))
                (sym (
                  one_of-nothing a d
                    (passed_in urlsplit settings world window end k arrivals limiter') stops))
                (rw next (passed_in-le limits arrivals local)))
      ]

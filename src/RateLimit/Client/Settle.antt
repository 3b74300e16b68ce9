-- ===== src/RateLimit/Client/Settle.antt =====
-- What of a client's counters can still matter: the rest has aged out.
use echocorn.Base.{
  ◌<◌, ◌-◌, lt→ltb, le→ltb-false, ℕ, ◌+◌, ◌≤◌, ◌≡◌, refl, sym, ◌∙◌, ap, Option-cases, Option, none,
  some, List, [], ◌∷◌, arith, ltb, leb, inl, inr, if◌then◌else◌,
}
use native.Mathlib.Nat.{le_refl}
use echocorn.RateLimit.{Limits}
use echocorn.RateLimit.Client.{Client, prune, request, push, judge, count_hit}

unfoldable pub live_burst : ℕ → ℕ → Option ℕ → Option ℕ
live_burst window now none = none
live_burst window now (some used) = if leb (used + window) now then none else some used

unfoldable pub live_ban : ℕ → Option ℕ → Option ℕ
live_ban now none = none
live_ban now (some until) = if ltb now until then some until else none

unfoldable pub settle : Limits → ℕ → Client → Client
unfolding live_burst live_ban
settle l now c = record {
  hits = prune l.window now c.hits;
  burst = live_burst l.window now c.burst;
  ban = live_ban now c.ban;
}

prune-prune : (w a b : ℕ) (hs : List ℕ) → a ≤ b → prune w b (prune w a hs) ≡ prune w b hs
unfolding prune
prune-prune w a b [] h = refl
prune-prune w a b (x ∷ hs) h = ground (arith, prune-prune w a b hs h)

live_burst-live_burst :
    (w a b : ℕ) (o : Option ℕ) → a ≤ b → live_burst w b (live_burst w a o) ≡ live_burst w b o
unfolding live_burst
live_burst-live_burst w a b none h = refl
live_burst-live_burst w a b (some u) h = ground arith

live_ban-live_ban : (a b : ℕ) (o : Option ℕ) → a ≤ b → live_ban b (live_ban a o) ≡ live_ban b o
unfolding live_ban
live_ban-live_ban a b none h = refl
live_ban-live_ban a b (some u) h = ground arith

-- Time only moves on: what has aged out stays out.
pub settle-settle :
    (l : Limits) (a b : ℕ) (c : Client) → a ≤ b → settle l b (settle l a c) ≡ settle l b c
unfolding settle
settle-settle l a b c h = ground (
  arith,
  prune-prune l.window a b c.hits h,
  live_burst-live_burst l.window a b c.burst h,
  live_ban-live_ban a b c.ban h,
)

abbrev Alike : Limits → ℕ → Option ℕ × Client → Option ℕ × Client → Type 0
Alike l now p q = (p.0 ≡ q.0) × (settle l now p.1 ≡ settle l now q.1)

judge-live_burst :
    (l : Limits) (now : ℕ) (hits : List ℕ) (burst ban : Option ℕ)
    → Alike l now
        (judge l now (record { hits = hits; burst = live_burst l.window now burst; ban = ban }))
        (judge l now (record { hits = hits; burst = burst; ban = ban }))
unfolding judge settle
judge-live_burst l now hits none ban = (refl, refl)
judge-live_burst l now hits (some used) ban = ground arith

count_hit-settle :
    (l : Limits) (now : ℕ) (c : Client)
    → Alike l now (count_hit l now (settle l now c)) (count_hit l now c)
unfolding count_hit settle
count_hit-settle l now c =
    rw (prune-prune l.window now now c.hits (le_refl now))
      (judge-live_burst l now (push l.peak now (prune l.window now c.hits)) c.burst none)

request-settle_self :
    (l : Limits) (now : ℕ) (c : Client)
    → Alike l now (request l now (settle l now c)) (request l now c)
unfolding request settle live_ban
request-settle_self l now c = elim (Option-cases c.ban) [
  | inl free ↦ ground (arith, count_hit-settle l now c)
  | inr (until, banned) ↦ ground (
    arith,
    count_hit-settle l now c,
    prune-prune l.window now now c.hits,
    live_burst-live_burst l.window now now c.burst,
  )
]

pub count_hit_lem :
    (l : Limits) (now : ℕ) (c : Client)
    → count_hit l now c
      ≡ judge l now (record {
        hits = push l.peak now (prune l.window now c.hits);
        burst = c.burst;
        ban = none;
      })
unfolding count_hit
count_hit_lem l now c = refl

pub count_hit-Alike :
    (l : Limits) (now : ℕ) (c d : Client)
    → settle l now c ≡ settle l now d
    → Alike l now (count_hit l now c) (count_hit l now d)
count_hit-Alike l now c d h =
    let p = count_hit-settle l now c in
    let q = count_hit-settle l now d in
    (
      sym p.0 ∙ ap (λ x. (count_hit l now x).0) h ∙ q.0,
      sym p.1 ∙ ap (λ x. settle l now (count_hit l now x).1) h ∙ q.1,
    )

module _ (l : Limits) (now : ℕ) (c : Client) where
  pub request_free : c.ban ≡ none → request l now c ≡ count_hit l now c
  unfolding request
  request_free e = rw (e, request)

  pub request_locked :
      (until : ℕ) → c.ban ≡ some until → now < until → request l now c ≡ (some (until - now), c)
  unfolding request
  request_locked until e h = rw (e, request) (rw (lt→ltb now until h) (ground arith))

  pub request_over :
      (until : ℕ) → c.ban ≡ some until → until ≤ now → request l now c ≡ count_hit l now c
  unfolding request
  request_over until e h = rw (e, request) (rw (le→ltb-false now until h))

-- Two clients with the same counters that matter are answered alike, and stay alike.
pub request-settle :
    (l : Limits) (now : ℕ) (c d : Client)
    → settle l now c ≡ settle l now d
    → ((request l now c).0 ≡ (request l now d).0)
      × (settle l now (request l now c).1 ≡ settle l now (request l now d).1)
request-settle l now c d h =
    let p = request-settle_self l now c in
    let q = request-settle_self l now d in
    (
      sym p.0 ∙ ap (λ x. (request l now x).0) h ∙ q.0,
      sym p.1 ∙ ap (λ x. settle l now (request l now x).1) h ∙ q.1,
    )

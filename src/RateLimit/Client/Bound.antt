-- ===== src/RateLimit/Client/Bound.antt =====
-- How many requests one client is served in any window.
use native.Mathlib.Nat.{zero-add}
use echocorn.Base.{
  leb-false, ◌-◌, if-both, leb→le, ltb→lt, ltb-false, ℕ, ◌+◌, ◌≤◌, ◌<◌, ◌≡◌, refl, true, Option,
  none, some, List, [], ◌∷◌, ◌++◌, arith, ltb, leb, ◌&&◌, if◌then◌else◌, length, Bool-cases,
  Option-cases, inl, inr,
}
use echocorn.RateLimit.{Limits}
use echocorn.RateLimit.Client.{Client, fresh, prune, push, judge, burst_free, count_hit, request}
use echocorn.RateLimit.Client.Settle.{count_hit_lem, request_free, request_locked, request_over}
use echocorn.RateLimit.Client.Log.{Log, client_log, InOrder, served_in}

module _ (window end : ℕ) where
  inside : ℕ → ℕ
  inside t = if leb t end && ltb end (t + window) then 1 else 0

  hits_in : List ℕ → ℕ
  hits_in [] = 0
  hits_in (t ∷ ts) = inside t + hits_in ts

  burst_in : Option ℕ → ℕ
  burst_in none = 0
  burst_in (some t) = inside t

module _ (window end : ℕ) where
  hits_in-le-length : (ts : List ℕ) → hits_in window end ts ≤ length ts
  unfolding hits_in inside
  hits_in-le-length [] = omega arith
  hits_in-le-length (t ∷ ts) = ground (arith, hits_in-le-length ts)

  hits_in-append :
      (ts : List ℕ) (t : ℕ)
      → hits_in window end (ts ++ (t ∷ [])) ≡ hits_in window end ts + inside window end t
  unfolding hits_in
  hits_in-append [] t = omega arith
  hits_in-append (x ∷ ts) t = omega (arith, hits_in-append ts t)

  -- what ages out before the window ends is not in it
  hits_in-prune :
      (t : ℕ) (ts : List ℕ)
      → t ≤ end
      → hits_in window end (prune window t ts) ≡ hits_in window end ts
  unfolding hits_in inside prune
  hits_in-prune t [] h = refl
  hits_in-prune t (x ∷ ts) h = ground (arith, hits_in-prune t ts h)

  hits_in-push :
      (peak t : ℕ) (ts : List ℕ)
      → (hits_in window end ts ≤ hits_in window end (push peak t ts))
        × (length (push peak t ts) ≤ peak
            → hits_in window end (push peak t ts) ≡ hits_in window end ts + inside window end t)
  unfolding push
  hits_in-push peak t ts = elim (Bool-cases (ltb (length ts) (peak + 1))) [
    | inl room ↦ rw room (omega (arith, hits_in-append ts t), λ _. hits_in-append ts t)
    | inr full ↦ rw full (omega arith, λ h. absurd (ground arith))
  ]

module _ (l : Limits) (end : ℕ) where
  inside-le : (t : ℕ) → inside l.window end t ≤ 1
  unfolding inside
  inside-le t = ground arith

  -- a burst that is free again was used before the window
  free-burst_in :
      (burst : Option ℕ) (t : ℕ)
      → t ≤ end
      → burst_free l.window t burst ≡ true
      → burst_in l.window end burst ≡ 0
  unfolding burst_free burst_in inside
  free-burst_in none t h free = refl
  free-burst_in (some u) t h free = ground arith

  -- `served` requests of the window are behind us, and the clock shows `now`
  record Behind (now served : ℕ) (c : Client) : Type 0 where
    counted : served ≤ hits_in l.window end c.hits
    steady : burst_in l.window end c.burst ≡ 0 → served ≤ l.requests
    bounded : served ≤ l.requests + 1
    recent : 0 < served → end < now + l.window

  served_now : ℕ → Option ℕ → ℕ
  served_now t none = inside l.window end t
  served_now t (some wait) = 0

  -- `c` holds the counted window, and `n` of the requests before this one are in it
  module _ (now t served n : ℕ) (c : Client) (limits : l.requests ≤ l.peak) (order : now ≤ t) where
    judge-Behind :
        t ≤ end
        → n ≤ hits_in l.window end c.hits
        → (length c.hits ≤ l.peak → hits_in l.window end c.hits ≡ n + inside l.window end t)
        → hits_in l.window end c.hits ≤ length c.hits
        → served ≤ n
        → (burst_in l.window end c.burst ≡ 0 → served ≤ l.requests)
        → served ≤ l.requests + 1
        → (0 < served → end < now + l.window)
        → Behind t (served + served_now t (judge l t c).0) (judge l t c).1
    unfolding judge served_now inside burst_in
    judge-Behind early more exact few counted steady bounded recent =
        elim (Bool-cases (leb (length c.hits) l.requests)) [
          | inl within ↦
              let small = leb→le (length c.hits) l.requests within in
              rw within (record {
                counted = ground (arith, exact (omega arith));
                steady = ground (arith, exact (omega arith));
                bounded = ground (arith, exact (omega arith));
                recent = ground arith;
              })
          | inr beyond ↦
              elim (Bool-cases (leb (length c.hits) l.peak && burst_free l.window t c.burst)) [
                | inl spike ↦
                    let room : length c.hits ≤ l.peak = ground arith in
                    let old = free-burst_in c.burst t early (ground arith) in
                    rw (beyond, spike)
                      (record {
                        counted = omega (arith, exact room);
                        steady = λ h. ground (arith, recent);
                        bounded = omega (arith, steady old, inside-le t);
                        recent = ground arith;
                      })
                | inr refused ↦
                    rw (beyond, refused)
                      (if-both {A = Option ℕ × Client}
                        (λ r. Behind t (served + served_now t r.0) r.1) (ltb 0 l.ban)
                        (record {
                          counted = omega arith;
                          steady = λ h. omega (arith, steady h);
                          bounded = omega arith;
                          recent = ground arith;
                        })
                        (record {
                          counted = omega arith;
                          steady = λ h. omega (arith, steady h);
                          bounded = omega arith;
                          recent = ground arith;
                        }))
              ]
        ]

  request-Behind :
      (now t served : ℕ) (c : Client)
      → l.requests ≤ l.peak
      → now ≤ t
      → t ≤ end
      → Behind now served c
      → Behind t (served + served_now t (request l t c).0) (request l t c).1
  unfolding served_now
  request-Behind now t served c limits order early b = elim (Option-cases c.ban) [
    | inl free ↦ rw (request_free l t c free) (counted_now (count_hit l t c) refl)
    | inr (until, banned) ↦ elim (Bool-cases (ltb t until)) [
      | inl locked ↦
          rw (request_locked l t c until banned (ltb→lt t until locked)) (locked_out (until - t))
      | inr over ↦
          rw (request_over l t c until banned (ltb-false t until over))
            (counted_now (count_hit l t c) refl)
    ]
  ]
    where
      hits : List ℕ
      hits = push l.peak t (prune l.window t c.hits)

      locked_out : (wait : ℕ) → Behind t (served + served_now t (some wait)) c
      locked_out wait = record {
        counted = omega (arith, b.counted);
        steady = λ h. omega (arith, b.steady h);
        bounded = omega (arith, b.bounded);
        recent = λ h. omega (arith, b.recent (omega arith));
      }

      counted_now :
          (r : Option ℕ × Client) → count_hit l t c ≡ r → Behind t (served + served_now t r.0) r.1
      counted_now r e = rw (← e) (
          rw (count_hit_lem l t c) (
            judge-Behind now t served (hits_in l.window end (prune l.window t c.hits))
              (record { hits = hits; burst = c.burst; ban = none }) limits order early
              (hits_in-push l.window end l.peak t (prune l.window t c.hits)).0
              (hits_in-push l.window end l.peak t (prune l.window t c.hits)).1
              (hits_in-le-length l.window end hits)
              (omega (arith, b.counted, hits_in-prune l.window end t c.hits early)) b.steady
              b.bounded b.recent))

  served_in-cons :
      (t : ℕ) (answer : Option ℕ) (log : Log)
      → served_in l.window end ((t, answer) ∷ log)
        ≡ served_now t answer + served_in l.window end log
  unfolding served_in served_now inside
  served_in-cons t none log = refl
  served_in-cons t (some wait) log = omega arith

  served_now-late : (t : ℕ) (answer : Option ℕ) → end < t → served_now t answer ≡ 0
  unfolding served_now inside
  served_now-late t none late = ground arith
  served_now-late t (some wait) late = refl

  served_after :
      (ts : List ℕ) (now : ℕ) (c : Client)
      → end < now
      → InOrder now ts
      → served_in l.window end (client_log l c ts) ≡ 0
  unfolding client_log
  served_after [] now c late order = unfold served_in in refl
  served_after (t ∷ ts) now c late order =
      let (answer, c') = request l t c in
      omega (
        arith,
        served_in-cons t answer (client_log l c' ts),
        served_now-late t answer (omega arith),
        served_after ts t c' (omega arith) order.1,
      )

  served_from :
      (ts : List ℕ) (now served : ℕ) (c : Client)
      → l.requests ≤ l.peak
      → InOrder now ts
      → Behind now served c
      → served + served_in l.window end (client_log l c ts) ≤ l.requests + 1
  unfolding client_log
  served_from [] now served c limits order b = unfold served_in in omega (arith, b.bounded)
  served_from (t ∷ ts) now served c limits order b =
      let (answer, c') = request l t c in
      let cons = served_in-cons t answer (client_log l c' ts) in
      elim (Bool-cases (leb t end)) [
        | inl early ↦
            let b' = request-Behind now t served c limits order.0 (leb→le t end early) b in
            omega
              (arith, cons, served_from ts t (served + served_now t answer) c' limits order.1 b')
        | inr late ↦
            let late' = leb-false t end late in
            omega (
              arith,
              cons,
              served_now-late t answer late',
              served_after ts t c' late' order.1,
              b.bounded,
            )
      ]

-- In no window, wherever it ends, is a client served more than one request above the steady
-- allowance, whatever its peak.
pub served_in-le :
    (l : Limits) (end : ℕ) (ts : List ℕ)
    → l.requests ≤ l.peak
    → InOrder 0 ts
    → served_in l.window end (client_log l fresh ts) ≤ l.requests + 1
served_in-le l end ts limits order =
    rw (← zero-add (served_in l.window end (client_log l fresh ts))) (
      served_from l end ts 0 0 fresh limits order (record {
        counted = omega arith;
        steady = λ h. omega arith;
        bounded = omega arith;
        recent = λ h. absurd (omega arith);
      }))

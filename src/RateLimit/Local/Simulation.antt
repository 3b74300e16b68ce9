-- ===== src/RateLimit/Local/Simulation.antt =====
-- `LocalCounters` answers every client as the window of that client alone does.
use echocorn.Base.{
  lt→ltb, ltb→lt, ltb-false, le→ltb-false, ◌-◌, Option-cases, ap, ◌∙◌, ℕ, ◌+◌, ◌≤◌, ◌<◌, ◌≡◌, refl,
  false, Option, none, some, List, arith, ltb, length, Bool-cases, inl, inr,
}
use echocorn.Base.Bytes.{Bytes, bytes_eq, bytes_eq_iff}
use echocorn.Dict.{
  lookup, lookup-remove, remove, Distinct-remove, lookup-insert, length-insert_known, insert,
}
use echocorn.RateLimit.Client.{count_hit, request}
use echocorn.RateLimit.Client.Settle.{
  settle, request_free, request_locked, request_over, count_hit-Alike,
}
use echocorn.RateLimit.Local.{
  LocalCounters, maybe_sweep, open_window, recorded, count_request, consume, count_request, consume,
}
use echocorn.RateLimit.Local.Valid.{IsValid}
use echocorn.RateLimit.Local.View.{
  view, Alike', sweep-view, open-view, decide-view_ne, sweep-limits, sweep-bans, open-limits,
  open-room, open-known, decide-limits, counted-count_hit,
}

module _ (now : ℕ) (k : Bytes) (s : LocalCounters) where
  abbrev opened : LocalCounters
  opened = open_window k (maybe_sweep now s)

  opened-limits : (opened.limits ≡ s.limits) × (opened.capacity ≡ s.capacity)
  opened-limits =
      let (l1, c1, n1) = sweep-limits now k s in
      let (l2, c2) = open-limits now k (maybe_sweep now s) in (l2 ∙ l1, c2 ∙ c1)

  module _ (v : IsValid now s) (room : length s.hits < s.capacity) where
    room-after : length (maybe_sweep now s).hits < (maybe_sweep now s).capacity
    room-after = omega (arith, sweep-limits now k s)

    opened-view : (j : Bytes) → settle s.limits now (view j opened) ≡ settle s.limits now (view j s)
    opened-view j =
        ap (settle s.limits now) (open-view now k (maybe_sweep now s) j room-after)
        ∙ sweep-view now j s v

    opened-bans : lookup k s.bans ≡ none → lookup k opened.bans ≡ none
    opened-bans free =
        ap (lookup k) (open-room now k (maybe_sweep now s) room-after).1 ∙ sweep-bans now k s free

    -- One request of `k` under no lockout: the same answer, and the same counters that matter.
    count_request-Alike :
        lookup k s.bans ≡ none
        → Alike' s.limits now k (count_request k now s) (count_hit s.limits now (view k s))
    unfolding count_request
    count_request-Alike free =
        let (answer, state) = counted-count_hit now k opened (opened-bans free) in
        let same = count_hit-Alike s.limits now (view k opened) (view k s) (opened-view k) in
        let l = opened-limits.0 in
        (
          answer ∙ ap (λ x. (count_hit x now (view k opened)).0) l ∙ same.0,
          ap (settle s.limits now) (state ∙ ap (λ x. (count_hit x now (view k opened)).1) l)
              ∙ same.1,
        )

    count_request-view_ne :
        (j : Bytes)
        → bytes_eq k j ≡ false
        → settle s.limits now (view j (count_request k now s).1) ≡ settle s.limits now (view j s)
    unfolding count_request
    count_request-view_ne j other =
        let hits = recorded k now opened in
        let s' : LocalCounters = record opened { hits = insert k hits opened.hits } in
        let e : view j s' ≡ view j opened = ground (arith, lookup-insert k j hits opened.hits) in
        ap (settle s.limits now) (decide-view_ne now k s' j hits other ∙ e) ∙ opened-view j

    count_request-length : length (count_request k now s).1.hits ≤ length s.hits + 1
    unfolding count_request
    count_request-length =
        let hits = recorded k now opened in
        let s' : LocalCounters = record opened { hits = insert k hits opened.hits } in
        omega (
          arith,
          ap (length {0} {A = Bytes × List ℕ}) (decide-limits now k s' hits).2,
          length-insert_known k hits opened.hits (open-known now k (maybe_sweep now s)),
          open-room now k (maybe_sweep now s) room-after,
          sweep-limits now k s,
        )

  count_request-limits :
      ((count_request k now s).1.limits ≡ s.limits)
      × ((count_request k now s).1.capacity ≡ s.capacity)
  unfolding count_request
  count_request-limits =
      let hits = recorded k now opened in
      let s' : LocalCounters = record opened { hits = insert k hits opened.hits } in
      let (l, c, _) = decide-limits now k s' hits in (l ∙ opened-limits.0, c ∙ opened-limits.1)

module _ (now : ℕ) (k : Bytes) (s : LocalCounters) where
  -- What is left of the counters once the client's lockout is over.
  abbrev unbanned : LocalCounters
  unbanned = record s { bans = remove k s.bans }

  unbanned-IsValid : IsValid now s → IsValid now unbanned
  unbanned-IsValid v = record {
    hits_distinct = v.hits_distinct;
    bursts_distinct = v.bursts_distinct;
    bans_distinct = Distinct-remove k s.bans v.bans_distinct;
    past = v.past;
  }

  unbanned-free : lookup k unbanned.bans ≡ none
  unbanned-free = ground (arith, lookup-remove k k s.bans, bytes_eq_iff k k)

  consume_free : lookup k s.bans ≡ none → consume k now s ≡ count_request k now s
  unfolding consume
  consume_free e = rw (e, consume)

  consume_locked :
      (until : ℕ)
      → lookup k s.bans ≡ some until
      → now < until
      → consume k now s ≡ (some (until - now), s)
  unfolding consume
  consume_locked until e h = rw (e, consume) (rw (lt→ltb now until h))

  consume_over :
      (until : ℕ)
      → lookup k s.bans ≡ some until
      → until ≤ now
      → consume k now s ≡ count_request k now unbanned
  unfolding consume
  consume_over until e h = rw (e, consume) (rw (le→ltb-false now until h))

  -- The three ways in which `consume` starts, for any statement about it.
  consume-cases {ℓ} :
      (P : Option ℕ × LocalCounters → Type ℓ)
      → (lookup k s.bans ≡ none → P (count_request k now s))
      → ((until : ℕ) → lookup k s.bans ≡ some until → now < until → P (some (until - now), s))
      → ((until : ℕ)
          → lookup k s.bans ≡ some until
          → until ≤ now
          → P (count_request k now unbanned))
      → P (consume k now s)
  consume-cases P free locked over = elim (Option-cases (lookup k s.bans)) [
    | inl e ↦ rw (consume_free e) (free e)
    | inr (until, e) ↦ elim (Bool-cases (ltb now until)) [
      | inl h ↦ let h' = ltb→lt now until h in rw (consume_locked until e h') (locked until e h')
      | inr h ↦ let h' = ltb-false now until h in rw (consume_over until e h') (over until e h')
    ]
  ]

module _ (now : ℕ) (k : Bytes) (s : LocalCounters) where
  pub consume-limits :
      ((consume k now s).1.limits ≡ s.limits) × ((consume k now s).1.capacity ≡ s.capacity)
  consume-limits =
      consume-cases now k s (λ r. (r.1.limits ≡ s.limits) × (r.1.capacity ≡ s.capacity))
        (λ _. count_request-limits now k s) (λ _ _ _. (refl, refl))
        (λ _ _ _. count_request-limits now k (unbanned now k s))

  module _ (v : IsValid now s) (room : length s.hits < s.capacity) where
    pub consume-length : length (consume k now s).1.hits ≤ length s.hits + 1
    consume-length =
        consume-cases now k s (λ r. length r.1.hits ≤ length s.hits + 1)
          (λ _. count_request-length now k s v room) (λ _ _ _. omega arith)
          (λ _ _ _. count_request-length now k (unbanned now k s) (unbanned-IsValid now k s v) room)

    pub consume-view_ne :
        (j : Bytes)
        → bytes_eq k j ≡ false
        → settle s.limits now (view j (consume k now s).1) ≡ settle s.limits now (view j s)
    consume-view_ne j other =
        consume-cases now k s
          (λ r. settle s.limits now (view j r.1) ≡ settle s.limits now (view j s))
          (λ _. count_request-view_ne now k s v room j other) (λ _ _ _. refl)
          (λ _ _ _.
            count_request-view_ne now k (unbanned now k s) (unbanned-IsValid now k s v) room j other
            ∙ ap (settle s.limits now) (ground (arith, lookup-remove k j s.bans)))

    pub consume-Alike : Alike' s.limits now k (consume k now s) (request s.limits now (view k s))
    consume-Alike =
        consume-cases now k s (λ r. Alike' s.limits now k r (request s.limits now (view k s)))
          (λ e. rw (request_free s.limits now (view k s) e) (count_request-Alike now k s v room e))
          (λ until e h. rw (request_locked s.limits now (view k s) until e h) (refl, refl))
          (λ until e h. rw (request_over s.limits now (view k s) until e h) (
            unfold count_hit in
            count_request-Alike now k (unbanned now k s) (unbanned-IsValid now k s v) room
              (unbanned-free now k s)))

-- ===== src/RateLimit/Local/Lockout.antt =====
-- A lockout is never forgotten early.
use echocorn.Base.{
  ℕ, ◌+◌, ◌<◌, ◌≡◌, false, none, some, List, [], ◌∷◌, arith, ltb, leb, inl, inr, Option-cases,
  Bool-cases, take, not,
}
use echocorn.Base.Bytes.{Bytes, bytes_eq, bytes_eq_iff}
use echocorn.Dict.{
  lookup, insert, remove, Distinct, lookup-insert, lookup-remove, lookup-keep, Distinct-remove,
}
use echocorn.RateLimit.Local.{
  LocalCounters, maybe_sweep, first_free, evict_oldest, open_window, recorded, decide,
  count_request, consume,
}

-- the client that is dropped is under no lockout
first_free-free :
    (bans : List (Bytes × ℕ)) (hits : List (Bytes × List ℕ)) (k : Bytes)
    → first_free bans hits ≡ some k
    → lookup k bans ≡ none
unfolding first_free
first_free-free bans [] k h = cc
first_free-free bans ((j, x) ∷ rest) k h = ground (arith, first_free-free bans rest k)

module _ (j : Bytes) (until now : ℕ) (later : now < until) where
  sweep-bans :
      (s : LocalCounters)
      → Distinct s.bans
      → lookup j s.bans ≡ some until
      → lookup j (maybe_sweep now s).bans ≡ some until
  unfolding maybe_sweep
  sweep-bans s d h = elim (Bool-cases (ltb now s.next_sweep)) [
    | inl early ↦ rw early h
    | inr due ↦ rw due (ground (arith, lookup-keep (λ until. not (leb until now)) j s.bans d))
  ]

  evict-bans :
      (s : LocalCounters)
      → lookup j s.bans ≡ some until
      → lookup j (evict_oldest s).bans ≡ some until
  unfolding evict_oldest
  evict-bans s h = elim (Option-cases (first_free s.bans (take 256 s.hits))) [
    | inl kept ↦ rw (kept, evict_oldest) h
    | inr (k, gone) ↦
        rw (gone, evict_oldest)
          (ground (
            arith,
            lookup-remove k j s.bans,
            bytes_eq_iff k j,
            first_free-free s.bans (take 256 s.hits) k gone,
          ))
  ]

  open-bans :
      (k : Bytes) (s : LocalCounters)
      → lookup j s.bans ≡ some until
      → lookup j (open_window k s).bans ≡ some until
  unfolding open_window
  open-bans k s h = ground (arith, evict-bans s h)

  decide-bans :
      (k : Bytes) (hits : List ℕ) (s : LocalCounters)
      → bytes_eq k j ≡ false
      → lookup j s.bans ≡ some until
      → lookup j (decide k now hits s).1.bans ≡ some until
  unfolding decide
  decide-bans k hits s other h = ground (arith, lookup-insert k j (now + s.ban) s.bans)

  count_request-bans :
      (k : Bytes) (s : LocalCounters)
      → bytes_eq k j ≡ false
      → Distinct s.bans
      → lookup j s.bans ≡ some until
      → lookup j (count_request k now s).1.bans ≡ some until
  unfolding count_request
  count_request-bans k s other d h =
      let s' = open_window k (maybe_sweep now s) in
      let hits = recorded k now s' in
      decide-bans k hits (record s' { hits = insert k hits s'.hits }) other
        (open-bans k (maybe_sweep now s) (sweep-bans s d h))

-- Whatever clients ask, and whatever is swept or evicted for them, a client whose lockout has not
-- ended stays locked out until the very same moment.
pub consume-lockout :
    (s : LocalCounters) (client other : Bytes) (now until : ℕ)
    → Distinct s.bans
    → lookup other s.bans ≡ some until
    → now < until
    → lookup other (consume client now s).1.bans ≡ some until
unfolding consume
consume-lockout s client other now until d h later = elim (Bool-cases (bytes_eq client other)) [
  | inl same ↦ ground (arith, bytes_eq_iff client other)
  | inr differs ↦ elim (Option-cases (lookup client s.bans)) [
    | inl free ↦ rw (free, consume) (count_request-bans other until now later client s differs d h)
    | inr (u, banned) ↦ elim (Bool-cases (ltb now u)) [
      | inl locked ↦ rw (banned, consume) (rw locked h)
      | inr over ↦
          rw (banned, consume)
            (rw over (
              count_request-bans other until now later client
                (record s { bans = remove client s.bans }) differs (Distinct-remove client s.bans d)
                (ground (arith, lookup-remove client other s.bans))))
    ]
  ]
]

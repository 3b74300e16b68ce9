-- ===== src/RateLimit/Local/Valid.antt =====
-- The invariant of `LocalCounters`.
use echocorn.Base.{
  ℕ, ◌≤◌, ◌+◌, ◌≡◌, refl, true, Option, none, some, List, [], ◌∷◌, ◌++◌, arith, ltb, leb, length,
  is_some, not, Option-cases, Bool-cases, inl, inr, get_or_else, ltb, ◌&&◌, take, if-both,
}
use echocorn.Base.Bytes.{Bytes, bytes_eq}
use echocorn.Dict.{
  lookup, insert, remove, Distinct, lookup-insert, lookup-remove, lookup-keep, Distinct-insert,
  Distinct-remove, Distinct-keep,
}
use echocorn.RateLimit.Client.{prune}
use echocorn.RateLimit.Local.{
  init, LocalCounters, aged_out, maybe_sweep, first_free, evict_oldest, open_window, popleft_while,
  recorded, burst_allowed, decide, count_request, consume,
}

-- Oldest first, none before `lo` and none after `hi`.
abbrev pub IsAscending : ℕ → ℕ → List ℕ → Type 0
IsAscending lo hi [] = Unit
IsAscending lo hi (h ∷ hs) = (lo ≤ h) × (h ≤ hi) × IsAscending h hi hs

-- No key twice, and every window in order and in the past.
pub record IsValid (now : ℕ) (s : LocalCounters) : Type 0 where
  pub hits_distinct : Distinct s.hits
  pub bursts_distinct : Distinct s.bursts
  pub bans_distinct : Distinct s.bans
  pub past : (k : Bytes) (hits : List ℕ) → lookup k s.hits ≡ some hits → IsAscending 0 now hits

IsAscending-mono : (lo a b : ℕ) (hs : List ℕ) → a ≤ b → IsAscending lo a hs → IsAscending lo b hs
IsAscending-mono lo a b [] h p = tt
IsAscending-mono lo a b (x ∷ hs) h p = (p.0, omega arith, IsAscending-mono x a b hs h p.2)

IsAscending-weaken :
    (lo lo' hi : ℕ) (hs : List ℕ) → lo' ≤ lo → IsAscending lo hi hs → IsAscending lo' hi hs
IsAscending-weaken lo lo' hi [] h p = tt
IsAscending-weaken lo lo' hi (x ∷ hs) h p = (omega arith, p.1, p.2)

IsAscending-popleft_while :
    (w now lo hi : ℕ) (hs : List ℕ)
    → IsAscending lo hi hs
    → IsAscending lo hi (popleft_while w now hs)
unfolding popleft_while
IsAscending-popleft_while w now lo hi [] p = tt
IsAscending-popleft_while w now lo hi (x ∷ hs) p = elim (Bool-cases (leb (x + w) now)) [
  | inl old ↦
      rw old (IsAscending-popleft_while w now lo hi hs (IsAscending-weaken x lo hi hs p.0 p.2))
  | inr recent ↦ rw recent p
]

IsAscending-append :
    (lo hi : ℕ) (hs : List ℕ) → lo ≤ hi → IsAscending lo hi hs → IsAscending lo hi (hs ++ (hi ∷ []))
IsAscending-append lo hi [] h p = omega arith
IsAscending-append lo hi (x ∷ hs) h p = (p.0, p.1, IsAscending-append x hi hs p.1 p.2)

-- in an ascending window the newest request decides for all of them
pub aged_out-prune :
    (w now lo hi : ℕ) (hs : List ℕ)
    → IsAscending lo hi hs
    → aged_out w now hs ≡ true
    → prune w now hs ≡ []
unfolding aged_out prune
aged_out-prune w now lo hi [] p h = refl
aged_out-prune w now lo hi (x ∷ []) p h = ground arith
aged_out-prune w now lo hi (x ∷ y ∷ hs) p h =
    ground (arith, aged_out-prune w now x hi (y ∷ hs) p.2 h)

pub IsValid-mono : (a b : ℕ) (s : LocalCounters) → a ≤ b → IsValid a s → IsValid b s
IsValid-mono a b s h v = record {
  hits_distinct = v.hits_distinct;
  bursts_distinct = v.bursts_distinct;
  bans_distinct = v.bans_distinct;
  past = λ k hits e. IsAscending-mono 0 a b hits h (v.past k hits e);
}

module _ (now : ℕ) where
  pub sweep-IsValid : (s : LocalCounters) → IsValid now s → IsValid now (maybe_sweep now s)
  unfolding maybe_sweep
  sweep-IsValid s v = elim (Bool-cases (ltb now s.next_sweep)) [
    | inl early ↦ rw early v
    | inr due ↦ rw due (record {
      hits_distinct = Distinct-keep _ s.hits v.hits_distinct;
      bursts_distinct = Distinct-keep _ s.bursts v.bursts_distinct;
      bans_distinct = Distinct-keep _ s.bans v.bans_distinct;
      past = λ k hits e. v.past k hits (
          ground
            (arith, lookup-keep (λ h. not (aged_out s.window now h)) k s.hits v.hits_distinct));
    })
  ]

  evict-IsValid : (s : LocalCounters) → IsValid now s → IsValid now (evict_oldest s)
  unfolding evict_oldest
  evict-IsValid s v = elim (Option-cases (first_free s.bans (take 256 s.hits))) [
    | inl kept ↦ rw (kept, evict_oldest) v
    | inr (j, gone) ↦
        rw (gone, evict_oldest)
          (record {
            hits_distinct = Distinct-remove j s.hits v.hits_distinct;
            bursts_distinct = Distinct-remove j s.bursts v.bursts_distinct;
            bans_distinct = Distinct-remove j s.bans v.bans_distinct;
            past = λ k hits e. v.past k hits (ground (arith, lookup-remove j k s.hits));
          })
  ]

  with_window-IsValid :
      (k : Bytes) (hits : List ℕ) (s : LocalCounters)
      → IsAscending 0 now hits
      → IsValid now s
      → IsValid now (record s { hits = insert k hits s.hits })
  with_window-IsValid k hits s p v = record {
    hits_distinct = Distinct-insert k hits s.hits v.hits_distinct;
    bursts_distinct = v.bursts_distinct;
    bans_distinct = v.bans_distinct;
    past = λ j h e. elim (Bool-cases (bytes_eq k j)) [
      | inl same ↦ let e' : hits ≡ h = ground (arith, lookup-insert k j hits s.hits) in rw (← e') p
      | inr other ↦ v.past j h (ground (arith, lookup-insert k j hits s.hits))
    ];
  }

  pub open-IsValid : (k : Bytes) (s : LocalCounters) → IsValid now s → IsValid now (open_window k s)
  unfolding open_window
  open-IsValid k s v = elim (Bool-cases (is_some (lookup k s.hits))) [
    | inl known ↦ rw known v
    | inr unknown ↦ elim (Bool-cases (leb s.capacity (length s.hits))) [
      | inl full ↦
          rw (unknown, full) (with_window-IsValid k [] (evict_oldest s) tt (evict-IsValid s v))
      | inr room ↦ rw (unknown, room) (with_window-IsValid k [] s tt v)
    ]
  ]

  recorded-IsAscending :
      (k : Bytes) (s : LocalCounters) → IsValid now s → IsAscending 0 now (recorded k now s)
  unfolding recorded
  recorded-IsAscending k s v =
      let window : IsAscending 0 now (get_or_else [] (lookup k s.hits)) =
        known_window (lookup k s.hits) (v.past k) in
      let recent =
        IsAscending-popleft_while s.window now 0 now (get_or_else [] (lookup k s.hits)) window in
      if-both (IsAscending 0 now) _ (IsAscending-append 0 now _ (omega arith) recent) recent
    where
      known_window :
          (o : Option (List ℕ))
          → ((hits : List ℕ) → o ≡ some hits → IsAscending 0 now hits)
          → IsAscending 0 now (get_or_else [] o)
      known_window none past = tt
      known_window (some hits) past = past hits refl

  abbrev AfterIsValid : Option ℕ × LocalCounters → Type 0
  AfterIsValid r = IsValid now r.1

  decide-IsValid :
      (k : Bytes) (hits : List ℕ) (s : LocalCounters)
      → IsValid now s
      → IsValid now (decide k now hits s).1
  unfolding decide
  decide-IsValid k hits s v = if-both AfterIsValid (leb (length hits) s.requests) v (
      if-both AfterIsValid
        (leb (length hits) s.peak && burst_allowed s.window now (lookup k s.bursts))
        (record {
          hits_distinct = v.hits_distinct;
          bursts_distinct = Distinct-insert k now s.bursts v.bursts_distinct;
          bans_distinct = v.bans_distinct;
          past = v.past;
        })
        (if-both AfterIsValid (ltb 0 s.ban)
          (record {
            hits_distinct = v.hits_distinct;
            bursts_distinct = v.bursts_distinct;
            bans_distinct = Distinct-insert k (now + s.ban) s.bans v.bans_distinct;
            past = v.past;
          })
          v))

  count_request-IsValid :
      (k : Bytes) (s : LocalCounters) → IsValid now s → IsValid now (count_request k now s).1
  unfolding count_request
  count_request-IsValid k s v =
      let s' = open_window k (maybe_sweep now s) in
      let v' : IsValid now s' = open-IsValid k (maybe_sweep now s) (sweep-IsValid s v) in
      let hits = recorded k now s' in
      decide-IsValid k hits (record s' { hits = insert k hits s'.hits })
        (with_window-IsValid k hits s' (recorded-IsAscending k s' v') v')

  -- Every request, served or refused, keeps the counters well formed.
  pub consume-IsValid :
      (k : Bytes) (s : LocalCounters) → IsValid now s → IsValid now (consume k now s).1
  unfolding consume
  consume-IsValid k s v = elim (Option-cases (lookup k s.bans)) [
    | inl free ↦ rw (free, consume) (count_request-IsValid k s v)
    | inr (u, banned) ↦
        rw (banned, consume)
          (if-both AfterIsValid (ltb now u) v (
            count_request-IsValid k (record s { bans = remove k s.bans })
              (record {
                hits_distinct = v.hits_distinct;
                bursts_distinct = v.bursts_distinct;
                bans_distinct = Distinct-remove k s.bans v.bans_distinct;
                past = v.past;
              })))
  ]

-- The counters start well formed.
pub init-IsValid :
    (now requests peak window ban : ℕ) (capacity : Option ℕ)
    → IsValid now (init requests peak window ban capacity)
unfolding init lookup
init-IsValid now requests peak window ban capacity = record {
  hits_distinct = tt;
  bursts_distinct = tt;
  bans_distinct = tt;
  past = λ k hits e. cc;
}

-- ===== src/RateLimit/Local/View.antt =====
-- What `LocalCounters` of echocorn/ratelimit.py holds about one client, and what a sweep, an
-- eviction and a new window leave of it.
use echocorn.Base.{
  true, Option-cases, take, is_some, lt→leb-false, ap, ◌∙◌, ℕ, ◌+◌, ◌≤◌, ◌<◌, ◌≡◌, refl, sym, false,
  Option, none, some, List, [], ◌∷◌, arith, ltb, leb, length, not, Bool-cases, inl, inr,
  get_or_else,
}
use echocorn.Base.Bytes.{Bytes, bytes_eq, bytes_eq_iff, bytes_eq_refl}
use echocorn.Dict.{
  lookup, lookup-insert, lookup-keep, lookup-keep_absent, length-insert-le, length-keep-le, insert,
  filter_option,
}
use echocorn.RateLimit.Client.{Client, prune, push, judge, count_hit}
use echocorn.RateLimit.{Limits}
use echocorn.RateLimit.Client.Settle.{settle, count_hit_lem, live_burst, live_ban}
use echocorn.RateLimit.Local.{
  LocalCounters, aged_out, maybe_sweep, first_free, evict_oldest, open_window, popleft_while,
  recorded, decide,
}
use echocorn.RateLimit.Local.Valid.{IsValid, aged_out-prune, IsAscending}

-- What the counters hold about one client.
abbrev pub view : Bytes → LocalCounters → Client
view k s = record {
  hits = get_or_else [] (lookup k s.hits);
  burst = lookup k s.bursts;
  ban = lookup k s.bans;
}

pub popleft_while-eq-prune : (w now : ℕ) (hs : List ℕ) → popleft_while w now hs ≡ prune w now hs
unfolding popleft_while prune
popleft_while-eq-prune w now [] = refl
popleft_while-eq-prune w now (x ∷ hs) = rw (popleft_while-eq-prune w now hs)

-- keeping what has not aged out loses nothing that matters
pub keep-hits :
    (w now : ℕ) (o : Option (List ℕ))
    → ((hits : List ℕ) → o ≡ some hits → IsAscending 0 now hits)
    → prune w now (get_or_else [] (filter_option (λ h. not (aged_out w now h)) o))
      ≡ prune w now (get_or_else [] o)
unfolding prune
keep-hits w now none past = refl
keep-hits w now (some hits) past = elim (Bool-cases (aged_out w now hits)) [
  | inl old ↦ rw old (sym (aged_out-prune w now 0 now hits (past hits refl) old))
  | inr recent ↦ rw recent
]

pub keep-burst :
    (w now : ℕ) (o : Option ℕ)
    → live_burst w now (filter_option (λ b. not (leb (b + w) now)) o) ≡ live_burst w now o
unfolding live_burst
keep-burst w now none = refl
keep-burst w now (some b) = ground arith

pub keep-ban :
    (now : ℕ) (o : Option ℕ)
    → live_ban now (filter_option (λ u. not (leb u now)) o) ≡ live_ban now o
unfolding live_ban
keep-ban now none = refl
keep-ban now (some u) = ground arith

abbrev pub Alike' : Limits → ℕ → Bytes → Option ℕ × LocalCounters → Option ℕ × Client → Type 0
Alike' l now k p q = (p.0 ≡ q.0) × (settle l now (view k p.1) ≡ settle l now q.1)

module _ (now : ℕ) (k : Bytes) (s : LocalCounters) where
  -- a sweep forgets nothing that matters, for any client
  pub sweep-view :
      IsValid now s
      → settle s.limits now (view k (maybe_sweep now s)) ≡ settle s.limits now (view k s)
  unfolding maybe_sweep settle
  sweep-view v = elim (Bool-cases (ltb now s.next_sweep)) [
    | inl early ↦ rw early
    | inr due ↦ rw (
      due,
      lookup-keep _ k s.hits v.hits_distinct,
      lookup-keep _ k s.bursts v.bursts_distinct,
      lookup-keep _ k s.bans v.bans_distinct,
      keep-hits s.window now (lookup k s.hits) (v.past k),
      keep-burst s.window now (lookup k s.bursts),
      keep-ban now (lookup k s.bans),
    )
  ]

  pub open-view : (j : Bytes) → length s.hits < s.capacity → view j (open_window k s) ≡ view j s
  unfolding open_window
  open-view j room = ground (arith, lookup-insert k j [] s.hits, bytes_eq_iff k j)

  pub recorded-eq-push : recorded k now s ≡ push s.peak now (prune s.window now (view k s).hits)
  unfolding recorded push
  recorded-eq-push = rw popleft_while-eq-prune

  pub decide-judge :
      (hits : List ℕ)
      → (view k s).hits ≡ hits
      → ((decide k now hits s).0 ≡ (judge s.limits now (view k s)).0)
        × (view k (decide k now hits s).1 ≡ (judge s.limits now (view k s)).1)
  unfolding decide judge
  decide-judge hits e = ground (
    arith,
    lookup-insert k k now s.bursts,
    lookup-insert k k (now + s.ban) s.bans,
    bytes_eq_iff k k,
  )

  pub decide-view_ne :
      (j : Bytes) (hits : List ℕ) → bytes_eq k j ≡ false → view j (decide k now hits s).1 ≡ view j s
  unfolding decide
  decide-view_ne j hits other =
      ground (arith, lookup-insert k j now s.bursts, lookup-insert k j (now + s.ban) s.bans)

module _ (now : ℕ) (k : Bytes) (s : LocalCounters) where
  pub sweep-limits :
      ((maybe_sweep now s).limits ≡ s.limits)
      × ((maybe_sweep now s).capacity ≡ s.capacity)
      × (length (maybe_sweep now s).hits ≤ length s.hits)
  unfolding maybe_sweep
  sweep-limits = ground (arith, length-keep-le (λ h. not (aged_out s.window now h)) s.hits)

  pub sweep-bans : lookup k s.bans ≡ none → lookup k (maybe_sweep now s).bans ≡ none
  unfolding maybe_sweep
  sweep-bans free = ground (arith, lookup-keep_absent (λ until. not (leb until now)) k s.bans free)

  pub evict-limits : ((evict_oldest s).limits ≡ s.limits) × ((evict_oldest s).capacity ≡ s.capacity)
  unfolding evict_oldest
  evict-limits = elim (Option-cases (first_free s.bans (take 256 s.hits))) [
    | inl kept ↦ rw (kept, evict_oldest) (refl, refl)
    | inr (j, gone) ↦ rw (gone, evict_oldest) (refl, refl)
  ]

  pub open-limits :
      ((open_window k s).limits ≡ s.limits) × ((open_window k s).capacity ≡ s.capacity)
  unfolding open_window
  open-limits = ground (arith, evict-limits)

  pub open-room :
      length s.hits < s.capacity
      → (length (open_window k s).hits ≤ length s.hits + 1) × ((open_window k s).bans ≡ s.bans)
  unfolding open_window
  open-room room = elim (Bool-cases (is_some (lookup k s.hits))) [
    | inl known ↦ rw known (omega arith, refl)
    | inr unknown ↦
        rw (unknown, lt→leb-false s.capacity (length s.hits) room)
          (omega (arith, length-insert-le k [] s.hits), refl)
  ]

  pub open-known : is_some (lookup k (open_window k s).hits) ≡ true
  unfolding open_window
  open-known = elim (Bool-cases (is_some (lookup k s.hits))) [
    | inl known ↦ rw known known
    | inr unknown ↦ rw unknown (rw (lookup-insert, bytes_eq_refl k))
  ]

  pub decide-limits :
      (hits : List ℕ)
      → ((decide k now hits s).1.limits ≡ s.limits)
        × ((decide k now hits s).1.capacity ≡ s.capacity)
        × ((decide k now hits s).1.hits ≡ s.hits)
  unfolding decide
  decide-limits hits = ground arith

  -- the request is counted and judged as the specification counts and judges it
  pub counted-count_hit :
      lookup k s.bans ≡ none
      → let hits = recorded k now s in
        let decided = decide k now hits (record s { hits = insert k hits s.hits }) in
        (decided.0 ≡ (count_hit s.limits now (view k s)).0)
        × (view k decided.1 ≡ (count_hit s.limits now (view k s)).1)
  counted-count_hit free =
      let hits = recorded k now s in
      let s' : LocalCounters = record s { hits = insert k hits s.hits } in
      let found : lookup k s'.hits ≡ some hits =
        ground (arith, lookup-insert k k hits s.hits, bytes_eq_iff k k) in
      let (answer, state) = decide-judge now k s' hits (ground arith) in
      let same : view k s' ≡ record {
        hits = push s.peak now (prune s.window now (view k s).hits);
        burst = (view k s).burst;
        ban = none;
      } =
        cc (found, free, recorded-eq-push now k s) in
      let e = ap (judge s.limits now) same ∙ sym (count_hit_lem s.limits now (view k s)) in
      (
        answer ∙ ap (λ (r : Option ℕ × Client). r.0) e,
        state ∙ ap (λ (r : Option ℕ × Client). r.1) e,
      )

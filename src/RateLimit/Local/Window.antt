-- ===== src/RateLimit/Local/Window.antt =====
-- One window that `LocalCounters` of echocorn/ratelimit.py keeps: how long it is, and how old.
use echocorn.Base.{
  ℕ, ◌+◌, ◌≤◌, ◌<◌, ◌≡◌, refl, Option, none, some, List, [], ◌∷◌, ◌++◌, arith, ltb, leb, length,
  is_some, not, Option-cases, Bool-cases, inl, inr, get_or_else, take, leb-false, ltb→lt, All,
  length-append,
}
use echocorn.Base.Bytes.{Bytes, bytes_eq}
use echocorn.Dict.{lookup, insert, lookup-insert, lookup-remove, lookup-keep}
use echocorn.RateLimit.Local.{
  LocalCounters, aged_out, maybe_sweep, first_free, evict_oldest, open_window, popleft_while,
  recorded,
}
use echocorn.RateLimit.Local.Valid.{IsValid, IsAscending}

-- No window holds more requests than decide anything.
abbrev pub IsShort : LocalCounters → Type 0
IsShort s = (k : Bytes) (hits : List ℕ) → lookup k s.hits ≡ some hits → length hits ≤ s.peak + 1

length-popleft_while : (w now : ℕ) (hs : List ℕ) → length (popleft_while w now hs) ≤ length hs
unfolding popleft_while
length-popleft_while w now [] = omega arith
length-popleft_while w now (h ∷ hs) = ground (arith, length-popleft_while w now hs)

pub sweep-IsShort :
    (now : ℕ) (s : LocalCounters) → IsValid now s → IsShort s → IsShort (maybe_sweep now s)
unfolding maybe_sweep
sweep-IsShort now s v short = elim (Bool-cases (ltb now s.next_sweep)) [
  | inl early ↦ rw early short
  | inr due ↦ rw due (λ k hits e.
      short k hits
        (ground (arith, lookup-keep (λ h. not (aged_out s.window now h)) k s.hits v.hits_distinct)))
]

evict-IsShort : (s : LocalCounters) → IsShort s → IsShort (evict_oldest s)
unfolding evict_oldest
evict-IsShort s short = elim (Option-cases (first_free s.bans (take 256 s.hits))) [
  | inl kept ↦ rw (kept, evict_oldest) short
  | inr (j, gone) ↦
      rw (gone, evict_oldest) (λ k hits e. short k hits (ground (arith, lookup-remove j k s.hits)))
]

pub with_window-IsShort :
    (k : Bytes) (hits : List ℕ) (s : LocalCounters)
    → length hits ≤ s.peak + 1
    → IsShort s
    → IsShort (record s { hits = insert k hits s.hits })
with_window-IsShort k hits s fits short j h e = elim (Bool-cases (bytes_eq k j)) [
  | inl same ↦ let e' : hits ≡ h = ground (arith, lookup-insert k j hits s.hits) in rw (← e') fits
  | inr other ↦ short j h (ground (arith, lookup-insert k j hits s.hits))
]

pub open-IsShort : (k : Bytes) (s : LocalCounters) → IsShort s → IsShort (open_window k s)
unfolding open_window
open-IsShort k s short = elim (Bool-cases (is_some (lookup k s.hits))) [
  | inl known ↦ rw known short
  | inr unknown ↦ elim (Bool-cases (leb s.capacity (length s.hits))) [
    | inl full ↦
        rw (unknown, full)
          (with_window-IsShort k [] (evict_oldest s) (omega arith) (evict-IsShort s short))
    | inr room ↦ rw (unknown, room) (with_window-IsShort k [] s (omega arith) short)
  ]
]

-- the requests that a window holds count in the one that ends now
abbrev pub AllRecent : ℕ → ℕ → List ℕ → Type 0
AllRecent window now hits = All (λ h. now < h + window) hits

ascending-AllRecent :
    (w now x hi : ℕ) (hs : List ℕ) → now < x + w → IsAscending x hi hs → AllRecent w now hs
ascending-AllRecent w now x hi [] recent p = tt
ascending-AllRecent w now x hi (h ∷ hs) recent p =
    (omega (arith, p.0), ascending-AllRecent w now h hi hs (omega (arith, p.0)) p.2)

popleft_while-AllRecent :
    (w now lo hi : ℕ) (hs : List ℕ)
    → IsAscending lo hi hs
    → AllRecent w now (popleft_while w now hs)
unfolding popleft_while
popleft_while-AllRecent w now lo hi [] p = tt
popleft_while-AllRecent w now lo hi (h ∷ hs) p = elim (Bool-cases (leb (h + w) now)) [
  | inl old ↦ rw old (popleft_while-AllRecent w now h hi hs p.2)
  | inr recent ↦ rw recent (
    leb-false (h + w) now recent,
    ascending-AllRecent w now h hi hs (leb-false (h + w) now recent) p.2,
  )
]

AllRecent-append :
    (w now : ℕ) (hs : List ℕ) → 0 < w → AllRecent w now hs → AllRecent w now (hs ++ (now ∷ []))
AllRecent-append w now [] pos h = (omega arith, tt)
AllRecent-append w now (x ∷ hs) pos h = (h.0, AllRecent-append w now hs pos h.1)

pub recorded-fits :
    (k : Bytes) (now : ℕ) (s : LocalCounters)
    → IsValid now s
    → IsShort s
    → 0 < s.window
    → (length (recorded k now s) ≤ s.peak + 1) × AllRecent s.window now (recorded k now s)
unfolding recorded
recorded-fits k now s v short pos =
    let hits = get_or_else [] (lookup k s.hits) in
    let recent = popleft_while s.window now hits in
    let (ascending, few) = known_window (lookup k s.hits) (v.past k) (short k) in
    let still : length recent ≤ s.peak + 1 =
      omega (arith, length-popleft_while s.window now hits) in
    let young = popleft_while-AllRecent s.window now 0 now hits ascending in
    elim (Bool-cases (ltb (length recent) (s.peak + 1))) [
      | inl room ↦ rw room (
        omega (arith, ltb→lt _ _ room, length-append recent (now ∷ [])),
        AllRecent-append s.window now recent pos young,
      )
      | inr full ↦ rw full (still, young)
    ]
  where
    known_window :
        (o : Option (List ℕ))
        → ((hits : List ℕ) → o ≡ some hits → IsAscending 0 now hits)
        → ((hits : List ℕ) → o ≡ some hits → length hits ≤ s.peak + 1)
        → IsAscending 0 now (get_or_else [] o) × (length (get_or_else [] o) ≤ s.peak + 1)
    known_window none past short = (tt, omega arith)
    known_window (some hits) past short = (past hits refl, short hits refl)

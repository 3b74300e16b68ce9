-- ===== src/RateLimit/Shared/Ring.antt =====
-- The ring of timestamps as the list of requests that it stands for.
use mathlib.Core.Path.{subst, ap₂}
use native.Mathlib.Nat.{add-zero, mod-add-mod, mod-eq_of_lt, mod-eq-sub-mod}
use echocorn.Base.{
  ℕ, zero, suc, ◌+◌, ◌-◌, ◌%◌, ◌≤◌, ◌<◌, ◌≡◌, ◌≢◌, refl, ap, ◌∙◌, List, [], ◌∷◌, ◌++◌, arith, ltb,
  length, set, get_or, if◌then◌else◌, get_or-set_self, get_or-set_ne, Bool-cases, inl, inr, ltb→lt,
  ltb-false,
}
use echocorn.RateLimit.Client.{prune}
use echocorn.RateLimit.Shared.{drop_aged, read_timestamp}

-- The `count` timestamps from `oldest` on, in a ring of `size`.
unfoldable pub read_ring : ℕ → List ℕ → ℕ → ℕ → List ℕ
read_ring size ring zero oldest = []
read_ring size ring (suc n) oldest =
    read_timestamp ring oldest ∷ read_ring size ring n ((oldest + 1) % size)

pub length-read_ring :
    (size : ℕ) (ring : List ℕ) (n oldest : ℕ) → length (read_ring size ring n oldest) ≡ n
unfolding read_ring
length-read_ring size ring zero oldest = refl
length-read_ring size ring (suc n) oldest =
    ap suc (length-read_ring size ring n ((oldest + 1) % size))

-- one turn of the ring
next_index : (size o : ℕ) → o < size → (o + 1) % size ≡ (if ltb (o + 1) size then o + 1 else 0)
next_index size o h = grind arith

next_index-lt : (size o : ℕ) → o < size → (o + 1) % size < size
next_index-lt size o h = grind arith

index_shift : (size o n : ℕ) → o < size → ((o + 1) % size + n) % size ≡ (o + suc n) % size
index_shift size o n h = mod-add-mod (o + 1) size n ∙ ap (λ i. i % size) (omega arith)

index_wrap :
    (size o n : ℕ)
    → o < size
    → n < size
    → (o + n) % size ≡ (if ltb (o + n) size then o + n else o + n - size)
index_wrap size o n ho hn = elim (Bool-cases (ltb (o + n) size)) [
  | inl h ↦ rw h (mod-eq_of_lt (ltb→lt (o + n) size h))
  | inr h ↦ rw h (
      mod-eq-sub-mod (ltb-false (o + n) size h)
      ∙ mod-eq_of_lt (omega (arith, ltb-false (o + n) size h)))
]

index_apart : (size o n : ℕ) → o < size → 0 < n → n < size → (o + n) % size ≢ o
index_apart size o n ho hn h = ground (arith, index_wrap size o n ho h)

-- a write outside the part that is read does not show
read_ring-set_outside :
    (size : ℕ) (ring : List ℕ) (n gap oldest v : ℕ)
    → oldest < size
    → n + gap < size
    → read_ring size (set ring ((oldest + (n + gap)) % size) v) n oldest
      ≡ read_ring size ring n oldest
unfolding read_ring
read_ring-set_outside size ring zero gap oldest v ho h = refl
read_ring-set_outside size ring (suc n) gap oldest v ho h =
    let i = (oldest + (suc n + gap)) % size in
    let shift : ((oldest + 1) % size + (n + gap)) % size ≡ i =
      index_shift size oldest (n + gap) ho ∙ ap (λ j. (oldest + j) % size) (omega arith) in
    let rest =
      read_ring-set_outside size ring n gap ((oldest + 1) % size) v (next_index-lt size oldest ho)
        (omega arith) in
    let head =
      get_or-set_ne ring i oldest v 0 (index_apart size oldest (suc n + gap) ho (omega arith) h) in
    let tail : read_ring size (set ring i v) n ((oldest + 1) % size)
        ≡ read_ring size ring n ((oldest + 1) % size) =
      subst
        (λ j.
          read_ring size (set ring j v) n ((oldest + 1) % size)
          ≡ read_ring size ring n ((oldest + 1) % size))
        shift rest in
    ap₂ ◌∷◌ head tail

-- A timestamp written behind the newest one is read at the end.
pub read_ring-append :
    (size : ℕ) (ring : List ℕ) (n oldest v : ℕ)
    → length ring ≡ size
    → oldest < size
    → n < size
    → read_ring size (set ring ((oldest + n) % size) v) (suc n) oldest
      ≡ read_ring size ring n oldest ++ (v ∷ [])
unfolding read_ring
read_ring-append size ring zero oldest v hl ho hn =
    let i : (oldest + 0) % size ≡ oldest = ap (λ j. j % size) (add-zero oldest) ∙ mod-eq_of_lt ho in
    ap (λ x. x ∷ [])
      (ap (λ j. get_or (set ring j v) oldest 0) i ∙ get_or-set_self ring oldest v 0 (omega arith))
read_ring-append size ring (suc n) oldest v hl ho hn =
    let i = (oldest + suc n) % size in
    let next = (oldest + 1) % size in
    let head =
      get_or-set_ne ring i oldest v 0 (index_apart size oldest (suc n) ho (omega arith) hn) in
    let rest =
      read_ring-append size ring n next v hl (next_index-lt size oldest ho) (omega arith) in
    let tail : read_ring size (set ring i v) (suc n) next ≡ read_ring size ring n next ++ (v ∷ []) =
      subst
        (λ j. read_ring size (set ring j v) (suc n) next ≡ read_ring size ring n next ++ (v ∷ []))
        (index_shift size oldest n ho) rest in
    ap₂ ◌∷◌ head tail

-- Dropping what aged out from the front of the ring is pruning the list.
pub drop_aged-prune :
    (size window now : ℕ) (ring : List ℕ) (n oldest : ℕ)
    → read_ring size ring
        (drop_aged size window now ring n oldest).0
        (drop_aged size window now ring n oldest).1
      ≡ prune window now (read_ring size ring n oldest)
unfolding read_ring drop_aged prune
drop_aged-prune size window now ring zero oldest = refl
drop_aged-prune size window now ring (suc n) oldest =
    ground (arith, drop_aged-prune size window now ring n ((oldest + 1) % size))

pub drop_aged_bounds :
    (size window now : ℕ) (ring : List ℕ) (n oldest : ℕ)
    → oldest < size
    → ((drop_aged size window now ring n oldest).0 ≤ n)
      × ((drop_aged size window now ring n oldest).1 < size)
unfolding drop_aged
drop_aged_bounds size window now ring zero oldest h = omega arith
drop_aged_bounds size window now ring (suc n) oldest h = ground (
  arith,
  drop_aged_bounds size window now ring n ((oldest + 1) % size) (next_index-lt size oldest h),
)

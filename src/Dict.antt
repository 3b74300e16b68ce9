-- ===== src/Dict.antt =====
-- Python's dict with text keys, in insertion order: a new key goes to the end, an assignment to a
-- known key keeps its place.
use echocorn.Base.{
  true, is_some, ◌≤◌, suc, ◌≡◌, refl, inl, inr, Bool, Option, none, some, List, [], ◌∷◌, arith,
  if◌then◌else◌, length, Bool-cases,
}
use echocorn.Base.Bytes.{Bytes, bytes_eq, bytes_eq_iff}

module _ {ℓ} {V : Type ℓ} where
  unfoldable pub lookup : Bytes → List (Bytes × V) → Option V
  lookup k [] = none
  lookup k ((j, v) ∷ m) = if bytes_eq j k then some v else lookup k m

  unfoldable pub insert : Bytes → V → List (Bytes × V) → List (Bytes × V)
  insert k v [] = (k, v) ∷ []
  insert k v ((j, w) ∷ m) = if bytes_eq j k then (j, v) ∷ m else (j, w) ∷ insert k v m

  unfoldable pub remove : Bytes → List (Bytes × V) → List (Bytes × V)
  remove k [] = []
  remove k ((j, v) ∷ m) = let rest = remove k m in if bytes_eq j k then rest else (j, v) ∷ rest

  -- the entries whose value passes the test
  unfoldable pub keep : (V → Bool) → List (Bytes × V) → List (Bytes × V)
  keep p [] = []
  keep p ((j, v) ∷ m) = let rest = keep p m in if p v then (j, v) ∷ rest else rest

  -- no key twice
  abbrev pub Distinct : List (Bytes × V) → Type ℓ
  Distinct [] = Unit
  Distinct ((j, v) ∷ m) = (lookup j m ≡ none) × Distinct m

  abbrev pub filter_option : (V → Bool) → Option V → Option V
  filter_option p none = none
  filter_option p (some v) = if p v then some v else none

  pub lookup-insert :
      (k j : Bytes) (v : V) (m : List (Bytes × V))
      → lookup j (insert k v m) ≡ (if bytes_eq k j then some v else lookup j m)
  unfolding lookup insert
  lookup-insert k j v [] = refl
  lookup-insert k j v ((i, w) ∷ m) =
      ground (arith, bytes_eq_iff k j, bytes_eq_iff i k, bytes_eq_iff i j, lookup-insert k j v m)

  pub lookup-remove :
      (k j : Bytes) (m : List (Bytes × V))
      → lookup j (remove k m) ≡ (if bytes_eq k j then none else lookup j m)
  unfolding lookup remove
  lookup-remove k j [] = ground arith
  lookup-remove k j ((i, v) ∷ m) =
      ground (arith, lookup-remove k j m, bytes_eq_iff i k, bytes_eq_iff i j, bytes_eq_iff k j)

  pub lookup-keep_absent :
      (p : V → Bool) (j : Bytes) (m : List (Bytes × V))
      → lookup j m ≡ none
      → lookup j (keep p m) ≡ none
  unfolding lookup keep
  lookup-keep_absent p j [] h = refl
  lookup-keep_absent p j ((i, v) ∷ m) h = ground (arith, lookup-keep_absent p j m)

  pub lookup-keep :
      (p : V → Bool) (j : Bytes) (m : List (Bytes × V))
      → Distinct m
      → lookup j (keep p m) ≡ filter_option p (lookup j m)
  unfolding lookup keep
  lookup-keep p j [] h = refl
  lookup-keep p j ((i, v) ∷ m) h =
      ground (arith, lookup-keep p j m h.1, lookup-keep_absent p j m, bytes_eq_iff i j)

  pub Distinct-insert :
      (k : Bytes) (v : V) (m : List (Bytes × V)) → Distinct m → Distinct (insert k v m)
  unfolding insert lookup
  Distinct-insert k v [] h = (refl, tt)
  Distinct-insert k v ((i, w) ∷ m) h = elim (Bool-cases (bytes_eq i k)) [
    | inl same ↦ rw same (h.0, h.1)
    | inr other ↦ rw other (
      ground (arith, lookup-insert k i v m, bytes_eq_iff k i, bytes_eq_iff i k),
      Distinct-insert k v m h.1,
    )
  ]

  pub Distinct-remove : (k : Bytes) (m : List (Bytes × V)) → Distinct m → Distinct (remove k m)
  unfolding remove
  Distinct-remove k [] h = tt
  Distinct-remove k ((i, w) ∷ m) h = elim (Bool-cases (bytes_eq i k)) [
    | inl same ↦ rw same (Distinct-remove k m h.1)
    | inr other ↦ rw other (ground (arith, lookup-remove k i m, h.0), Distinct-remove k m h.1)
  ]

  pub Distinct-keep : (p : V → Bool) (m : List (Bytes × V)) → Distinct m → Distinct (keep p m)
  unfolding keep
  Distinct-keep p [] h = tt
  Distinct-keep p ((i, w) ∷ m) h = elim (Bool-cases (p w)) [
    | inl kept ↦ rw kept (lookup-keep_absent p i m h.0, Distinct-keep p m h.1)
    | inr gone ↦ rw gone (Distinct-keep p m h.1)
  ]

  pub length-insert-le :
      (k : Bytes) (v : V) (m : List (Bytes × V)) → length (insert k v m) ≤ suc (length m)
  unfolding insert
  length-insert-le k v [] = omega arith
  length-insert-le k v ((i, w) ∷ m) = ground (arith, length-insert-le k v m)

  pub length-keep-le : (p : V → Bool) (m : List (Bytes × V)) → length (keep p m) ≤ length m
  unfolding keep
  length-keep-le p [] = omega arith
  length-keep-le p ((i, w) ∷ m) = ground (arith, length-keep-le p m)

  pub length-insert_known :
      (k : Bytes) (v : V) (m : List (Bytes × V))
      → is_some (lookup k m) ≡ true
      → length (insert k v m) ≡ length m
  unfolding insert lookup
  length-insert_known k v [] h = cc
  length-insert_known k v ((i, w) ∷ m) h = ground (arith, length-insert_known k v m)

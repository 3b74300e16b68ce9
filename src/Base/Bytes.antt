-- ===== src/Base/Bytes.antt =====
-- Python's `bytes` (and the text that the code treats like it) as lists of code points, with the
-- methods that the code calls: ==, lower, strip, startswith, find, split, partition, count.
use Prim.Native.Char.{code}
use Prim.Native.String.{String}
use mathlib.Core.Path.{◌≡◌, refl}
use mathlib.Core.Logic.{◌↔◌}
use mathlib.Core.Bool.{Bool, true, false, ◌&&◌, ◌||◌}
use mathlib.Core.Option.{Option, none, some}
use mathlib.Core.List.{List, [], ◌∷◌, map, reverse}
use Prim.Native.Nat.{ℕ, suc, ◌+◌}
use native.Mathlib.Omega.{arith}
use echocorn.Base.Tests.{◌==◌, leb, if◌then◌else◌}
use echocorn.Base.Lists.{any}

abbrev pub Bytes : Type 0
Bytes = List ℕ

-- The code points of a text literal. `String` has its own `[]` and `∷`.
abbrev pub codes : String → Bytes
codes String.[] = []
codes (String.◌∷◌ c s) = code c ∷ codes s

unfoldable pub bytes_eq : Bytes → Bytes → Bool
bytes_eq [] [] = true
bytes_eq [] (y ∷ ys) = false
bytes_eq (x ∷ xs) [] = false
bytes_eq (x ∷ xs) (y ∷ ys) = (x == y) && bytes_eq xs ys

bytes_eq_sound : (a b : Bytes) → bytes_eq a b ≡ true → a ≡ b
unfolding bytes_eq
bytes_eq_sound [] [] h = refl
bytes_eq_sound [] (y ∷ ys) h = cc
bytes_eq_sound (x ∷ xs) [] h = cc
bytes_eq_sound (x ∷ xs) (y ∷ ys) h = ground (arith, bytes_eq_sound xs ys)

pub bytes_eq_refl : (a : Bytes) → bytes_eq a a ≡ true
unfolding bytes_eq
bytes_eq_refl [] = refl
bytes_eq_refl (x ∷ xs) = ground (arith, bytes_eq_refl xs)

pub bytes_eq_iff : (a b : Bytes) → (bytes_eq a b ≡ true) ↔ (a ≡ b)
bytes_eq_iff a b = (bytes_eq_sound a b, λ e. rw e (bytes_eq_refl b))

-- `x in (a, b, …)`
abbrev pub mem : Bytes → List Bytes → Bool
mem x = any (λ y. bytes_eq x y)

-- ASCII case folding, which is what `bytes.lower` does.
abbrev pub lower_byte : ℕ → ℕ
lower_byte c = if leb b'A' c && leb c b'Z' then c + 32 else c

unfoldable pub lower : Bytes → Bytes
lower = map lower_byte

-- The whitespace that `bytes.strip()` removes: space, \t, \n, \r, \v, \f.
abbrev pub is_space : ℕ → Bool
is_space c = (c == 32) || (leb 9 c && leb c 13)

unfoldable pub lstrip_by : (ℕ → Bool) → Bytes → Bytes
lstrip_by p [] = []
lstrip_by p (c ∷ s) = let rest = lstrip_by p s in if p c then rest else c ∷ s

unfoldable pub rstrip_by : (ℕ → Bool) → Bytes → Bytes
unfolding lstrip_by
rstrip_by p s = reverse (lstrip_by p (reverse s))

unfoldable pub strip : Bytes → Bytes
unfolding rstrip_by
strip s = rstrip_by is_space (lstrip_by is_space s)

-- `value.strip(b" \t")`
unfoldable pub strip_blanks : Bytes → Bytes
unfolding rstrip_by
strip_blanks s = rstrip_by (λ c. (c == 32) || (c == 9)) (lstrip_by (λ c. (c == 32) || (c == 9)) s)

unfoldable pub starts_with : Bytes → Bytes → Bool
starts_with s [] = true
starts_with [] (p ∷ ps) = false
starts_with (c ∷ s) (p ∷ ps) = (c == p) && starts_with s ps

unfoldable pub ends_with : Bytes → Bytes → Bool
unfolding starts_with
ends_with s p = starts_with (reverse s) (reverse p)

-- `s.find(p)`: the first index at which `p` stands; `none` is Python's -1.
unfoldable pub find : Bytes → Bytes → Option ℕ
unfolding starts_with
find [] p = if starts_with [] p then some 0 else none
find (c ∷ s) p =
    let later = find s p in
    if starts_with (c ∷ s) p then some 0 else elim later [ none ↦ none | some i ↦ some (suc i) ]

-- `s.partition(sep)` for a separator of one byte: before, whether it was found, after.
unfoldable pub partition : ℕ → Bytes → Bytes × Bool × Bytes
partition sep [] = ([], false, [])
partition sep (c ∷ s) =
    let (before, found, after) = partition sep s in
    if c == sep then ([], true, s) else (c ∷ before, found, after)

abbrev split_push : ℕ → List Bytes → List Bytes
split_push c [] = (c ∷ []) ∷ []
split_push c (piece ∷ pieces) = (c ∷ piece) ∷ pieces

-- `s.split(sep)` for a separator of one byte; never empty.
unfoldable pub split : ℕ → Bytes → List Bytes
split sep [] = [] ∷ []
split sep (c ∷ s) = let rest = split sep s in if c == sep then [] ∷ rest else split_push c rest

unfoldable pub count_byte : ℕ → Bytes → ℕ
count_byte x [] = 0
count_byte x (c ∷ s) = (if c == x then 1 else 0) + count_byte x s

abbrev pub is_digit : ℕ → Bool
is_digit c = leb b'0' c && leb c b'9'

abbrev pub is_alpha : ℕ → Bool
is_alpha c = (leb b'a' c && leb c b'z') || (leb b'A' c && leb c b'Z')

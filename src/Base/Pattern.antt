-- ===== src/Base/Pattern.antt =====
-- The regular expressions of the code, as functions. Python's `$` also matches before a final line
-- feed, and `match` starts at the first byte.
use mathlib.Core.Path.{◌≡◌, ap}
use mathlib.Core.Logic.{◌⊎◌, inl, inr}
use mathlib.Core.Bool.{Bool, true, false, ◌&&◌, ◌||◌}
use mathlib.Core.List.{[], ◌∷◌, ◌++◌}
use Prim.Native.Nat.{ℕ}
use native.Mathlib.Omega.{arith}
use echocorn.Base.Tests.{◌==◌, leb, Bool-cases}
use echocorn.Base.Lists.{any, all}
use echocorn.Base.Bytes.{Bytes, codes, is_digit, is_alpha}

-- `$`
unfoldable pub dollar : Bytes → Bool
dollar [] = true
dollar (c ∷ []) = c == 10
dollar (c ∷ d ∷ s) = false

-- `[…]+$`, for a class without the line feed
unfoldable pub plus_dollar : (ℕ → Bool) → Bytes → Bool
unfolding dollar
plus_dollar p [] = false
plus_dollar p (c ∷ s) = p c && (dollar s || plus_dollar p s)

-- The bytes of a token (RFC 9110 section 5.6.2).
unfoldable pub is_token_byte : ℕ → Bool
is_token_byte c = is_digit c || is_alpha c || any (λ x. x == c) (codes "!#$%&'*+-.^_`|~")

-- `^[token]+$`
unfoldable pub token_match : Bytes → Bool
unfolding plus_dollar is_token_byte
token_match = plus_dollar is_token_byte

-- `^[0-9]+$`
unfoldable pub digits_match : Bytes → Bool
unfolding plus_dollar
digits_match = plus_dollar is_digit

unfoldable pub is_hex_digit : ℕ → Bool
is_hex_digit c = is_digit c || (leb b'A' c && leb c b'F') || (leb b'a' c && leb c b'f')

-- `^[0-9A-Fa-f]+$`
unfoldable pub hex_match : Bytes → Bool
unfolding plus_dollar is_hex_digit
hex_match = plus_dollar is_hex_digit

-- A control byte other than the horizontal tab, or DEL.
unfoldable is_illegal_value_byte : ℕ → Bool
is_illegal_value_byte c = leb c 8 || (leb 10 c && leb c 31) || (c == 127)

-- `[\x00-\x08\x0a-\x1f\x7f]`, searched
unfoldable pub has_illegal_value : Bytes → Bool
unfolding is_illegal_value_byte
has_illegal_value = any is_illegal_value_byte

-- `[\x00-\x20\x7f]`, searched
unfoldable pub has_illegal_target : Bytes → Bool
has_illegal_target = any (λ c. leb c 32 || (c == 127))

-- What `^[…]+$` accepts: bytes of the class, with a line feed behind them or not.
abbrev LineOf : (ℕ → Bool) → Bytes → Type 0
LineOf p s = (all p s ≡ true) ⊎ ((t : Bytes) × (s ≡ t ++ (10 ∷ [])) × (all p t ≡ true))

LineOf-cons : (p : ℕ → Bool) (c : ℕ) (s : Bytes) → p c ≡ true → LineOf p s → LineOf p (c ∷ s)
LineOf-cons p c s h (inl whole) = inl (ground arith)
LineOf-cons p c s h (inr (t, e, part)) = inr (c ∷ t, ap (◌∷◌ c) e, ground arith)

pub plus_dollar-LineOf : (p : ℕ → Bool) (s : Bytes) → plus_dollar p s ≡ true → LineOf p s
unfolding plus_dollar
plus_dollar-LineOf p [] h = cc
plus_dollar-LineOf p (c ∷ []) h = inl (ground arith)
plus_dollar-LineOf p (c ∷ d ∷ s) h = elim (Bool-cases (dollar (d ∷ s))) [
  | inl ends ↦
      let e : d ∷ s ≡ 10 ∷ [] = dollar_newline d s ends in inr (c ∷ [], ap (◌∷◌ c) e, ground arith)
  | inr goes_on ↦
      LineOf-cons p c (d ∷ s) (ground arith) (plus_dollar-LineOf p (d ∷ s) (ground arith))
]
  where
    dollar_newline : (d : ℕ) (s : Bytes) → dollar (d ∷ s) ≡ true → d ∷ s ≡ 10 ∷ []
    dollar_newline d [] ends = ground arith
    dollar_newline d (x ∷ s) ends = cc

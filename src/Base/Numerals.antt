-- ===== src/Base/Numerals.antt =====
-- `str(n)` and `format(n, "x")` as texts of digits.
use mathlib.Core.Path.{◌≡◌, refl}
use mathlib.Core.Logic.{inl, inr}
use mathlib.Core.Bool.{true, false}
use mathlib.Core.List.{[], ◌∷◌, ◌++◌}
use Prim.Native.Nat.{ℕ, zero, suc, ◌+◌, ◌-◌, ◌/◌, ◌%◌, ◌^◌, ◌≤◌, ◌<◌}
use native.Mathlib.Omega.{arith}
use echocorn.Base.Tests.{lt→ltb, ltb, if◌then◌else◌, Bool-cases, ltb→lt}
use echocorn.Base.Lists.{length, All, length-append}
use echocorn.Base.Bytes.{Bytes}

unfoldable pub digit : ℕ → ℕ
digit d = if ltb d 10 then b'0' + d else b'a' + (d - 10)

-- the digits of `n` to a base, at most `fuel` of them
unfoldable pub numeral : ℕ → ℕ → ℕ → Bytes
unfolding digit
numeral base zero n = []
numeral base (suc fuel) n = elim (ltb n base) [
  | true ↦ digit n ∷ []
  | false ↦ numeral base fuel (n / base) ++ (digit (n % base) ∷ [])
]

-- A number has fewer digits than its successor counts.
unfoldable pub decimal : ℕ → Bytes
unfolding numeral
decimal n = numeral 10 (suc n) n

unfoldable pub hexadecimal : ℕ → Bytes
unfolding numeral
hexadecimal n = numeral 16 (suc n) n

All-append {κ} : (P : ℕ → Type κ) (xs : Bytes) (y : ℕ) → All P xs → P y → All P (xs ++ (y ∷ []))
All-append P [] y h hy = (hy, tt)
All-append P (x ∷ xs) y h hy = (h.0, All-append P xs y h.1 hy)

pub numeral-small : (base fuel n : ℕ) → ltb n base ≡ true → numeral base (suc fuel) n ≡ digit n ∷ []
unfolding numeral
numeral-small base fuel n h = rw (h, numeral) refl

pub numeral-large :
    (base fuel n : ℕ)
    → ltb n base ≡ false
    → numeral base (suc fuel) n ≡ numeral base fuel (n / base) ++ (digit (n % base) ∷ [])
unfolding numeral
numeral-large base fuel n h = rw (h, numeral) refl

numeral-zero : (base n : ℕ) → numeral base zero n ≡ []
unfolding numeral
numeral-zero base n = refl

-- What holds of each hexadecimal digit holds of every byte of a numeral.
numeral-All {κ} :
    (P : ℕ → Type κ) (fuel n : ℕ) → ((d : ℕ) → d < 16 → P (digit d)) → All P (numeral 16 fuel n)
numeral-All P zero n h = rw (numeral-zero 16 n) tt
numeral-All P (suc fuel) n h = elim (Bool-cases (ltb n 16)) [
  | inl small ↦ rw (numeral-small 16 fuel n small) (h n (ltb→lt n 16 small), tt)
  | inr large ↦
      rw (numeral-large 16 fuel n large)
        (All-append P _ _ (numeral-All P fuel (n / 16) h) (h (n % 16) (omega arith)))
]

pub hexadecimal-All {κ} :
    (P : ℕ → Type κ) (n : ℕ) → ((d : ℕ) → d < 16 → P (digit d)) → All P (hexadecimal n)
unfolding hexadecimal
hexadecimal-All P n h = numeral-All P (suc n) n h

numeral-length : (fuel k n : ℕ) → n < 16 ^ suc k → length (numeral 16 fuel n) ≤ suc k
numeral-length zero k n h = rw (numeral-zero 16 n) (omega arith)
numeral-length (suc fuel) zero n h =
    rw (numeral-small 16 fuel n (lt→ltb n 16 (omega arith))) (omega arith)
numeral-length (suc fuel) (suc k) n h = elim (Bool-cases (ltb n 16)) [
  | inl small ↦ rw (numeral-small 16 fuel n small) (omega arith)
  | inr large ↦ rw (numeral-large 16 fuel n large) (
      omega (
        arith,
        numeral-length fuel k (n / 16) (omega arith),
        length-append (numeral 16 fuel (n / 16)) (digit (n % 16) ∷ []),
      ))
]

pub length-hexadecimal : (k n : ℕ) → n < 16 ^ suc k → length (hexadecimal n) ≤ suc k
unfolding hexadecimal
length-hexadecimal k n h = numeral-length (suc n) k n h

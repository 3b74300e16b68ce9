-- ===== src/Http1/Chunked/SizeLine.antt =====
-- The chunk size line that the writer of echocorn/http1.py prints is read as the number it was.
use mathlib.Core.List.{reverse, reverse-reverse, reverse-cons}
use echocorn.Base.{
  ℕ, zero, suc, ◌+◌, ◌*◌, ◌/◌, ◌%◌, ◌≤◌, ◌<◌, ◌≡◌, refl, ap, ◌∙◌, inl, inr, true, false, some, [],
  ◌∷◌, ◌++◌, arith, length, null, All, Bool-cases, ltb, ◌==◌, ltb→lt, ltb-false, le→ltb-false, ◌&&◌,
}
use echocorn.Base.Bytes.{Bytes, find, starts_with, partition, strip, lstrip_by, rstrip_by, is_space}
use echocorn.Base.Pattern.{hex_match, plus_dollar, is_hex_digit}
use echocorn.Base.Numerals.{
  digit, numeral, hexadecimal, hexadecimal-All, numeral-small, numeral-large,
}
use echocorn.Http1.Error.{ok}
use echocorn.Http1.Chunked.{hex_value, hex_number, chunk_size, size_field, crlf}

-- A byte that no delimiter of a size line is, and that is a hexadecimal digit.
abbrev pub IsSizeByte : ℕ → Type 0
IsSizeByte c =
    (is_hex_digit c ≡ true) × ((c == 13) ≡ false) × ((c == b';') ≡ false) × (is_space c ≡ false)

digit-IsSizeByte : (d : ℕ) → d < 16 → IsSizeByte (digit d)
unfolding digit is_hex_digit
digit-IsSizeByte d h = ground arith

hex_value-digit : (d : ℕ) → d < 16 → hex_value (digit d) ≡ d
unfolding digit
hex_value-digit d h = ground arith

hex_number-append :
    (n : ℕ) (s : Bytes) (c : ℕ) → hex_number n (s ++ (c ∷ [])) ≡ 16 * hex_number n s + hex_value c
unfolding hex_number
hex_number-append n [] c = refl
hex_number-append n (x ∷ s) c = hex_number-append (16 * n + hex_value x) s c

hex_number-digit : (d : ℕ) → d < 16 → hex_number 0 (digit d ∷ []) ≡ d
unfolding hex_number
hex_number-digit d h = omega (arith, hex_value-digit d h)

hex_number-numeral : (fuel n : ℕ) → n < fuel → hex_number 0 (numeral 16 fuel n) ≡ n
hex_number-numeral zero n h = omega arith
hex_number-numeral (suc fuel) n h = elim (Bool-cases (ltb n 16)) [
  | inl small ↦ rw (numeral-small 16 fuel n small) (hex_number-digit n (ltb→lt n 16 small))
  | inr large ↦
      let low = ltb-false n 16 large in
      rw (numeral-large 16 fuel n large) (
        hex_number-append 0 (numeral 16 fuel (n / 16)) (digit (n % 16))
        ∙ omega (
          arith,
          hex_number-numeral fuel (n / 16) (omega arith),
          hex_value-digit (n % 16) (omega arith),
        ))
]

pub hex_number-hexadecimal : (n : ℕ) → hex_number 0 (hexadecimal n) ≡ n
unfolding hexadecimal
hex_number-hexadecimal n = hex_number-numeral (suc n) n (omega arith)

numeral-null : (fuel n : ℕ) → null (numeral 16 (suc fuel) n) ≡ false
numeral-null fuel n = elim (Bool-cases (ltb n 16)) [
  | inl small ↦ rw (numeral-small 16 fuel n small) refl
  | inr large ↦
      rw (numeral-large 16 fuel n large) (append-null (numeral 16 fuel (n / 16)) (digit (n % 16)))
]
  where
    append-null : (s : Bytes) (c : ℕ) → null (s ++ (c ∷ [])) ≡ false
    append-null [] c = refl
    append-null (x ∷ s) c = refl

-- the line end is found behind the digits
pub find-crlf : (s t : Bytes) → All IsSizeByte s → find (s ++ (crlf ++ t)) crlf ≡ some (length s)
unfolding find starts_with
find-crlf [] t h = refl
find-crlf (c ∷ s) t h = ground (arith, find-crlf s t)

partition-none : (s : Bytes) → All IsSizeByte s → (partition b';' s).0 ≡ s
unfolding partition
partition-none [] h = refl
partition-none (c ∷ s) h = ground (arith, partition-none s)

lstrip_by-same : (s : Bytes) → All IsSizeByte s → lstrip_by is_space s ≡ s
unfolding lstrip_by
lstrip_by-same [] h = refl
lstrip_by-same (c ∷ s) h = ground arith

All-snoc : (s : Bytes) (c : ℕ) → All IsSizeByte s → IsSizeByte c → All IsSizeByte (s ++ (c ∷ []))
All-snoc [] c h hc = (hc, tt)
All-snoc (x ∷ s) c h hc = (h.0, All-snoc s c h.1 hc)

All-reverse : (s : Bytes) → All IsSizeByte s → All IsSizeByte (reverse s)
All-reverse [] h = tt
All-reverse (x ∷ s) h = rw (reverse-cons x s) (All-snoc (reverse s) x (All-reverse s h.1) h.0)

strip-same : (s : Bytes) → All IsSizeByte s → strip s ≡ s
unfolding strip rstrip_by
strip-same s h =
    ap (λ t. reverse (lstrip_by is_space (reverse t))) (lstrip_by-same s h)
    ∙ ap reverse (lstrip_by-same (reverse s) (All-reverse s h))
    ∙ reverse-reverse s

pub size_field-same : (s : Bytes) → All IsSizeByte s → size_field s ≡ s
unfolding size_field
size_field-same s h = ap strip (partition-none s h) ∙ strip-same s h

hex_match-digits : (s : Bytes) → All IsSizeByte s → null s ≡ false → hex_match s ≡ true
unfolding hex_match plus_dollar
hex_match-digits [] h e = cc
hex_match-digits (c ∷ []) h e = ground arith
hex_match-digits (c ∷ d ∷ s) h e = ground (arith, hex_match-digits (d ∷ s) h.1 refl)

pub hexadecimal-IsSizeByte : (n : ℕ) → All IsSizeByte (hexadecimal n)
hexadecimal-IsSizeByte n = hexadecimal-All IsSizeByte n digit-IsSizeByte

chunk_size-digits :
    (max_size n : ℕ) (line : Bytes)
    → null line ≡ false
    → hex_match line ≡ true
    → ltb 8 (length line) ≡ false
    → hex_number 0 line ≡ n
    → (ltb 0 max_size && ltb max_size n) ≡ false
    → chunk_size max_size line ≡ ok n
unfolding chunk_size
chunk_size-digits max_size n line some_digits digits few value fits = ground arith

hexadecimal-null : (n : ℕ) → null (hexadecimal n) ≡ false
unfolding hexadecimal
hexadecimal-null n = numeral-null n n

-- A size within the limit, of eight digits at most, is read back.
pub chunk_size-hexadecimal :
    (max_size n : ℕ)
    → length (hexadecimal n) ≤ 8
    → (ltb 0 max_size && ltb max_size n) ≡ false
    → chunk_size max_size (hexadecimal n) ≡ ok n
chunk_size-hexadecimal max_size n short fits =
    chunk_size-digits max_size n (hexadecimal n) (hexadecimal-null n)
      (hex_match-digits (hexadecimal n) (hexadecimal-IsSizeByte n) (hexadecimal-null n))
      (le→ltb-false 8 (length (hexadecimal n)) short) (hex_number-hexadecimal n) fits

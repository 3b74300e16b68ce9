-- ===== src/Utils/Headers/Clean.antt =====
-- What `normalize_response_headers` of echocorn/utils.py lets through.
use mathlib.Core.List.{reverse, reverse-reverse, reverse-append}
use mathlib.Core.Path.{subst}
use echocorn.Base.{
  ℕ, ◌≡◌, refl, ap, sym, ◌∙◌, inl, inr, Bool, true, false, some, List, [], ◌∷◌, ◌++◌, All, all,
  if◌then◌else◌, null, Option-cases, arith,
}
use echocorn.Base.Bytes.{
  Bytes, lower, lower_byte, strip, lstrip_by, rstrip_by, is_space, mem, bytes_eq, codes, is_digit,
}
use echocorn.Base.Pattern.{
  token_match, is_token_byte, digits_match, has_illegal_value, plus_dollar-LineOf,
}
use echocorn.Utils.Headers.{
  Item, pair, malformed, field_bytes, clean_field, clean_item, normalize_response_headers,
  forbidden_response_headers,
}

lstrip_by-head :
    (p : ℕ → Bool) (s : Bytes) (c : ℕ) (t : Bytes) → lstrip_by p s ≡ c ∷ t → p c ≡ false
unfolding lstrip_by
lstrip_by-head p [] c t h = cc
lstrip_by-head p (x ∷ s) c t h = ground (arith, lstrip_by-head p s c t)

strip-last : (s t : Bytes) (c : ℕ) → strip s ≡ t ++ (c ∷ []) → is_space c ≡ false
unfolding strip rstrip_by
strip-last s t c h =
    lstrip_by-head is_space (reverse (lstrip_by is_space s)) c (reverse t)
      (sym (reverse-reverse _) ∙ ap reverse h ∙ reverse-append t (c ∷ []))

token_byte-lower : (c : ℕ) → is_token_byte c ≡ true → is_token_byte (lower_byte c) ≡ true
unfolding is_token_byte
token_byte-lower c h = ground arith

all-lower : (s : Bytes) → all is_token_byte s ≡ true → all is_token_byte (lower s) ≡ true
unfolding lower
all-lower [] h = refl
all-lower (c ∷ s) h = ground (arith, token_byte-lower c, all-lower s)

lower-lower : (s : Bytes) → lower (lower s) ≡ lower s
unfolding lower
lower-lower [] = refl
lower-lower (c ∷ s) = ground (arith, lower-lower s)

-- A field that cannot break the head open: a name of token bytes, a value without control bytes, a
-- name that is on neither list, and digits as the value of a content-length.
abbrev pub IsClean : List Bytes → Bytes × Bytes → Type 0
IsClean forbidden (name, value) =
    (all is_token_byte name ≡ true)
    × (has_illegal_value value ≡ false)
    × (mem (lower name) forbidden ≡ false)
    × (mem (lower name) forbidden_response_headers ≡ false)
    × (bytes_eq (lower name) (codes "content-length") ≡ true
        → (all is_digit value ≡ true) × (null value ≡ false))

token-strip : (s : Bytes) → token_match (strip s) ≡ true → all is_token_byte (strip s) ≡ true
unfolding token_match
token-strip s h = elim (plus_dollar-LineOf is_token_byte (strip s) h) [
  | inl whole ↦ whole
  | inr (t, e, part) ↦ let c : is_space 10 ≡ false = strip-last s t 10 e in cc
]

digits-strip :
    (s : Bytes)
    → digits_match (strip s) ≡ true
    → (all is_digit (strip s) ≡ true) × (null (strip s) ≡ false)
unfolding digits_match
digits-strip s h = elim (plus_dollar-LineOf is_digit (strip s) h) [
  | inl whole ↦ (whole, plus_dollar-null (strip s) h)
  | inr (t, e, part) ↦ let c : is_space 10 ≡ false = strip-last s t 10 e in cc
]
  where
    plus_dollar-null : (s : Bytes) → digits_match s ≡ true → null s ≡ false
    plus_dollar-null [] h = cc
    plus_dollar-null (c ∷ s) h = refl

written_name : Bool → Bytes → Bytes
written_name lowercase name = if lowercase then lower name else name

lower-written : (lowercase : Bool) (name : Bytes) → lower (written_name lowercase name) ≡ lower name
unfolding written_name
lower-written true name = lower-lower name
lower-written false name = refl

all-written :
    (lowercase : Bool) (name : Bytes)
    → all is_token_byte name ≡ true
    → all is_token_byte (written_name lowercase name) ≡ true
unfolding written_name
all-written true name h = all-lower name h
all-written false name h = h

clean_field-IsClean :
    (lowercase : Bool) (forbidden : List Bytes) (name value : Bytes) (field : Bytes × Bytes)
    → clean_field lowercase forbidden name value ≡ some field
    → IsClean forbidden field
unfolding clean_field written_name
clean_field-IsClean lowercase forbidden name value field h =
    let token : token_match (strip name) ≡ true = ground arith in
    let free : mem (lower (strip name)) forbidden ≡ false = ground arith in
    let safe : mem (lower (strip name)) forbidden_response_headers ≡ false = ground arith in
    let legal : has_illegal_value (strip value) ≡ false = ground arith in
    let measured : bytes_eq (lower (strip name)) (codes "content-length") ≡ true
        → digits_match (strip value) ≡ true =
      λ is_length. ground arith in
    let e : field ≡ (written_name lowercase (strip name), strip value) = ground arith in
    subst (IsClean forbidden) (sym e) (
      all-written lowercase (strip name) (token-strip name token),
      legal,
      ap (λ n. mem n forbidden) (lower-written lowercase (strip name)) ∙ free,
      ap (λ n. mem n forbidden_response_headers) (lower-written lowercase (strip name)) ∙ safe,
      λ is_length. digits-strip value (
          measured (
            sym
              (ap (λ n. bytes_eq n (codes "content-length")) (lower-written lowercase (strip name)))
            ∙ is_length)),
    )

clean_item-IsClean :
    (lowercase : Bool) (forbidden : List Bytes) (item : Item) (field : Bytes × Bytes)
    → clean_item lowercase forbidden item ≡ some field
    → IsClean forbidden field
unfolding clean_item
clean_item-IsClean lowercase forbidden malformed field h = cc
clean_item-IsClean lowercase forbidden (pair name value) field h =
    elim (Option-cases (field_bytes name)) [
      | inl no_bytes ↦ ground arith
      | inr (n, e) ↦ elim (Option-cases (field_bytes value)) [
        | inl no_bytes ↦ ground arith
        | inr (v, e') ↦ clean_field-IsClean lowercase forbidden n v field (ground arith)
      ]
    ]

-- Whatever list an application hands over, every header field that is written has a name of token
-- bytes only, a value without control bytes, and a name that is neither one the caller forbids nor
-- on the list that belongs to the server, transfer-encoding and the fields of the connection; what is
-- written as content-length is digits, at least one.
pub normalize_response_headers-IsClean :
    (items : List Item) (lowercase : Bool) (forbidden : List Bytes)
    → All (IsClean forbidden) (normalize_response_headers items lowercase forbidden)
unfolding normalize_response_headers
normalize_response_headers-IsClean [] lowercase forbidden = tt
normalize_response_headers-IsClean (item ∷ items) lowercase forbidden =
    let rest = normalize_response_headers-IsClean items lowercase forbidden in
    elim (Option-cases (clean_item lowercase forbidden item)) [
      | inl dropped ↦ rw dropped rest
      | inr (field, kept) ↦ rw kept (clean_item-IsClean lowercase forbidden item field kept, rest)
    ]

-- ===== src/WebSocket/Frame/Length.antt =====
-- The length bytes that `build_frame` of echocorn/websocket.py writes, read back by `_parse_frame`.
use mathlib.Core.Path.{subst}
use echocorn.WebSocket.Outcome.{done}
use echocorn.Base.{
  ltb→lt, ltb-false, ℕ, ◌+◌, ◌/◌, ◌%◌, ◌^◌, ◌-◌, ◌≤◌, ◌<◌, ◌≡◌, refl, inl, inr, Bool, true, false,
  not, some, [], ◌∷◌, ◌++◌, arith, ltb, ◌==◌, length, length-append, take, take-append, Bool-cases,
  le→ltb-false,
}
use echocorn.Base.Bytes.{Bytes}
use echocorn.WebSocket.Words.{to_bytes, from_bytes, from_bytes-to_bytes, length-to_bytes}
use echocorn.WebSocket.Frame.{flag, length_bytes, frame_length}

-- The second byte with the length bytes behind it, read back.
abbrev pub Reads : Bool → ℕ → ℕ → Bytes → Type 0
Reads masked n first body =
    (second : ℕ) × (ext : Bytes) × (length_bytes (flag masked) n ≡ second ∷ ext)
    × (not (second / 128 == 0) ≡ masked)
    × (frame_length (second % 128) (first ∷ second ∷ (ext ++ body))
        ≡ done (some (n, length ext + 2)))

pub taken : (k : ℕ) (ext body : Bytes) → length ext ≡ k → take k (ext ++ body) ≡ ext
taken k ext body h = subst (λ k. take k (ext ++ body) ≡ ext) h (take-append ext body)

pub frame_length-16 :
    (first second : ℕ) (ext body : Bytes)
    → length ext ≡ 2
    → 126 ≤ from_bytes 0 ext
    → frame_length 126 (first ∷ second ∷ (ext ++ body)) ≡ done (some (from_bytes 0 ext, 4))
unfolding frame_length
frame_length-16 first second ext body h low =
    let whole : ltb (length (first ∷ second ∷ (ext ++ body))) 4 ≡ false =
      le→ltb-false _ _ (omega (arith, length-append ext body)) in
    let minimal : ltb (from_bytes 0 ext) 126 ≡ false = le→ltb-false _ _ low in
    rw (whole, taken 2 ext body h, minimal) refl

pub frame_length-64 :
    (first second : ℕ) (ext body : Bytes)
    → length ext ≡ 8
    → 65536 ≤ from_bytes 0 ext
    → from_bytes 0 ext < 2 ^ 63
    → frame_length 127 (first ∷ second ∷ (ext ++ body)) ≡ done (some (from_bytes 0 ext, 10))
unfolding frame_length
frame_length-64 first second ext body h low high =
    let whole : ltb (length (first ∷ second ∷ (ext ++ body))) 10 ≡ false =
      le→ltb-false _ _ (omega (arith, length-append ext body)) in
    let minimal : ltb (from_bytes 0 ext) 65536 ≡ false = le→ltb-false _ _ low in
    let bounded : ltb (2 ^ 63 - 1) (from_bytes 0 ext) ≡ false = le→ltb-false _ _ (omega arith) in
    rw (whole, taken 8 ext body h, minimal, bounded) refl

pub length_bytes-medium :
    (mask_bit n : ℕ)
    → ltb n 126 ≡ false
    → ltb n 65536 ≡ true
    → length_bytes mask_bit n ≡ (mask_bit + 126) ∷ to_bytes 2 n
unfolding length_bytes
length_bytes-medium mask_bit n long medium = ground arith

pub length_bytes-huge :
    (mask_bit n : ℕ)
    → ltb n 126 ≡ false
    → ltb n 65536 ≡ false
    → length_bytes mask_bit n ≡ (mask_bit + 127) ∷ to_bytes 8 n
unfolding length_bytes
length_bytes-huge mask_bit n long huge = ground arith

pub length_bytes-short :
    (mask_bit n : ℕ) → ltb n 126 ≡ true → length_bytes mask_bit n ≡ (mask_bit + n) ∷ []
unfolding length_bytes
length_bytes-short mask_bit n short = ground arith

pub frame_length-short :
    (n : ℕ) (buffer : Bytes) → n < 126 → frame_length n buffer ≡ done (some (n, 2))
unfolding frame_length
frame_length-short n buffer h = ground arith

-- the flag and the length are read back out of the second byte
pub second_flag : (masked : Bool) (n : ℕ) → n < 128 → not ((flag masked + n) / 128 == 0) ≡ masked
second_flag true n h = ground arith
second_flag false n h = ground arith

pub second_length : (masked : Bool) (n : ℕ) → n < 128 → (flag masked + n) % 128 ≡ n
second_length true n h = omega arith
second_length false n h = omega arith

pub length_bytes-Reads :
    (masked : Bool) (n first : ℕ) (body : Bytes) → n < 2 ^ 63 → Reads masked n first body
length_bytes-Reads masked n first body h = elim (Bool-cases (ltb n 126)) [
  | inl short ↦
      let small : n < 126 = ltb→lt n 126 short in
      (
        flag masked + n,
        [],
        length_bytes-short (flag masked) n short,
        second_flag masked n (omega arith),
        rw (second_length masked n (omega arith)) (frame_length-short n _ small),
      )
  | inr long ↦ elim (Bool-cases (ltb n 65536)) [
    | inl medium ↦
        let e = from_bytes-to_bytes 2 n (omega (arith, ltb→lt n 65536 medium)) in
        (
          flag masked + 126,
          to_bytes 2 n,
          length_bytes-medium (flag masked) n long medium,
          second_flag masked 126 (omega arith),
          rw
              (
                second_length masked 126 (omega arith),
                frame_length-16 first (flag masked + 126) (to_bytes 2 n) body (length-to_bytes 2 n)
                    (omega (arith, e, ltb-false n 126 long)),
                e,
                length-to_bytes 2 n,
              )
              refl,
        )
    | inr huge ↦
        let e = from_bytes-to_bytes 8 n (omega arith) in
        (
          flag masked + 127,
          to_bytes 8 n,
          length_bytes-huge (flag masked) n long huge,
          second_flag masked 127 (omega arith),
          rw
              (
                second_length masked 127 (omega arith),
                frame_length-64 first (flag masked + 127) (to_bytes 8 n) body (length-to_bytes 8 n)
                    (omega (arith, e, ltb-false n 65536 huge)) (omega (arith, e)),
                e,
                length-to_bytes 8 n,
              )
              refl,
        )
  ]
]

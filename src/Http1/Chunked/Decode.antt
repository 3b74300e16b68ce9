-- ===== src/Http1/Chunked/Decode.antt =====
-- The loop of `ChunkedDecoder.feed` ends: its turns are bounded by the bytes in the buffer.
use echocorn.Base.{
  length-drop, ◌==◌, ℕ, zero, suc, ◌+◌, ◌-◌, ◌≤◌, ◌<◌, ◌≡◌, refl, ap, ◌⊎◌, inl, inr, true, false,
  some, [], ◌∷◌, length, take, drop, null, Bool-cases, Option-cases, arith, min,
}
use echocorn.Base.Bytes.{Bytes, starts_with, find}
use echocorn.Http1.Error.{is_ok, Result, ok, err}
use echocorn.Http1.Chunked.{
  ChunkedDecoder, size, data_, trailer, Turn, crlf, turn, turn_size, turn_data, turn_trailer,
  feed_fuel, feed, after_chunk, chunk_size, size_field, trailer_field,
}

pub Result-cases : {A : Type 0} (r : Result A) → ((a : A) × (r ≡ ok a)) ⊎ (is_ok r ≡ false)
Result-cases (ok a) = inl (a, refl)
Result-cases (err e) = inr refl

starts_with-length : (s p : Bytes) → starts_with s p ≡ true → length p ≤ length s
unfolding starts_with
starts_with-length s [] h = omega arith
starts_with-length [] (p ∷ ps) h = cc
starts_with-length (c ∷ s) (p ∷ ps) h = ground (arith, starts_with-length s ps)

-- What is found lies within the text.
pub find-le : (s p : Bytes) (i : ℕ) → find s p ≡ some i → i + length p ≤ length s
unfolding find
find-le [] p i h = ground (arith, starts_with-length [] p)
find-le (c ∷ s) p i h = elim (Bool-cases (starts_with (c ∷ s) p)) [
  | inl here ↦ ground (arith, starts_with-length (c ∷ s) p here)
  | inr later ↦ elim (Option-cases (find s p)) [
    | inl nowhere ↦ ground arith
    | inr (j, found) ↦ ground (arith, find-le s p j found)
  ]
]

after_chunk-shorter :
    (chunk rest : Bytes) (d : ChunkedDecoder) (t : Turn)
    → after_chunk chunk rest d ≡ ok t
    → t.again ≡ true
    → length t.buffer + 2 ≤ length rest
after_chunk-shorter chunk [] d t h again = ground arith
after_chunk-shorter chunk (c ∷ []) d t h again = ground arith
after_chunk-shorter chunk (c ∷ c' ∷ rest) d t h again = ground arith

turn_data-shorter :
    (buffer : Bytes) (d : ChunkedDecoder) (t : Turn)
    → turn_data buffer d ≡ ok t
    → t.again ≡ true
    → length t.buffer + 2 ≤ length buffer
unfolding turn_data
turn_data-shorter buffer d t h again =
    let n : ℕ = min (length buffer) d.remaining in
    let left : ChunkedDecoder = record d { remaining = d.remaining - n } in
    elim (Bool-cases (left.remaining == 0)) [
      | inl over ↦
          let cut =
            after_chunk-shorter (take n buffer) (drop n buffer) left t (ground arith) again in
          omega (arith, cut, length-drop n buffer)
      | inr more ↦ ground arith
    ]

turn_size-shorter :
    (max_size : ℕ) (buffer : Bytes) (d : ChunkedDecoder) (t : Turn)
    → turn_size max_size buffer d ≡ ok t
    → t.again ≡ true
    → length t.buffer + 2 ≤ length buffer
unfolding turn_size
turn_size-shorter max_size buffer d t h again = elim (Option-cases (find buffer crlf)) [
  | inl nowhere ↦ ground arith
  | inr (index, found) ↦
      elim (Result-cases (chunk_size max_size (size_field (take index buffer)))) [
        | inl (n, sized) ↦
            let e : t.buffer ≡ drop (index + 2) buffer = ground arith in
            omega
              (arith, find-le buffer crlf index found, length-drop (index + 2) buffer, ap length e)
        | inr refused ↦ ground arith
      ]
]

turn_trailer-shorter :
    (buffer : Bytes) (d : ChunkedDecoder) (t : Turn)
    → turn_trailer buffer d ≡ ok t
    → t.again ≡ true
    → length t.buffer + 2 ≤ length buffer
unfolding turn_trailer
turn_trailer-shorter buffer d t h again = elim (Option-cases (find buffer crlf)) [
  | inl nowhere ↦ ground arith
  | inr (index, found) ↦ elim (Bool-cases (null (take index buffer))) [
    | inl last ↦ ground arith
    | inr more ↦ elim (Result-cases (trailer_field (take index buffer))) [
      | inl (field, read) ↦
          let e : t.buffer ≡ drop (index + 2) buffer = ground arith in
          omega
            (arith, find-le buffer crlf index found, length-drop (index + 2) buffer, ap length e)
      | inr refused ↦ ground arith
    ]
  ]
]

pub turn-shorter :
    (max_size : ℕ) (buffer : Bytes) (d : ChunkedDecoder) (t : Turn)
    → turn max_size buffer d ≡ ok t
    → t.again ≡ true
    → length t.buffer + 2 ≤ length buffer
unfolding turn
turn-shorter max_size buffer d t h again =
    elim d.state as (λ s. d.state ≡ s → length t.buffer + 2 ≤ length buffer) [
      | size ↦ λ e. turn_size-shorter max_size buffer d t (ground arith) again
      | data_ ↦ λ e. turn_data-shorter buffer d t (ground arith) again
      | trailer ↦ λ e. turn_trailer-shorter buffer d t (ground arith) again
    ]
      refl

pub feed_fuel-same :
    (max_size m n : ℕ) (buffer : Bytes) (d : ChunkedDecoder)
    → length buffer < m
    → length buffer < n
    → feed_fuel m max_size buffer d ≡ feed_fuel n max_size buffer d
unfolding feed_fuel
feed_fuel-same max_size zero n buffer d h h' = ground arith
feed_fuel-same max_size (suc m) zero buffer d h h' = ground arith
feed_fuel-same max_size (suc m) (suc n) buffer d h h' =
    elim (Result-cases (turn max_size buffer d)) [
      | inl (t, turned) ↦ elim (Bool-cases t.again) [
        | inl again ↦
            let cut = turn-shorter max_size buffer d t turned again in
            ground
              (arith, feed_fuel-same max_size m n t.buffer t.decoder (omega arith) (omega arith))
        | inr stops ↦ ground arith
      ]
      | inr refused ↦ ground arith
    ]

-- Beyond one turn more than the buffer has bytes, no allowance of turns makes a difference to what
-- `feed` returns: it runs until it waits for more bytes, is done or refuses the input.
pub feed-enough :
    (fuel max_size : ℕ) (buffer : Bytes) (d : ChunkedDecoder)
    → length buffer < fuel
    → feed_fuel fuel max_size buffer d ≡ feed max_size buffer d
unfolding feed
feed-enough fuel max_size buffer d h =
    feed_fuel-same max_size fuel (suc (length buffer)) buffer d h (omega arith)

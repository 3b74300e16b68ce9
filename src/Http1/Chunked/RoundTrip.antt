-- ===== src/Http1/Chunked/RoundTrip.antt =====
-- `_write_chunk` of echocorn/http1.py against `ChunkedDecoder`.
use mathlib.Core.List.{append_assoc}
use echocorn.Base.{
  ℕ, zero, suc, ◌≤◌, ◌<◌, ◌^◌, ◌≡◌, ◌⊎◌, inl, inr, le→ltb-false, refl, ap, ◌∙◌, true, false, List,
  [], ◌∷◌, ◌++◌, arith, length, length-append, null, All, ltb, ◌&&◌,
}
use echocorn.Base.Bytes.{Bytes, find}
use echocorn.Base.Numerals.{hexadecimal, length-hexadecimal}
use echocorn.Http1.Error.{Result, ok, err}
use echocorn.Http1.Chunked.{
  ChunkedDecoder, data_, trailer, init, Fed, Turn, crlf, announced, prepend, turn, turn_trailer,
  feed_fuel, feed,
}
use echocorn.Http1.Chunked.Encode.{encode_chunk, encode_body, last_chunk}
use echocorn.Http1.Chunked.Turns.{
  turn_size-hexadecimal, turn_data-chunk, after, feed_fuel-again, feed_fuel-stop,
}

abbrev line_read : ℕ → Bytes → Turn
line_read n rest = record { chunk = []; buffer = rest; decoder = announced n init; again = true }

prepend-nothing : (r : Result Fed) → prepend [] r ≡ r
prepend-nothing (ok fed) = refl
prepend-nothing (err e) = refl

turn-line :
    (max_size n : ℕ) (rest : Bytes)
    → length (hexadecimal n) ≤ 8
    → (ltb 0 max_size && ltb max_size n) ≡ false
    → turn max_size (hexadecimal n ++ (crlf ++ rest)) init ≡ ok (line_read n rest)
unfolding turn
turn-line max_size n rest short fits = turn_size-hexadecimal max_size n rest init short fits

feed_fuel-line :
    (fuel max_size n : ℕ) (rest : Bytes)
    → length (hexadecimal n) ≤ 8
    → (ltb 0 max_size && ltb max_size n) ≡ false
    → feed_fuel (suc fuel) max_size (hexadecimal n ++ (crlf ++ rest)) init
      ≡ feed_fuel fuel max_size rest (announced n init)
feed_fuel-line fuel max_size n rest short fits =
    feed_fuel-again fuel max_size (hexadecimal n ++ (crlf ++ rest)) init (line_read n rest)
      (turn-line max_size n rest short fits) refl
    ∙ prepend-nothing (feed_fuel fuel max_size rest (announced n init))

abbrev reading : Bytes → ChunkedDecoder
reading chunk = record { state = data_; remaining = length chunk; done = false; trailers = [] }

turn-chunk :
    (max_size : ℕ) (chunk rest : Bytes)
    → turn max_size (chunk ++ (crlf ++ rest)) (reading chunk)
      ≡ ok (after (reading chunk) chunk rest)
unfolding turn
turn-chunk max_size chunk rest = turn_data-chunk chunk rest (reading chunk) refl

announced-suc : (c : ℕ) (s : Bytes) → announced (length (c ∷ s)) init ≡ reading (c ∷ s)
announced-suc c s = ground arith

encode_chunk-append :
    (chunk rest : Bytes)
    → encode_chunk chunk ++ rest ≡ hexadecimal (length chunk) ++ (crlf ++ (chunk ++ (crlf ++ rest)))
unfolding encode_chunk
encode_chunk-append chunk rest =
    append_assoc (hexadecimal (length chunk)) (crlf ++ (chunk ++ crlf)) rest
    ∙ ap (λ t. hexadecimal (length chunk) ++ (crlf ++ t)) (append_assoc chunk crlf rest)

-- Two turns read a chunk: its size line, then its bytes.
feed_fuel-chunk :
    (fuel max_size c : ℕ) (s rest : Bytes)
    → length (hexadecimal (length (c ∷ s))) ≤ 8
    → (ltb 0 max_size && ltb max_size (length (c ∷ s))) ≡ false
    → feed_fuel (suc (suc fuel)) max_size (encode_chunk (c ∷ s) ++ rest) init
      ≡ prepend (c ∷ s) (feed_fuel fuel max_size rest init)
feed_fuel-chunk fuel max_size c s rest short fits =
    let chunk : Bytes = c ∷ s in
    let behind : Bytes = chunk ++ (crlf ++ rest) in
    ap (λ b. feed_fuel (suc (suc fuel)) max_size b init) (encode_chunk-append chunk rest)
    ∙ feed_fuel-line (suc fuel) max_size (length chunk) behind short fits
    ∙ ap (feed_fuel (suc fuel) max_size behind) (announced-suc c s)
    ∙ feed_fuel-again fuel max_size behind (reading chunk) (after (reading chunk) chunk rest)
        (turn-chunk max_size chunk rest) refl

abbrev over : Bytes → Fed
over rest = record {
  chunks = [];
  buffer = rest;
  decoder = record { state = trailer; remaining = 0; done = true; trailers = [] };
}

abbrev trailer_turn : Bytes → Turn
trailer_turn rest = record {
  chunk = [];
  buffer = rest;
  decoder = (over rest).decoder;
  again = false;
}

turn-trailer :
    (max_size : ℕ) (rest : Bytes)
    → turn max_size (crlf ++ rest) (announced 0 init) ≡ ok (trailer_turn rest)
unfolding turn turn_trailer find
turn-trailer max_size rest = refl

zero-fits : (max_size : ℕ) → (ltb 0 max_size && ltb max_size 0) ≡ false
zero-fits max_size = ground arith

last_chunk-append : (rest : Bytes) → last_chunk ++ rest ≡ hexadecimal 0 ++ (crlf ++ (crlf ++ rest))
unfolding hexadecimal
last_chunk-append rest = refl

feed_fuel-last :
    (fuel max_size : ℕ) (rest : Bytes)
    → feed_fuel (suc (suc fuel)) max_size (last_chunk ++ rest) init ≡ ok (over rest)
unfolding hexadecimal
feed_fuel-last fuel max_size rest =
    ap (λ b. feed_fuel (suc (suc fuel)) max_size b init) (last_chunk-append rest)
    ∙ feed_fuel-line (suc fuel) max_size 0 (crlf ++ rest) (omega arith) (zero-fits max_size)
    ∙ feed_fuel-stop fuel max_size (crlf ++ rest) (announced 0 init) (trailer_turn rest)
        (turn-trailer max_size rest) refl

-- A chunk that the writer frames and the decoder's limits let through.
abbrev pub Fits : ℕ → Bytes → Type 0
Fits max_size chunk =
    (null chunk ≡ false) × (length chunk < 2 ^ 32) × ((max_size ≡ 0) ⊎ (length chunk ≤ max_size))

fits-limit :
    (max_size n : ℕ) → (max_size ≡ 0) ⊎ (n ≤ max_size) → (ltb 0 max_size && ltb max_size n) ≡ false
fits-limit max_size n (inl e) = rw e refl
fits-limit max_size n (inr h) = ground (arith, le→ltb-false max_size n h)

encode_body-length : (chunks : List Bytes) (rest : Bytes) → 2 ≤ length (encode_body chunks rest)
unfolding encode_body
encode_body-length [] rest = omega arith
encode_body-length (chunk ∷ chunks) rest = omega (
  arith,
  encode_body-length chunks rest,
  length-append (encode_chunk chunk) (encode_body chunks rest),
)

encode_chunk-length : (chunk : Bytes) → 2 ≤ length (encode_chunk chunk)
unfolding encode_chunk
encode_chunk-length chunk =
    omega (arith, length-append (hexadecimal (length chunk)) (crlf ++ (chunk ++ crlf)))

feed_fuel-body :
    (fuel max_size : ℕ) (chunks : List Bytes) (rest : Bytes)
    → All (Fits max_size) chunks
    → length (encode_body chunks rest) < fuel
    → feed_fuel fuel max_size (encode_body chunks rest) init
      ≡ ok (record { chunks = chunks; buffer = rest; decoder = (over rest).decoder })
unfolding encode_body
feed_fuel-body zero max_size chunks rest h enough = ground arith
feed_fuel-body (suc zero) max_size chunks rest h enough =
    ground (arith, encode_body-length chunks rest)
feed_fuel-body (suc (suc fuel)) max_size [] rest h enough = feed_fuel-last fuel max_size rest
feed_fuel-body (suc (suc fuel)) max_size ([] ∷ chunks) rest h enough = cc
feed_fuel-body (suc (suc fuel)) max_size ((c ∷ s) ∷ chunks) rest h enough =
    let tail = encode_body chunks rest in
    let shorter = length-append (encode_chunk (c ∷ s)) tail in
    let framed = encode_chunk-length (c ∷ s) in
    feed_fuel-chunk fuel max_size c s tail
      (length-hexadecimal 7 (length (c ∷ s)) (omega (arith, h.0.1)))
      (fits-limit max_size (length (c ∷ s)) h.0.2)
    ∙ ap (prepend (c ∷ s))
        (feed_fuel-body fuel max_size chunks rest h.1 (omega (arith, shorter, framed, enough)))

-- The decoder reads the framing that the writer puts around a body: a body of chunks that are not
-- empty, each under four gigabytes and within `max_request_size`, is handed out chunk for chunk,
-- without a trailer field; the decoder is done, and the bytes behind the body stay in the buffer.
pub encode_body-feed :
    (max_size : ℕ) (chunks : List Bytes) (rest : Bytes)
    → All (Fits max_size) chunks
    → feed max_size (encode_body chunks rest) init
      ≡ ok (record {
        chunks = chunks;
        buffer = rest;
        decoder = record { state = trailer; remaining = 0; done = true; trailers = [] };
      })
unfolding feed
encode_body-feed max_size chunks rest h =
    feed_fuel-body (suc (length (encode_body chunks rest))) max_size chunks rest h (omega arith)

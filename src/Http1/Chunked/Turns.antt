-- ===== src/Http1/Chunked/Turns.antt =====
-- Turns of the loop of `ChunkedDecoder.feed` of echocorn/http1.py on what `_write_chunk` frames.
use echocorn.Base.{
  ℕ, suc, ◌+◌, ◌≤◌, ◌-◌, ◌≡◌, refl, ap, ◌∙◌, true, false, some, [], ◌∷◌, ◌++◌, arith, length, take,
  drop, min, take-append, drop-append, length-append, ltb, ◌&&◌,
}
use echocorn.Base.Bytes.{Bytes, find}
use echocorn.Base.Numerals.{hexadecimal}
use echocorn.Http1.Error.{ok}
use echocorn.Http1.Chunked.{
  ChunkedDecoder, size, Turn, crlf, announced, prepend, last_turn, after_chunk, chunk_size,
  size_field, turn, turn_size, turn_data, feed_fuel,
}
use echocorn.Http1.Chunked.SizeLine.{
  find-crlf, size_field-same, hexadecimal-IsSizeByte, chunk_size-hexadecimal,
}

drop-line : (s t : Bytes) → drop (length s + 2) (s ++ (crlf ++ t)) ≡ t
drop-line [] t = refl
drop-line (c ∷ s) t =
    let e : length (c ∷ s) + 2 ≡ suc (length s + 2) = omega arith in rw e (drop-line s t)

pub turn_size-found :
    (max_size i n : ℕ) (buffer rest : Bytes) (d : ChunkedDecoder)
    → find buffer crlf ≡ some i
    → chunk_size max_size (size_field (take i buffer)) ≡ ok n
    → drop (i + 2) buffer ≡ rest
    → turn_size max_size buffer d
      ≡ ok (record { chunk = []; buffer = rest; decoder = announced n d; again = true })
unfolding turn_size
turn_size-found max_size i n buffer rest d found sized dropped =
    rw (turn_size, found, sized, dropped) refl

pub turn_size-hexadecimal :
    (max_size n : ℕ) (rest : Bytes) (d : ChunkedDecoder)
    → length (hexadecimal n) ≤ 8
    → (ltb 0 max_size && ltb max_size n) ≡ false
    → turn_size max_size (hexadecimal n ++ (crlf ++ rest)) d
      ≡ ok (record { chunk = []; buffer = rest; decoder = announced n d; again = true })
turn_size-hexadecimal max_size n rest d short fits =
    let line = hexadecimal n in
    let digits = hexadecimal-IsSizeByte n in
    turn_size-found max_size (length line) n (line ++ (crlf ++ rest)) rest d
      (find-crlf line rest digits)
      (ap (λ s. chunk_size max_size (size_field s)) (take-append line (crlf ++ rest))
        ∙ ap (chunk_size max_size) (size_field-same line digits)
        ∙ chunk_size-hexadecimal max_size n short fits)
      (drop-line line rest)

min-append : (s t : Bytes) → min (length (s ++ t)) (length s) ≡ length s
min-append s t = omega (arith, length-append s t)

after_chunk-crlf :
    (chunk rest : Bytes) (d : ChunkedDecoder)
    → after_chunk chunk (crlf ++ rest) d
      ≡ ok (record {
        chunk = chunk;
        buffer = rest;
        decoder = record d { state = size };
        again = true;
      })
after_chunk-crlf chunk rest d = refl

abbrev pub after : ChunkedDecoder → Bytes → Bytes → Turn
after d chunk rest = record {
  chunk = chunk;
  buffer = rest;
  decoder = record d { state = size; remaining = 0 };
  again = true;
}

turn_data-last :
    (chunk rest buffer : Bytes) (d : ChunkedDecoder)
    → min (length buffer) (length chunk) ≡ length chunk
    → d.remaining ≡ length chunk
    → take (length chunk) buffer ≡ chunk
    → drop (length chunk) buffer ≡ crlf ++ rest
    → turn_data buffer d ≡ ok (after d chunk rest)
unfolding turn_data
turn_data-last chunk rest buffer d whole n taken dropped =
    let none_left : length chunk - length chunk ≡ 0 = omega arith in
    rw (turn_data, n, whole, none_left, taken, dropped) refl

pub turn_data-chunk :
    (chunk rest : Bytes) (d : ChunkedDecoder)
    → d.remaining ≡ length chunk
    → turn_data (chunk ++ (crlf ++ rest)) d ≡ ok (after d chunk rest)
turn_data-chunk chunk rest d n =
    turn_data-last chunk rest (chunk ++ (crlf ++ rest)) d (min-append chunk (crlf ++ rest)) n
      (take-append chunk (crlf ++ rest)) (drop-append chunk (crlf ++ rest))

pub feed_fuel-again :
    (fuel max_size : ℕ) (buffer : Bytes) (d : ChunkedDecoder) (t : Turn)
    → turn max_size buffer d ≡ ok t
    → t.again ≡ true
    → feed_fuel (suc fuel) max_size buffer d
      ≡ prepend t.chunk (feed_fuel fuel max_size t.buffer t.decoder)
unfolding feed_fuel
feed_fuel-again fuel max_size buffer d t turned again = ground arith

pub feed_fuel-stop :
    (fuel max_size : ℕ) (buffer : Bytes) (d : ChunkedDecoder) (t : Turn)
    → turn max_size buffer d ≡ ok t
    → t.again ≡ false
    → feed_fuel (suc fuel) max_size buffer d ≡ last_turn t
unfolding feed_fuel
feed_fuel-stop fuel max_size buffer d t turned stops = ground arith

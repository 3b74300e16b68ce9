-- ===== src/Http1/Chunked/Split.antt =====
-- `ChunkedDecoder.feed` of echocorn/http1.py on input that arrives in two pieces.
use mathlib.Core.List.{append-nil}
use echocorn.Base.{
  ℕ, ◌+◌, ◌-◌, ◌≤◌, ◌<◌, min, ◌≡◌, refl, sym, ap, ◌∙◌, inl, inr, true, false, some, [], ◌∷◌, ◌++◌,
  length, take, drop, null, Bool-cases, Option-cases, arith, take-all, take-split, drop-front,
  drop-all, ◌==◌,
}
use echocorn.Base.Bytes.{Bytes, starts_with, find}
use echocorn.Http1.Error.{ok, ok-injective}
use echocorn.Http1.Chunked.{
  ChunkedDecoder, Turn, crlf, after_chunk, chunk_size, size_field, trailer_field, keep_trailer,
  turn_size, turn_data, turn_trailer,
}
use echocorn.Http1.Chunked.Turns.{turn_size-found}
use echocorn.Http1.Chunked.Decode.{Result-cases, find-le}

-- A line end that is found in front is the first, whatever stands behind.
find-front : (s t : Bytes) (i : ℕ) → find s crlf ≡ some i → find (s ++ t) crlf ≡ some i
unfolding find starts_with
find-front [] t i h = ground arith
find-front (c ∷ []) t i h = ground arith
find-front (c ∷ d ∷ s) t i h = elim (Option-cases (find (d ∷ s) crlf)) [
  | inl nowhere ↦ ground arith
  | inr (j, found) ↦ ground (arith, find-front (d ∷ s) t j found)
]

pub take-front : (n : ℕ) (s t : Bytes) → n ≤ length s → take n (s ++ t) ≡ take n s
take-front n s t h =
    let e : n - length s ≡ 0 = omega arith in
    take-split n s t ∙ ap (λ k. take n s ++ take k t) e ∙ append-nil (take n s)

-- a turn with more input behind what it leaves
abbrev pub more : Bytes → Turn → Turn
more s t = record t { buffer = t.buffer ++ s }

pub turn_size-front :
    (max_size : ℕ) (a b : Bytes) (d : ChunkedDecoder) (t : Turn)
    → turn_size max_size a d ≡ ok t
    → t.again ≡ true
    → turn_size max_size (a ++ b) d ≡ ok (more b t)
unfolding turn_size
turn_size-front max_size a b d t h again = elim (Option-cases (find a crlf)) [
  | inl nowhere ↦ ground arith
  | inr (i, found) ↦ elim (Result-cases (chunk_size max_size (size_field (take i a)))) [
    | inr refused ↦ ground arith
    | inl (n, sized) ↦
        let inside : i + 2 ≤ length a = find-le a crlf i found in
        let here = turn_size-found max_size i n a (drop (i + 2) a) d found sized refl in
        let there =
          turn_size-found max_size i n (a ++ b) (drop (i + 2) a ++ b) d (find-front a b i found)
            (ap (λ s. chunk_size max_size (size_field s)) (take-front i a b (omega arith)) ∙ sized)
            (drop-front (i + 2) a b inside) in
        there ∙ ap (λ u. ok (more b u)) (ok-injective _ t (sym here ∙ h))
  ]
]

turn_trailer-line :
    (i : ℕ) (buffer rest : Bytes) (field : Bytes × Bytes) (d : ChunkedDecoder)
    → find buffer crlf ≡ some i
    → null (take i buffer) ≡ false
    → trailer_field (take i buffer) ≡ ok field
    → drop (i + 2) buffer ≡ rest
    → turn_trailer buffer d
      ≡ ok (record { chunk = []; buffer = rest; decoder = keep_trailer field d; again = true })
unfolding turn_trailer
turn_trailer-line i buffer rest field d found some_bytes read dropped =
    rw (turn_trailer, found, some_bytes, read, dropped) refl

pub turn_trailer-front :
    (a b : Bytes) (d : ChunkedDecoder) (t : Turn)
    → turn_trailer a d ≡ ok t
    → t.again ≡ true
    → turn_trailer (a ++ b) d ≡ ok (more b t)
unfolding turn_trailer
turn_trailer-front a b d t h again = elim (Option-cases (find a crlf)) [
  | inl nowhere ↦ ground arith
  | inr (i, found) ↦ elim (Bool-cases (null (take i a))) [
    | inl last ↦ ground arith
    | inr some_bytes ↦ elim (Result-cases (trailer_field (take i a))) [
      | inr refused ↦ ground arith
      | inl (field, read) ↦
          let inside : i + 2 ≤ length a = find-le a crlf i found in
          let line = take-front i a b (omega arith) in
          let here = turn_trailer-line i a (drop (i + 2) a) field d found some_bytes read refl in
          let there =
            turn_trailer-line i (a ++ b) (drop (i + 2) a ++ b) field d (find-front a b i found)
              (ap null line ∙ some_bytes) (ap trailer_field line ∙ read)
              (drop-front (i + 2) a b inside) in
          there ∙ ap (λ u. ok (more b u)) (ok-injective _ t (sym here ∙ h))
    ]
  ]
]

unfoldable pub emptied : ChunkedDecoder → ChunkedDecoder
emptied d = record d { remaining = 0 }

-- enough input for what remains of the chunk
pub turn_data-whole :
    (a : Bytes) (d : ChunkedDecoder)
    → d.remaining ≤ length a
    → turn_data a d ≡ after_chunk (take d.remaining a) (drop d.remaining a) (emptied d)
unfolding turn_data emptied
turn_data-whole a d h =
    let e : min (length a) d.remaining ≡ d.remaining = omega arith in
    let z : d.remaining - d.remaining ≡ 0 = omega arith in rw (turn_data, e, z) refl

pub turn_data-part :
    (a : Bytes) (d : ChunkedDecoder)
    → length a < d.remaining
    → turn_data a d
      ≡ ok (record {
        chunk = a;
        buffer = [];
        decoder = record d { remaining = d.remaining - length a };
        again = false;
      })
unfolding turn_data
turn_data-part a d h =
    let e : min (length a) d.remaining ≡ length a = omega arith in
    let z : (d.remaining - length a == 0) ≡ false = ground arith in
    rw (turn_data, e, z, take-all (length a) a (omega arith), drop-all a) refl

pub after_chunk-front :
    (chunk rest b : Bytes) (d : ChunkedDecoder) (t : Turn)
    → after_chunk chunk rest d ≡ ok t
    → t.again ≡ true
    → after_chunk chunk (rest ++ b) d ≡ ok (more b t)
after_chunk-front chunk [] b d t h again = ground arith
after_chunk-front chunk (c ∷ []) b d t h again = ground arith
after_chunk-front chunk (c ∷ c' ∷ rest) b d t h again = ground arith

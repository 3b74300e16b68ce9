-- ===== src/Http1/Chunked/Join.antt =====
-- `ChunkedDecoder.feed` of echocorn/http1.py does not show how its input was cut.
use mathlib.Core.Path.{subst}
use mathlib.Core.List.{append-nil}
use echocorn.Base.{
  ℕ, ◌-◌, ◌≤◌, ◌<◌, ◌≡◌, refl, sym, ap, ◌∙◌, inl, inr, true, false, [], ◌∷◌, ◌++◌, length, take,
  drop, null, Bool-cases, Option-cases, arith, take-all, take-split, drop-front, drop-split,
  length-append, ltb, ltb→lt, ltb-false,
}
use echocorn.Base.Bytes.{Bytes, find}
use echocorn.Http1.Error.{Result, ok, err, ok-injective}
use echocorn.Http1.Chunked.{
  ChunkedDecoder, size, data_, trailer, Turn, crlf, after_chunk, chunk_size, size_field,
  trailer_field, turn, turn_size, turn_data, turn_trailer,
}
use echocorn.Http1.Chunked.Decode.{Result-cases}
use echocorn.Http1.Chunked.Split.{
  emptied, more, take-front, turn_size-front, turn_trailer-front, turn_data-whole, turn_data-part,
  after_chunk-front,
}

turn_data-front :
    (a b : Bytes) (d : ChunkedDecoder) (t : Turn)
    → turn_data a d ≡ ok t
    → t.again ≡ true
    → turn_data (a ++ b) d ≡ ok (more b t)
turn_data-front a b d t h again = elim (Bool-cases (ltb (length a) d.remaining)) [
  | inl part ↦
      let e = ok-injective _ t (sym (turn_data-part a d (ltb→lt _ _ part)) ∙ h) in
      absurd (false-true (ap (λ (u : Turn). u.again) e ∙ again))
  | inr whole ↦
      let enough : d.remaining ≤ length a = ltb-false _ _ whole in
      let longer : d.remaining ≤ length (a ++ b) = omega (arith, enough, length-append a b) in
      turn_data-whole (a ++ b) d longer
      ∙ ap (λ chunk. after_chunk chunk (drop d.remaining (a ++ b)) (emptied d))
          (take-front d.remaining a b enough)
      ∙ ap (λ rest. after_chunk (take d.remaining a) rest (emptied d))
          (drop-front d.remaining a b enough)
      ∙ after_chunk-front (take d.remaining a) (drop d.remaining a) b (emptied d) t
          (sym (turn_data-whole a d enough) ∙ h) again
]
  where
    false-true : false ≡ true → ⊥
    false-true h = cc

-- A turn that goes on does the same when more input stands behind.
pub turn-front :
    (max_size : ℕ) (a b : Bytes) (d : ChunkedDecoder) (t : Turn)
    → turn max_size a d ≡ ok t
    → t.again ≡ true
    → turn max_size (a ++ b) d ≡ ok (more b t)
unfolding turn
turn-front max_size a b d t h again =
    elim d.state as (λ s. d.state ≡ s → turn max_size (a ++ b) d ≡ ok (more b t)) [
      | size ↦ λ e. rw (turn, e) (turn_size-front max_size a b d t (ground arith) again)
      | data_ ↦ λ e. rw (turn, e) (turn_data-front a b d t (ground arith) again)
      | trailer ↦ λ e. rw (turn, e) (turn_trailer-front a b d t (ground arith) again)
    ]
      refl

-- A turn that waits and that is not in the data of a chunk leaves everything as it was.
abbrev pub Unchanged : Bytes → ChunkedDecoder → Turn → Type 0
Unchanged a d t = record { chunk = []; buffer = a; decoder = d; again = false } ≡ t

pub turn_size-stop :
    (max_size : ℕ) (a : Bytes) (d : ChunkedDecoder) (t : Turn)
    → turn_size max_size a d ≡ ok t
    → t.again ≡ false
    → Unchanged a d t
unfolding turn_size
turn_size-stop max_size a d t h stops = elim (Option-cases (find a crlf)) [
  | inl nowhere ↦ ground arith
  | inr (i, found) ↦ elim (Result-cases (chunk_size max_size (size_field (take i a)))) [
    | inr refused ↦ ground arith
    | inl (n, sized) ↦ ground arith
  ]
]

pub turn_trailer-stop :
    (a : Bytes) (d : ChunkedDecoder) (t : Turn)
    → turn_trailer a d ≡ ok t
    → t.again ≡ false
    → t.decoder.done ≡ false
    → Unchanged a d t
unfolding turn_trailer
turn_trailer-stop a d t h stops open_ = elim (Option-cases (find a crlf)) [
  | inl nowhere ↦ ground arith
  | inr (i, found) ↦ elim (Bool-cases (null (take i a))) [
    | inl last ↦ ground arith
    | inr some_bytes ↦ elim (Result-cases (trailer_field (take i a))) [
      | inr refused ↦ ground arith
      | inl (field, read) ↦ ground arith
    ]
  ]
]

-- Two turns agree when the first hands out some bytes before what the second does.
unfoldable pub TurnAgrees : Bytes → Result Turn → Result Turn → Type 0
TurnAgrees x (ok t) (ok t') =
    (t.chunk ≡ x ++ t'.chunk)
    × (t.buffer ≡ t'.buffer)
    × (t.decoder ≡ t'.decoder)
    × (t.again ≡ t'.again)
TurnAgrees x (err e) (err e') = e ≡ e'
TurnAgrees x _ _ = ⊥

after_chunk-agrees :
    (x y z : Bytes) (d : ChunkedDecoder)
    → TurnAgrees x (after_chunk (x ++ y) z d) (after_chunk y z d)
unfolding TurnAgrees
after_chunk-agrees x y [] d = (refl, refl, refl, refl)
after_chunk-agrees x y (c ∷ []) d = (refl, refl, refl, refl)
after_chunk-agrees x y (c ∷ c' ∷ z) d = ground arith

abbrev partial : Bytes → ChunkedDecoder → Turn
partial a d = record {
  chunk = a;
  buffer = [];
  decoder = record d { remaining = d.remaining - length a };
  again = false;
}

turn_data-agrees-part :
    (a b : Bytes) (d : ChunkedDecoder)
    → length a < d.remaining
    → TurnAgrees a
        (turn_data (a ++ b) d)
        (turn_data b (record d { remaining = d.remaining - length a }))
unfolding TurnAgrees emptied
turn_data-agrees-part a b d part =
    let r = d.remaining - length a in
    let d' : ChunkedDecoder = record d { remaining = r } in
    let longer = length-append a b in
    elim (Bool-cases (ltb (length b) r)) [
      | inl still ↦
          let short : length b < r = ltb→lt _ _ still in
          let left : d.remaining - length (a ++ b) ≡ r - length b = omega (arith, longer) in
          subst (λ x. TurnAgrees a x (turn_data b d'))
            (sym (turn_data-part (a ++ b) d (omega (arith, longer, short))))
            (subst (TurnAgrees a (ok (partial (a ++ b) d))) (sym (turn_data-part b d' short))
              (refl, refl, ap (λ n. record d { remaining = n }) left, refl))
      | inr enough ↦
          let all_there : r ≤ length b = ltb-false _ _ enough in
          let chunk : take d.remaining (a ++ b) ≡ a ++ take r b =
            take-split d.remaining a b
            ∙ ap (λ s. s ++ take r b) (take-all d.remaining a (omega (arith, part))) in
          let rest : drop d.remaining (a ++ b) ≡ drop r b =
            drop-split d.remaining a b (omega (arith, part)) in
          subst (λ x. TurnAgrees a x (turn_data b d'))
            (sym (
              turn_data-whole (a ++ b) d (omega (arith, longer, all_there))
              ∙ ap (λ s. after_chunk s (drop d.remaining (a ++ b)) (emptied d)) chunk
              ∙ ap (λ s. after_chunk (a ++ take r b) s (emptied d)) rest))
            (subst (TurnAgrees a (after_chunk (a ++ take r b) (drop r b) (emptied d)))
              (sym (turn_data-whole b d' all_there))
              (after_chunk-agrees a (take r b) (drop r b) (emptied d)))
    ]

after_chunk-stop :
    (x z : Bytes) (d : ChunkedDecoder) (t : Turn)
    → after_chunk x z d ≡ ok t
    → t.again ≡ false
    → record { chunk = x; buffer = z; decoder = d; again = false } ≡ t
after_chunk-stop x [] d t h stops = ok-injective _ t h
after_chunk-stop x (c ∷ []) d t h stops = ok-injective _ t h
after_chunk-stop x (c ∷ c' ∷ z) d t h stops = ground arith

-- how a chunk goes on behind a turn that waits for the rest of it
unfoldable pub DataAgrees : Bytes → Bytes → ChunkedDecoder → Turn → Type 0
DataAgrees a b d t =
    TurnAgrees t.chunk (turn_data (a ++ b) d) (turn_data (t.buffer ++ b) t.decoder)
    × (t.decoder.state ≡ d.state)

turn_data-agrees-whole :
    (a b : Bytes) (d : ChunkedDecoder)
    → d.remaining ≤ length a
    → TurnAgrees
        (take d.remaining a)
        (turn_data (a ++ b) d)
        (turn_data (drop d.remaining a ++ b) (emptied d))
unfolding TurnAgrees emptied
turn_data-agrees-whole a b d enough =
    let r = d.remaining in
    let x = take r a in
    let z = drop r a ++ b in
    let longer = length-append a b in
    let whole : turn_data (a ++ b) d ≡ after_chunk (x ++ []) z (emptied d) =
      turn_data-whole (a ++ b) d (omega (arith, longer, enough))
      ∙ ap (λ s. after_chunk s (drop r (a ++ b)) (emptied d))
          (take-front r a b enough ∙ sym (append-nil x))
      ∙ ap (λ s. after_chunk (x ++ []) s (emptied d)) (drop-front r a b enough) in
    let later : turn_data z (emptied d) ≡ after_chunk [] z (emptied d) =
      turn_data-whole z (emptied d) (omega arith) in
    subst (λ u. TurnAgrees x u (turn_data z (emptied d))) (sym whole)
      (subst (TurnAgrees x (after_chunk (x ++ []) z (emptied d))) (sym later)
        (after_chunk-agrees x [] z (emptied d)))

pub turn_data-agrees :
    (a b : Bytes) (d : ChunkedDecoder) (t : Turn)
    → turn_data a d ≡ ok t
    → t.again ≡ false
    → DataAgrees a b d t
unfolding DataAgrees emptied
turn_data-agrees a b d t h stops = elim (Bool-cases (ltb (length a) d.remaining)) [
  | inl part ↦
      let short : length a < d.remaining = ltb→lt _ _ part in
      subst (DataAgrees a b d) (ok-injective _ t (sym (turn_data-part a d short) ∙ h))
        (turn_data-agrees-part a b d short, refl)
  | inr whole ↦
      let enough : d.remaining ≤ length a = ltb-false _ _ whole in
      let same =
        after_chunk-stop (take d.remaining a) (drop d.remaining a) (emptied d) t
          (sym (turn_data-whole a d enough) ∙ h) stops in
      subst (DataAgrees a b d) same (turn_data-agrees-whole a b d enough, refl)
]

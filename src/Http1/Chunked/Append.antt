-- ===== src/Http1/Chunked/Append.antt =====
-- `ChunkedDecoder.feed` of echocorn/http1.py: two feeds come to the same as one.
use mathlib.Core.Path.{subst}
use echocorn.Base.{
  ℕ, zero, suc, ◌<◌, ◌≡◌, refl, sym, ap, ◌∙◌, inl, inr, true, false, ◌++◌, length, Bool-cases,
  arith,
}
use echocorn.Base.Bytes.{Bytes}
use echocorn.Http1.Error.{Result, ok, err, ok-injective}
use echocorn.Http1.Chunked.{
  ChunkedDecoder, Turn, Fed, prepend, last_turn, push_chunk, turn, feed_fuel, feed,
}
use echocorn.Http1.Chunked.Turns.{feed_fuel-again, feed_fuel-stop}
use echocorn.Http1.Chunked.Decode.{Result-cases, turn-shorter, feed-enough}
use echocorn.Http1.Chunked.Split.{more}
use echocorn.Http1.Chunked.Join.{turn-front}
use echocorn.Http1.Chunked.Stream.{
  joined, joined-push, joined-last, FedAgrees, prepend-more, GoesOn, turn-GoesOn,
}

feed-again :
    (max_size : ℕ) (a : Bytes) (d : ChunkedDecoder) (t : Turn)
    → turn max_size a d ≡ ok t
    → t.again ≡ true
    → feed max_size a d ≡ prepend t.chunk (feed max_size t.buffer t.decoder)
unfolding feed
feed-again max_size a d t h again =
    feed_fuel-again (length a) max_size a d t h again
    ∙ ap (prepend t.chunk) (
        feed-enough (length a) max_size t.buffer t.decoder
          (omega (arith, turn-shorter max_size a d t h again)))

-- what is still to come, of a feed that is not done
Resumes : ℕ → Bytes → Bytes → ChunkedDecoder → Fed → Type 0
Resumes max_size a b d fed =
    fed.decoder.done ≡ false
    → FedAgrees (joined fed.chunks) (feed max_size (a ++ b) d)
        (feed max_size (fed.buffer ++ b) fed.decoder)

pushed : Bytes → Fed → Fed
pushed chunk fed = record {
  chunks = push_chunk chunk fed.chunks;
  buffer = fed.buffer;
  decoder = fed.decoder;
}

again-Resumes :
    (max_size : ℕ) (a b : Bytes) (d : ChunkedDecoder) (t : Turn) (fed : Fed)
    → turn max_size a d ≡ ok t
    → t.again ≡ true
    → Resumes max_size t.buffer b t.decoder fed
    → Resumes max_size a b d (pushed t.chunk fed)
unfolding Resumes pushed
again-Resumes max_size a b d t fed h again resumes open_ =
    let later = feed max_size (fed.buffer ++ b) fed.decoder in
    let front =
      feed-again max_size (a ++ b) d (more b t) (turn-front max_size a b d t h again) again in
    subst (λ x. FedAgrees x (feed max_size (a ++ b) d) later) (sym (joined-push t.chunk fed.chunks))
      (subst (λ r. FedAgrees (t.chunk ++ joined fed.chunks) r later) (sym front)
        (prepend-more (joined fed.chunks) t.chunk (feed max_size (t.buffer ++ b) t.decoder) later
          (resumes open_)))

stop-Resumes :
    (max_size : ℕ) (a b : Bytes) (d : ChunkedDecoder) (t : Turn) (fed : Fed)
    → turn max_size a d ≡ ok t
    → t.again ≡ false
    → last_turn t ≡ ok fed
    → Resumes max_size a b d fed
unfolding Resumes GoesOn
stop-Resumes max_size a b d t fed h stops last =
    subst (Resumes max_size a b d) (ok-injective _ fed last) (λ open_.
      subst (λ x. FedAgrees x (feed max_size (a ++ b) d) (feed max_size (t.buffer ++ b) t.decoder))
        (sym (joined-last t.chunk)) (turn-GoesOn max_size a b d t h stops open_))

prepend-ok :
    (chunk : Bytes) (r : Result Fed) (fed : Fed)
    → prepend chunk r ≡ ok fed
    → (fed1 : Fed) × (r ≡ ok fed1) × (pushed chunk fed1 ≡ fed)
unfolding pushed
prepend-ok chunk (ok fed1) fed h = (fed1, refl, ok-injective _ fed h)
prepend-ok chunk (err e) fed h = cc

feed_fuel-Resumes :
    (fuel max_size : ℕ) (a b : Bytes) (d : ChunkedDecoder) (fed : Fed)
    → length a < fuel
    → feed_fuel fuel max_size a d ≡ ok fed
    → Resumes max_size a b d fed
unfolding feed_fuel
feed_fuel-Resumes zero max_size a b d fed low h = absurd (omega arith)
feed_fuel-Resumes (suc fuel) max_size a b d fed low h = elim (Result-cases (turn max_size a d)) [
  | inr refused ↦ absurd (ground arith)
  | inl (t, turned) ↦ elim (Bool-cases t.again) [
    | inl again ↦
        let cut = turn-shorter max_size a d t turned again in
        let (fed1, later, same) =
          prepend-ok t.chunk (feed_fuel fuel max_size t.buffer t.decoder) fed
            (sym (feed_fuel-again fuel max_size a d t turned again) ∙ h) in
        subst (Resumes max_size a b d) same (
          again-Resumes max_size a b d t fed1 turned again (
            feed_fuel-Resumes fuel max_size t.buffer b t.decoder fed1 (omega (arith, cut, low))
              later))
    | inr stops ↦
        stop-Resumes max_size a b d t fed turned stops
          (sym (feed_fuel-stop fuel max_size a d t turned stops) ∙ h)
  ]
]

-- How the network cuts a chunked body does not show: if the decoder takes a first piece of the input and is not
-- done, then feeding it what it left with the second piece behind comes to the same as feeding both at
-- once. The body bytes of the two feeds together are those of the one; the bytes left, the decoder's
-- state and its trailers are the same; and if either refuses the input, both do, with the same error.
pub feed-append :
    (max_size : ℕ) (a b : Bytes) (d : ChunkedDecoder) (fed : Fed)
    → feed max_size a d ≡ ok fed
    → fed.decoder.done ≡ false
    → FedAgrees
        (joined fed.chunks)
        (feed max_size (a ++ b) d)
        (feed max_size (fed.buffer ++ b) fed.decoder)
unfolding feed Resumes
feed-append max_size a b d fed h open_ =
    feed_fuel-Resumes (suc (length a)) max_size a b d fed (omega arith) h open_

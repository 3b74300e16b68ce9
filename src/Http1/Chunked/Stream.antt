-- ===== src/Http1/Chunked/Stream.antt =====
-- `ChunkedDecoder.feed` of echocorn/http1.py on a stream that arrives in pieces.
use mathlib.Core.Path.{subst}
use mathlib.Core.List.{append_assoc, append-nil}
use echocorn.Base.{
  ℕ, suc, ◌<◌, ◌≡◌, refl, sym, ap, ◌∙◌, inl, inr, true, false, List, [], ◌∷◌, ◌++◌, length,
  Bool-cases, arith,
}
use echocorn.Base.Bytes.{Bytes}
use echocorn.Http1.Error.{Result, ok, err}
use echocorn.Http1.Chunked.{
  ChunkedDecoder, size, data_, trailer, Turn, Fed, prepend, last_turn, push_chunk, turn, turn_data,
  feed_fuel, feed,
}
use echocorn.Http1.Chunked.Turns.{feed_fuel-again, feed_fuel-stop}
use echocorn.Http1.Chunked.Decode.{turn-shorter, feed_fuel-same}
use echocorn.Http1.Chunked.Join.{
  Unchanged, turn_size-stop, turn_trailer-stop, TurnAgrees, DataAgrees, turn_data-agrees,
}

abbrev pub joined : List Bytes → Bytes
joined [] = []
joined (chunk ∷ chunks) = chunk ++ joined chunks

pub joined-push :
    (chunk : Bytes) (chunks : List Bytes)
    → joined (push_chunk chunk chunks) ≡ chunk ++ joined chunks
joined-push [] chunks = refl
joined-push (c ∷ chunk) chunks = refl

-- Two results agree when the first hands out some bytes before the bytes of the second, and they are the
-- same in all else.
abbrev pub FedAgrees : Bytes → Result Fed → Result Fed → Type 0
FedAgrees x (ok f) (ok g) =
    (joined f.chunks ≡ x ++ joined g.chunks) × (f.buffer ≡ g.buffer) × (f.decoder ≡ g.decoder)
FedAgrees x (err e) (err e') = e ≡ e'
FedAgrees x _ _ = ⊥

prepend-agrees : (x c : Bytes) (r : Result Fed) → FedAgrees x (prepend (x ++ c) r) (prepend c r)
prepend-agrees x c (err e) = refl
prepend-agrees x c (ok f) = (
  joined-push (x ++ c) f.chunks
      ∙ append_assoc x c (joined f.chunks)
      ∙ ap (λ s. x ++ s) (sym (joined-push c f.chunks)),
  refl,
  refl,
)

pub prepend-more :
    (x c : Bytes) (r r' : Result Fed) → FedAgrees x r r' → FedAgrees (c ++ x) (prepend c r) r'
prepend-more x c (ok f) (ok g) h = (
  joined-push c f.chunks ∙ ap (λ s. c ++ s) h.0 ∙ sym (append_assoc c x (joined g.chunks)),
  h.1,
  h.2,
)
prepend-more x c (err e) (err e') h = h
prepend-more x c (ok f) (err e) h = absurd h
prepend-more x c (err e) (ok f) h = absurd h

pub joined-last : (chunk : Bytes) → joined (push_chunk chunk []) ≡ chunk
joined-last chunk = joined-push chunk [] ∙ append-nil chunk

feed_fuel-agrees :
    (m m' max_size : ℕ) (x b b' : Bytes) (d d' : ChunkedDecoder) (r r' : Result Turn)
    → turn max_size b d ≡ r
    → turn max_size b' d' ≡ r'
    → length b < suc m
    → length b' < suc m'
    → TurnAgrees x r r'
    → FedAgrees x (feed_fuel (suc m) max_size b d) (feed_fuel (suc m') max_size b' d')
unfolding TurnAgrees feed_fuel
feed_fuel-agrees m m' max_size x b b' d d' (err e) (err e') h h' low low' agrees =
    rw (feed_fuel, h, h') agrees
feed_fuel-agrees m m' max_size x b b' d d' (ok t) (err e') h h' low low' agrees = absurd agrees
feed_fuel-agrees m m' max_size x b b' d d' (err e) (ok t') h h' low low' agrees = absurd agrees
feed_fuel-agrees m m' max_size x b b' d d' (ok t) (ok t') h h' low low'
      (chunks, buffers, decoders, turns) =
    elim (Bool-cases t'.again) [
      | inl again' ↦
          let again : t.again ≡ true = turns ∙ again' in
          let cut = turn-shorter max_size b d t h again in
          let cut' = turn-shorter max_size b' d' t' h' again' in
          let rest = feed_fuel m' max_size t'.buffer t'.decoder in
          let same : feed_fuel m max_size t.buffer t.decoder ≡ rest =
            ap (λ s. feed_fuel m max_size s t.decoder) buffers
            ∙ ap (feed_fuel m max_size t'.buffer) decoders
            ∙ feed_fuel-same max_size m m' t'.buffer t'.decoder
                (omega (arith, cut, low, ap length buffers)) (omega (arith, cut', low')) in
          let left : feed_fuel (suc m) max_size b d ≡ prepend (x ++ t'.chunk) rest =
            feed_fuel-again m max_size b d t h again
            ∙ ap (prepend t.chunk) same
            ∙ ap (λ c. prepend c rest) chunks in
          subst (λ r. FedAgrees x r (feed_fuel (suc m') max_size b' d')) (sym left)
            (subst (FedAgrees x (prepend (x ++ t'.chunk) rest))
              (sym (feed_fuel-again m' max_size b' d' t' h' again'))
              (prepend-agrees x t'.chunk rest))
      | inr stops' ↦
          subst (λ r. FedAgrees x r (feed_fuel (suc m') max_size b' d'))
            (sym (feed_fuel-stop m max_size b d t h (turns ∙ stops')))
            (subst (FedAgrees x (last_turn t)) (sym (feed_fuel-stop m' max_size b' d' t' h' stops'))
              (
                joined-last t.chunk ∙ chunks ∙ ap (λ s. x ++ s) (sym (joined-last t'.chunk)),
                buffers,
                decoders,
              ))
    ]

FedAgrees-refl : (r : Result Fed) → FedAgrees [] r r
FedAgrees-refl (ok f) = (refl, refl, refl)
FedAgrees-refl (err e) = refl

-- What follows a turn that waits: more input is taken as if it had stood behind from the start.
unfoldable pub GoesOn : ℕ → Bytes → Bytes → ChunkedDecoder → Turn → Type 0
GoesOn max_size a b d t =
    FedAgrees t.chunk (feed max_size (a ++ b) d) (feed max_size (t.buffer ++ b) t.decoder)

Unchanged-GoesOn :
    (max_size : ℕ) (a b : Bytes) (d : ChunkedDecoder) (t : Turn)
    → Unchanged a d t
    → GoesOn max_size a b d t
unfolding GoesOn
Unchanged-GoesOn max_size a b d t h =
    subst (GoesOn max_size a b d) h (FedAgrees-refl (feed max_size (a ++ b) d))

turn-data :
    (max_size : ℕ) (s : Bytes) (d : ChunkedDecoder)
    → d.state ≡ data_
    → turn max_size s d ≡ turn_data s d
unfolding turn
turn-data max_size s d h = ground arith

DataAgrees-GoesOn :
    (max_size : ℕ) (a b : Bytes) (d : ChunkedDecoder) (t : Turn)
    → d.state ≡ data_
    → DataAgrees a b d t
    → GoesOn max_size a b d t
unfolding GoesOn DataAgrees feed
DataAgrees-GoesOn max_size a b d t h (agrees, same) =
    feed_fuel-agrees (length (a ++ b)) (length (t.buffer ++ b)) max_size t.chunk (a ++ b)
      (t.buffer ++ b) d t.decoder (turn_data (a ++ b) d) (turn_data (t.buffer ++ b) t.decoder)
      (turn-data max_size (a ++ b) d h) (turn-data max_size (t.buffer ++ b) t.decoder (same ∙ h))
      (omega arith) (omega arith) agrees

pub turn-GoesOn :
    (max_size : ℕ) (a b : Bytes) (d : ChunkedDecoder) (t : Turn)
    → turn max_size a d ≡ ok t
    → t.again ≡ false
    → t.decoder.done ≡ false
    → GoesOn max_size a b d t
unfolding turn
turn-GoesOn max_size a b d t h stops open_ =
    elim d.state as (λ s. d.state ≡ s → GoesOn max_size a b d t) [
      | size ↦ λ e.
          Unchanged-GoesOn max_size a b d t (turn_size-stop max_size a d t (ground arith) stops)
      | data_ ↦
          λ e. DataAgrees-GoesOn max_size a b d t e (turn_data-agrees a b d t (ground arith) stops)
      | trailer ↦ λ e.
          Unchanged-GoesOn max_size a b d t (turn_trailer-stop a d t (ground arith) stops open_)
    ]
      refl

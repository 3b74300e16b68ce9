-- ===== src/Http1/Response/Chunks.antt =====
-- A chunked body that echocorn/http1.py writes: the decoder of the same file reads it back.
use mathlib.Core.Path.{subst}
use mathlib.Core.List.{append_assoc, append-nil}
use echocorn.Base.{
  ℕ, ◌≡◌, refl, sym, ap, ◌∙◌, Bool, true, false, none, List, [], ◌∷◌, ◌++◌, length, null, All, all,
  arith,
}
use echocorn.Base.Bytes.{Bytes}
use echocorn.Base.Numerals.{hexadecimal}
use echocorn.Http1.Error.{ok}
use echocorn.Http1.Chunked.{crlf, init, feed, push_chunk, trailer}
use echocorn.Http1.Chunked.Encode.{encode_chunk, encode_body, last_chunk}
use echocorn.Http1.Chunked.RoundTrip.{Fits, encode_body-feed}
use echocorn.Http1.Writer.{Env, Scope, Writer, write, write_chunk}
use echocorn.Http1.Start.{continue_, break_}
use echocorn.Http1.Response.Loop.{write_response-continues, last-writer}
use echocorn.Http1.Response.{
  Message, start, body, trailers, finished, on_body, on_message, end_body, write_body, write_plain,
  write_response, close_response,
}

-- A chunked response that is started, not compressed, and has no trailers to come.
abbrev pub IsChunked : Writer → Type 0
IsChunked w =
    (w.started ≡ true)
    × (w.discard_body ≡ false)
    × (w.compressor ≡ none)
    × (w.chunked ≡ true)
    × (w.declared_length ≡ none)
    × (w.trailers_expected ≡ false)
    × (w.aborted ≡ false)

abbrev pub is_body : Message → Bool
is_body (start status items announced more) = false
is_body (body s more gave_up) = true
is_body (trailers items more) = false

-- The pieces of the body that are not empty, up to the message that ends it.
abbrev pub pieces : List Message → List Bytes
pieces [] = []
pieces (start status items announced more ∷ messages) = pieces messages
pieces (body s true gave_up ∷ messages) = push_chunk s (pieces messages)
pieces (body s false gave_up ∷ messages) = push_chunk s []
pieces (trailers items more ∷ messages) = pieces messages

-- The writer behind one that has written some bytes more, unless the connection is closed.
unfoldable pub Wrote : Bytes → Writer → Writer → Type 0
Wrote s w w' =
    (w'.closed ≡ false → (w.closed ≡ false) × (w'.wire ≡ w.wire ++ s))
    × (w'.keep_alive ≡ true → w.keep_alive ≡ true)

abbrev pub framed : Bytes → Bytes
framed [] = []
framed (c ∷ s) = encode_chunk (c ∷ s)

encode_chunk-null : (s : Bytes) → null (encode_chunk s) ≡ false
unfolding encode_chunk
encode_chunk-null s = append-null (hexadecimal (length s)) 13 (10 ∷ s ++ crlf)
  where
    append-null : (a : Bytes) (c : ℕ) (b : Bytes) → null (a ++ (c ∷ b)) ≡ false
    append-null [] c b = refl
    append-null (x ∷ a) c b = refl

pub write_body-Wrote :
    (env : Env) (s : Bytes) (more : Bool) (w : Writer)
    → IsChunked w
    → IsChunked (write_body env s more w) × Wrote (framed s) w (write_body env s more w)
unfolding write_body write_plain write_chunk write Wrote
write_body-Wrote env [] more w h = ground (arith, append-nil w.wire)
write_body-Wrote env (c ∷ s) more w h = ground (arith, encode_chunk-null (c ∷ s))

pub Wrote-append :
    (s t : Bytes) (w w' w'' : Writer) → Wrote s w w' → Wrote t w' w'' → Wrote (s ++ t) w w''
unfolding Wrote
Wrote-append s t w w' w'' p q = ground (arith, append_assoc w.wire s t)

-- the last chunk, and what stands behind the loop
ended-Wrote :
    (env : Env) (scope : Scope) (w : Writer)
    → IsChunked w
    → Wrote last_chunk w (close_response env scope (write env last_chunk w))
unfolding close_response write Wrote
ended-Wrote env scope w h = ground arith

pub on_body-chunk :
    (env : Env) (s : Bytes) (gave_up : Bool) (w : Writer)
    → IsChunked w
    → on_body env s true gave_up w ≡ continue_ (write_body env s true w)
unfolding on_body end_body
on_body-chunk env s gave_up w h = ground arith

on_body-end :
    (env : Env) (s : Bytes) (w : Writer)
    → IsChunked w
    → on_body env s false false w ≡ break_ (write env last_chunk (write_body env s false w))
unfolding on_body end_body
on_body-end env s w h = ground (arith, write_body-Wrote env s false w h)

on_body-gave_up :
    (env : Env) (s : Bytes) (w : Writer)
    → IsChunked w
    → on_body env s false true w ≡ break_ (record w { aborted = true })
unfolding on_body
on_body-gave_up env s w h = ground arith

gave_up-Wrote :
    (env : Env) (scope : Scope) (s : Bytes) (w : Writer)
    → IsChunked w
    → Wrote s w (close_response env scope (record w { aborted = true }))
unfolding close_response Wrote
gave_up-Wrote env scope s w h = ground arith

encode_body-push :
    (s : Bytes) (chunks : List Bytes) (rest : Bytes)
    → encode_body (push_chunk s chunks) rest ≡ framed s ++ encode_body chunks rest
unfolding encode_body
encode_body-push [] chunks rest = refl
encode_body-push (c ∷ s) chunks rest = refl

encode_body-append :
    (chunks : List Bytes) (rest : Bytes) → encode_body chunks rest ≡ encode_body chunks [] ++ rest
unfolding encode_body
encode_body-append [] rest = refl
encode_body-append (chunk ∷ chunks) rest =
    ap (λ t. encode_chunk chunk ++ t) (encode_body-append chunks rest)
    ∙ sym (append_assoc (encode_chunk chunk) (encode_body chunks []) rest)

run-Wrote :
    (env : Env) (scope : Scope) (messages : List Message) (w w' : Writer)
    → IsChunked w
    → all is_body messages ≡ true
    → write_response env scope messages w ≡ finished w'
    → Wrote (encode_body (pieces messages) []) w w'
unfolding write_response on_message encode_body
run-Wrote env scope [] w w' h bodies run = cc
run-Wrote env scope (start status items announced more ∷ messages) w w' h bodies run = cc
run-Wrote env scope (trailers items more ∷ messages) w w' h bodies run = cc
run-Wrote env scope (body s true gave_up ∷ messages) w w' h bodies run =
    let w1 = write_body env s true w in
    let (still, piece) = write_body-Wrote env s true w h in
    let next =
      write_response-continues env scope (body s true gave_up) messages w w1
        (on_body-chunk env s gave_up w h) in
    subst (λ t. Wrote t w w') (sym (encode_body-push s (pieces messages) []))
      (Wrote-append (framed s) (encode_body (pieces messages) []) w w1 w' piece
        (run-Wrote env scope messages w1 w' still bodies (sym next ∙ run)))
run-Wrote env scope (body s false true ∷ messages) w w' h bodies run =
    subst (Wrote (encode_body (push_chunk s []) []) w)
      (last-writer env scope (body s false true) messages w (record w { aborted = true }) w'
        (on_body-gave_up env s w h) run)
      (gave_up-Wrote env scope (encode_body (push_chunk s []) []) w h)
run-Wrote env scope (body s false false ∷ messages) w w' h bodies run =
    let w1 = write_body env s false w in
    let (still, piece) = write_body-Wrote env s false w h in
    subst (λ t. Wrote t w w') (sym (encode_body-push s [] []))
      (Wrote-append (framed s) last_chunk w w1 w' piece (
        subst (Wrote last_chunk w1)
          (last-writer env scope (body s false false) messages w (write env last_chunk w1) w'
            (on_body-end env s w h) run)
          (ended-Wrote env scope w1 still)))

-- A chunked response without compression and without trailers, all of whose remaining messages are
-- body messages, ends like this unless the connection is closed: behind the head stand bytes that the
-- decoder of the same file, at the end of which any bytes may follow, reads as exactly the pieces
-- that the application sent, the empty ones left out, and nothing of what follows is taken. Each piece is
-- under four gigabytes and within the decoder's limit.
pub write_response-feed :
    (env : Env) (scope : Scope) (max_size : ℕ) (messages : List Message) (rest : Bytes)
    (w w' : Writer)
    → IsChunked w
    → all is_body messages ≡ true
    → All (Fits max_size) (pieces messages)
    → write_response env scope messages w ≡ finished w'
    → w'.closed ≡ false
    → (t : Bytes) × (w'.wire ≡ w.wire ++ t)
      × (feed max_size (t ++ rest) init
          ≡ ok (record {
            chunks = pieces messages;
            buffer = rest;
            decoder = record { state = trailer; remaining = 0; done = true; trailers = [] };
          }))
unfolding Wrote
write_response-feed env scope max_size messages rest w w' h bodies fit run open_ =
    let (_, written) = (run-Wrote env scope messages w w' h bodies run).0 open_ in
    (
      encode_body (pieces messages) [],
      written,
      ap (λ b. feed max_size b init) (sym (encode_body-append (pieces messages) rest))
          ∙ encode_body-feed max_size (pieces messages) rest fit,
    )

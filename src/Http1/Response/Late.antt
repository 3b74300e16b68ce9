-- ===== src/Http1/Response/Late.antt =====
-- Trailers that nobody announced, in the response writer of echocorn/http1.py.
use mathlib.Core.Path.{subst}
use mathlib.Core.List.{append-nil}
use echocorn.Base.{◌≡◌, refl, sym, ◌∙◌, Bool, true, false, none, List, [], ◌∷◌, ◌++◌, all, arith}
use echocorn.Base.Bytes.{Bytes}
use echocorn.Utils.Headers.{Item}
use echocorn.Http1.Writer.{Env, Scope, Writer, write, write_chunk}
use echocorn.Http1.Chunked.Encode.{encode_chunk}
use echocorn.Http1.Start.{break_}
use echocorn.Http1.Response.Loop.{write_response-continues, last-writer}
use echocorn.Http1.Response.Chunks.{
  IsChunked, Wrote, framed, write_body-Wrote, Wrote-append, on_body-chunk,
}
use echocorn.Http1.Response.{
  Message, start, body, trailers, finished, on_trailers, on_message, write_body, write_plain,
  write_response, close_response,
}

on_trailers-late :
    (env : Env) (items : List Item) (w : Writer)
    → w.awaiting_trailers ≡ false
    → on_trailers env items false w ≡ break_ w
unfolding on_trailers
on_trailers-late env items w h = ground arith

close_response-same :
    (env : Env) (scope : Scope) (w : Writer)
    → w.started ≡ true
    → w.aborted ≡ false
    → w.declared_length ≡ none
    → close_response env scope w ≡ w
unfolding close_response
close_response-same env scope w started kept unbounded = ground arith

-- a piece of the body with more to follow
abbrev pub goes_on : Message → Bool
goes_on (start status items announced more) = false
goes_on (body s more gave_up) = more
goes_on (trailers items more) = false

-- The chunks of the pieces that are not empty, without an end.
unfoldable pub chunks_of : List Message → Bytes
unfolding encode_chunk
chunks_of [] = []
chunks_of (start status items announced more ∷ messages) = chunks_of messages
chunks_of (body s more gave_up ∷ messages) = framed s ++ chunks_of messages
chunks_of (trailers items more ∷ messages) = chunks_of messages

-- the writer keeps the connection, and has opened no trailer section
IsOpen : Bool → Writer → Type 0
IsOpen keep w = IsChunked w × (w.awaiting_trailers ≡ false) × (w.keep_alive ≡ keep)

write_body-IsOpen :
    (env : Env) (s : Bytes) (keep : Bool) (w : Writer)
    → IsOpen keep w
    → IsOpen keep (write_body env s true w)
unfolding write_body write_plain write_chunk write IsOpen
write_body-IsOpen env [] keep w h = ground arith
write_body-IsOpen env (c ∷ s) keep w h = ground arith

ended-Wrote :
    (env : Env) (scope : Scope) (items : List Item) (later : List Message) (keep : Bool)
    (w w' : Writer)
    → IsOpen keep w
    → write_response env scope (trailers items false ∷ later) w ≡ finished w'
    → Wrote [] w w' × (w'.keep_alive ≡ keep)
unfolding on_message Wrote IsOpen
ended-Wrote env scope items later keep w w' h run =
    let same : w ≡ w' =
      sym (close_response-same env scope w (ground arith) (ground arith) (ground arith))
      ∙ last-writer env scope (trailers items false) later w w w'
          (on_trailers-late env items w (ground arith)) run in
    subst
      (λ v.
        ((v.closed ≡ false → (w.closed ≡ false) × (v.wire ≡ w.wire ++ []))
          × (v.keep_alive ≡ true → w.keep_alive ≡ true))
        × (v.keep_alive ≡ keep))
      same (((λ open_. (open_, sym (append-nil w.wire))), λ kept. kept), ground arith)

IsOpen-IsChunked : (keep : Bool) (w : Writer) → IsOpen keep w → IsChunked w
unfolding IsOpen
IsOpen-IsChunked keep w h = h.0

run-Wrote :
    (env : Env) (scope : Scope) (messages : List Message) (items : List Item) (later : List Message)
    (keep : Bool) (w w' : Writer)
    → IsOpen keep w
    → all goes_on messages ≡ true
    → write_response env scope (messages ++ (trailers items false ∷ later)) w ≡ finished w'
    → Wrote (chunks_of messages) w w' × (w'.keep_alive ≡ keep)
unfolding on_message chunks_of
run-Wrote env scope [] items later keep w w' h bodies run =
    ended-Wrote env scope items later keep w w' h run
run-Wrote env scope (start status fields announced more ∷ messages) items later keep w w' h bodies
      run =
    cc
run-Wrote env scope (trailers fields more ∷ messages) items later keep w w' h bodies run = cc
run-Wrote env scope (body s false gave_up ∷ messages) items later keep w w' h bodies run = cc
run-Wrote env scope (body s true gave_up ∷ messages) items later keep w w' h bodies run =
    let w1 = write_body env s true w in
    let next =
      write_response-continues env scope (body s true gave_up)
        (messages ++ (trailers items false ∷ later)) w w1
        (on_body-chunk env s gave_up w (IsOpen-IsChunked keep w h)) in
    let (wrote, kept) =
      run-Wrote env scope messages items later keep w1 w' (write_body-IsOpen env s keep w h) bodies
        (sym next ∙ run) in
    (
      Wrote-append (framed s) (chunks_of messages) w w1 w'
          (write_body-Wrote env s true w (IsOpen-IsChunked keep w h)).1 wrote,
      kept,
    )

-- A chunked response without compression and without announced trailers whose application sends any
-- number of pieces with more to follow and then a last trailers message is over with it, whatever is
-- sent later: unless the connection is closed, the chunks of the pieces that are not empty are all that
-- is written, without the last chunk that the peer waits for, and the connection is kept for the next
-- request if it was to be.
pub write_response-trailers :
    (env : Env) (scope : Scope) (messages : List Message) (items : List Item) (later : List Message)
    (w w' : Writer)
    → IsChunked w
    → w.awaiting_trailers ≡ false
    → all goes_on messages ≡ true
    → write_response env scope (messages ++ (trailers items false ∷ later)) w ≡ finished w'
    → (w'.keep_alive ≡ w.keep_alive) × (w'.closed ≡ false → w'.wire ≡ w.wire ++ chunks_of messages)
unfolding Wrote IsOpen
write_response-trailers env scope messages items later w w' h unopened bodies run =
    let (wrote, kept) =
      run-Wrote env scope messages items later w.keep_alive w w' (h, unopened, refl) bodies run in
    (kept, λ open_. (wrote.0 open_).1)

-- ===== src/Http1/Response.antt =====
-- `_write_response` of echocorn/http1.py: the writer's answer to each ASGI message.
pub mod Delimited
pub mod Length
pub mod Loop
pub mod Late
mod Tests
pub mod Finish
pub mod Chunks
use echocorn.Base.{
  ℕ, ◌+◌, ◌-◌, Bool, true, false, ◌&&◌, not, none, some, List, [], ◌∷◌, ◌++◌, length, null,
  if◌then◌else◌, ltb, ◌==◌, take, is_some,
}
use echocorn.Base.Bytes.{Bytes, codes}
use echocorn.Utils.Headers.{Item, normalize_response_headers}
use echocorn.Http1.Chunked.{crlf}
use echocorn.Http1.Chunked.Encode.{last_chunk}
use echocorn.Http1.Writer.{
  Env, Scope, Writer, write, write_chunk, field_lines, write_error_response,
}
use echocorn.Http1.Start.{Pass, continue_, break_, raise_, on_start}

-- What `ASGIRequest.send` queued. Python's `message.get("more_body", True)` reads a start message too.
pub data Message : Type 0 where
  start : ℕ → List Item → Bool → Bool → Message
  body : Bytes → Bool → Bool → Message
  trailers : List Item → Bool → Message

-- a piece of a body that is not compressed
unfoldable pub write_plain : Env → Bytes → Writer → Writer
unfolding write_chunk
write_plain env data_ w =
    let whole = write_chunk env data_ (record w { body_bytes = w.body_bytes + length data_ }) in
    elim w.declared_length [
      | none ↦ whole
      | some n ↦
          if not w.chunked && ltb n (w.body_bytes + length data_)
          then (let w' : Writer = record w { keep_alive = false } in
              let allowed = n - w.body_bytes in
              let cut = take allowed data_ in
              if ltb 0 allowed
              then write_chunk env cut (record w' { body_bytes = w.body_bytes + length cut })
              else w')
          else whole
    ]

unfoldable pub write_compressed : Env → Bytes × List Bytes → Bytes → Bool → Writer → Writer
unfolding write_chunk
write_compressed env (encoding, seen) data_ more w =
    let given = if null data_ then seen else seen ++ (data_ ∷ []) in
    let out = env.compress encoding seen data_ in
    let w1 =
      if null data_
      then w
      else write_chunk env out (record w {
        compressor = some (encoding, given);
        body_bytes = w.body_bytes + length out;
      }) in
    if more then w1 else write_chunk env (env.flush encoding given) w1

unfoldable pub write_body : Env → Bytes → Bool → Writer → Writer
unfolding write_plain write_compressed
write_body env data_ more w = elim w.compressor [
  | some c ↦ write_compressed env c data_ more w
  | none ↦ if null data_ then w else write_plain env data_ w
]

-- What zlib is asked behind its `flush`, which it answers by raising: a body message while trailers are
-- awaited, unless it holds nothing and goes on.
unfoldable pub is_spent : Bytes → Bool → Writer → Bool
is_spent data_ more w = w.awaiting_trailers && is_some w.compressor && not (null data_ && more)

unfoldable pub end_body : Env → Bool → Writer → Pass
unfolding write
end_body env more w =
    if more
    then continue_ w
    else if w.chunked && w.trailers_expected
    then continue_ (record (write env (codes "0\r\n") w) { awaiting_trailers = true })
    else break_ (if w.chunked then write env last_chunk w else w)

unfoldable pub on_body : Env → Bytes → Bool → Bool → Writer → Pass
unfolding write_body end_body is_spent
on_body env data_ more gave_up w =
    if not w.started
    then continue_ w
    else if w.discard_body
    then (if more then continue_ w else break_ w)
    else if not more && gave_up
    then break_ (record w { aborted = true })
    else if is_spent data_ more w
    then raise_ w
    else end_body env more (write_body env data_ more w)

unfoldable pub on_trailers : Env → List Item → Bool → Writer → Pass
unfolding write normalize_response_headers
on_trailers env items more w =
    let payload = field_lines (normalize_response_headers items false []) in
    if not w.awaiting_trailers
    then (if more then continue_ w else break_ w)
    else if more
    then continue_ (write env payload w)
    else break_ (write env (payload ++ crlf) w)

unfoldable pub on_message : Env → Scope → Message → Writer → Pass
unfolding on_start on_body on_trailers
on_message env scope (start status items announced more) w =
    on_start env scope status items announced more w
on_message env scope (body data_ more gave_up) w = on_body env data_ more gave_up w
on_message env scope (trailers items more) w = on_trailers env items more w

-- what stands behind the loop
unfoldable pub close_response : Env → Scope → Writer → Writer
unfolding write_error_response
close_response env scope w =
    let w1 : Writer = if w.aborted then (record w { keep_alive = false; closed = true }) else w in
    let w2 : Writer = elim w1.declared_length [
      | none ↦ w1
      | some n ↦ if w1.body_bytes == n then w1 else (record w1 { keep_alive = false })
    ] in
    if w2.started then w2 else write_error_response env scope 500 w2

-- The writer waits for a message, or is over.
pub data Run : Type 0 where
  waiting : Writer → Run
  finished : Writer → Run

abbrev pub writer : Run → Writer
writer (waiting w) = w
writer (finished w) = w

-- what an exception leaves
abbrev pub failed_writer : Writer → Writer
failed_writer w = record w { keep_alive = false; closed = true }

unfoldable pub write_response : Env → Scope → List Message → Writer → Run
unfolding on_message close_response
write_response env scope [] w = waiting w
write_response env scope (message ∷ messages) w = elim (on_message env scope message w) [
  | continue_ w' ↦ write_response env scope messages w'
  | break_ w' ↦ finished (close_response env scope w')
  | raise_ w' ↦ finished (failed_writer w')
]

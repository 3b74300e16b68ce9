-- ===== src/Http1/Reader.antt =====
-- The request side of `HTTP11Handler` of echocorn/http1.py behind the head: reading the body, giving it
-- up, and the step to the next request. What the reader, the application, the writer and the peer do
-- are events, in any order; where the source awaits, an event that cannot go on changes nothing.
pub mod Sync
pub mod Next
mod Tests
use echocorn.Base.{
  ℕ, zero, suc, ◌+◌, ◌-◌, min, Bool, true, false, ◌&&◌, ◌||◌, not, Option, none, some, List, [],
  ◌∷◌, ◌++◌, length, take, drop, null, leb, ltb, ◌==◌, if◌then◌else◌,
}
use echocorn.Base.Bytes.{Bytes}
use echocorn.Http1.Error.{Result, ok, err}
use echocorn.Http1.Chunked.{ChunkedDecoder, init, feed}
use echocorn.Utils.Asgi.{
  AsgiRequest, Received, Feed, feed_ok, feed_full, feed_gone, feed_request, mark_finished,
  notify_disconnect, receive,
}
use echocorn.Http1.Drain.{
  State, Connection, max_drain_bytes, max_requests, drain_chunks, drain_decoder, drain_length,
  is_chunked, in_body, try_drain, abandon_body, idle, body, chunked, waiting, websocket,
}

-- `_fail_request`, and the error answer that closes the connection
unfoldable pub refuse : ℕ → Connection → Connection
unfolding notify_disconnect
refuse status c = record c {
  keep_alive = false;
  request = notify_disconnect c.request;
  pending = [];
  offered = false;
  refused = some status;
  closed = true;
}

-- `_emit_body` of the first chunk that is pending, counted before
unfoldable pub offer : Bytes → List Bytes → Connection → Connection
unfolding feed_request abandon_body
offer chunk chunks c =
    let (answer, request) = feed_request (Received.request chunk true) 0 c.request in
    elim answer [
      | feed_ok ↦ record c { request = request; pending = chunks; offered = false }
      | feed_full ↦ c
      | feed_gone ↦ abandon_body c
    ]

abbrev pub counted : Bytes → Connection → Connection
counted chunk c =
    if c.offered then c else (record c { body_bytes = c.body_bytes + length chunk; offered = true })

-- One turn of the loop around `_emit_body`, with `max_request_size`.
unfoldable pub emit : ℕ → Connection → Connection
unfolding offer refuse
emit limit c = elim c.pending [
  | [] ↦ c
  | chunk ∷ chunks ↦
      let c' = counted chunk c in
      if ltb 0 limit && ltb limit c'.body_bytes then refuse 413 c' else offer chunk chunks c'
]

-- `_finish_request`
unfoldable pub finish_request : Connection → Connection
unfolding feed_request
finish_request c =
    let (answer, request) = feed_request (Received.request [] false) 0 c.request in
    elim answer [
      | feed_full ↦ c
      | feed_ok ↦ record c { request = request; state = waiting }
      | feed_gone ↦ record c { request = request; state = waiting }
    ]

-- One turn of the loop in `_read_content_length_body`, up to the chunk that it hands out.
unfoldable pub read_length : Connection → Connection
unfolding finish_request
read_length c =
    let taken = min (length c.buffer) c.body_remaining in
    if c.body_remaining == 0 then finish_request c else if null c.buffer then c else (record c {
      buffer = drop taken c.buffer;
      body_remaining = c.body_remaining - taken;
      pending = take taken c.buffer ∷ [];
    })

-- `_read_chunked_body`, up to the chunks that it hands out
unfoldable pub read_chunked : ℕ → Connection → Connection
unfolding feed finish_request refuse
read_chunked limit c = elim c.chunked_decoder [
  | none ↦ c
  | some d ↦
      if d.done
      then finish_request c
      else if null c.buffer
      then c
      else elim (feed limit c.buffer d) [
        | err e ↦ refuse e.status c
        | ok fed ↦ record c {
          buffer = fed.buffer;
          chunked_decoder = some fed.decoder;
          pending = fed.chunks;
        }
      ]
]

-- `_await_response`
unfoldable pub await_response : Connection → Connection
await_response c =
    if not c.has_request
    then (record c { state = idle })
    else if not c.request.response_complete
    then c
    else (let served = suc c.requests_served in
        let kept = c.keep_alive && ltb served max_requests in
        let c' : Connection = record c {
          chunked_decoder = none;
          body_remaining = 0;
          has_request = false;
          requests_served = served;
          keep_alive = kept;
        } in
        if kept then (record c' { state = idle }) else (record c' { closed = true }))

-- One turn of the reader, which is not suspended; a new head is read by `accept_head`.
unfoldable pub read : ℕ → Connection → Connection
unfolding read_length read_chunked await_response
read limit c = elim c.state [
  | idle ↦ c
  | body ↦ if c.has_request then read_length c else c
  | chunked ↦ if c.has_request then read_chunked limit c else c
  | waiting ↦ await_response c
  | websocket ↦ c
]

-- `_on_response_finished`
unfoldable pub on_response_finished : Connection → Connection
unfolding try_drain
on_response_finished c =
    if not c.has_request || c.closed || not (in_body c.state)
    then c
    else (let (drained, c') = try_drain c in
        if drained
        then (record c' { state = waiting; body_remaining = 0; chunked_decoder = none })
        else (record c' { state = waiting; keep_alive = false }))

-- the end of `_write_response`
unfoldable pub finish_response : Connection → Connection
unfolding mark_finished on_response_finished
finish_response c =
    let c' = on_response_finished (record c { request = mark_finished c.request }) in
    record c' { request = record c'.request { response_complete = true } }

-- `_start_request` once the head is accepted: the new exchange, and how its body is read.
unfoldable pub accept_head : Bool → Bool → Option ℕ → AsgiRequest → Connection → Connection
unfolding feed_request
accept_head keep_alive is_chunked' content_length request c =
    let c' : Connection = record c {
      request = request;
      has_request = true;
      keep_alive = keep_alive;
      body_bytes = 0;
    } in
    let bodiless : Connection = record c' {
      state = waiting;
      request = (feed_request (Received.request [] false) 0 request).1;
    } in
    if is_chunked'
    then (record c' { state = chunked; chunked_decoder = some init })
    else elim content_length [
      | none ↦ bodiless
      | some n ↦ if n == 0 then bodiless else (record c' { state = body; body_remaining = n })
    ]

-- `connection_lost`
unfoldable pub connection_lost : Connection → Connection
unfolding notify_disconnect
connection_lost c = record c {
  closed = true;
  request = if c.has_request then notify_disconnect c.request else c.request;
  buffer = [];
}

pub data Event : Type 0 where
  data_received : Bytes → Event
  reader_turn : Event
  emit_turn : Event
  app_receives : Event
  response_finished : Event
  keep_alive_dropped : Event
  lost : Event

-- what an event does
unfoldable pub handle_open : ℕ → Event → Connection → Connection
unfolding read emit receive finish_response connection_lost
handle_open limit (data_received s) c = record c { buffer = c.buffer ++ s }
handle_open limit reader_turn c = if null c.pending then read limit c else c
handle_open limit emit_turn c = emit limit c
handle_open limit app_receives c = record c { request = (receive c.request).1 }
handle_open limit response_finished c = finish_response c
handle_open limit keep_alive_dropped c = record c { keep_alive = false }
handle_open limit lost c = connection_lost c

-- what a closed connection leaves alone: input, and the reader, which is cancelled
abbrev pub needs_open : Event → Bool
needs_open (data_received s) = true
needs_open reader_turn = true
needs_open emit_turn = true
needs_open _ = false

unfoldable pub handle : ℕ → Event → Connection → Connection
unfolding handle_open
handle limit event c = if c.closed && needs_open event then c else handle_open limit event c

abbrev pub handle_all : ℕ → List Event → Connection → Connection
handle_all limit [] c = c
handle_all limit (event ∷ events) c = handle_all limit events (handle limit event c)

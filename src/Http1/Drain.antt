-- ===== src/Http1/Drain.antt =====
-- The connection that `HTTP11Handler` of echocorn/http1.py is, and how a body that nobody reads is given
-- up: `_try_drain_buffered` and `_abandon_body`.
use echocorn.Base.{
  ℕ, zero, suc, ◌-◌, Bool, true, false, ◌||◌, Option, none, some, List, [], length, drop, null, ltb,
  ◌==◌, if◌then◌else◌,
}
use echocorn.Base.Bytes.{Bytes}
use echocorn.Http1.Error.{ok, err}
use echocorn.Http1.Chunked.{ChunkedDecoder, feed}
use echocorn.Utils.Asgi.{AsgiRequest}

pub data State : Type 0 where
  idle body chunked waiting websocket : State

-- `request` is the exchange, if `has_request`. `pending` is what a suspended reader still has to hand
-- out, `offered` whether the first of it has been counted.
pub record Connection : Type 0 where
  pub state : State
  pub buffer : Bytes
  pub body_remaining : ℕ
  pub chunked_decoder : Option ChunkedDecoder
  pub body_bytes : ℕ
  pub pending : List Bytes
  pub offered : Bool
  pub has_request : Bool
  pub request : AsgiRequest
  pub keep_alive : Bool
  pub requests_served : ℕ
  pub refused : Option ℕ
  pub closed : Bool

abbrev pub max_drain_bytes : ℕ
max_drain_bytes = 65536

abbrev pub max_requests : ℕ
max_requests = 1000

-- The loop of `_try_drain_buffered`; whether the decoder got to its end, and what is left. Each turn
-- takes a byte, so the buffer's length is enough fuel.
unfoldable pub drain_chunks : ℕ → ℕ → Bytes → ChunkedDecoder → Bool × Bytes × ChunkedDecoder
unfolding feed
drain_chunks zero budget buffer d = (false, buffer, d)
drain_chunks (suc fuel) budget buffer d =
    if d.done
    then (true, buffer, d)
    else if null buffer
    then (false, buffer, d)
    else elim (feed 0 buffer d) [
      | err e ↦ (false, buffer, d)
      | ok fed ↦
          let consumed = length buffer - length fed.buffer in
          if consumed == 0
          then (false, fed.buffer, fed.decoder)
          else if ltb budget consumed
          then (false, fed.buffer, fed.decoder)
          else drain_chunks fuel (budget - consumed) fed.buffer fed.decoder
    ]

unfoldable pub drain_decoder : Connection → Bool × Connection
unfolding drain_chunks
drain_decoder c = elim c.chunked_decoder [
  | none ↦ (false, c)
  | some d ↦
      let (drained, buffer, d') = drain_chunks (suc (length c.buffer)) max_drain_bytes c.buffer d in
      (drained, record c { buffer = buffer; chunked_decoder = some d' })
]

unfoldable pub drain_length : Connection → Bool × Connection
drain_length c =
    if c.body_remaining == 0
    then (true, c)
    else if ltb max_drain_bytes c.body_remaining || ltb (length c.buffer) c.body_remaining
    then (false, c)
    else (true, record c { buffer = drop c.body_remaining c.buffer; body_remaining = 0 })

abbrev pub is_chunked : State → Bool
is_chunked chunked = true
is_chunked _ = false

abbrev pub in_body : State → Bool
in_body body = true
in_body chunked = true
in_body _ = false

-- `_try_drain_buffered`
unfoldable pub try_drain : Connection → Bool × Connection
unfolding drain_decoder drain_length
try_drain c = if is_chunked c.state then drain_decoder c else drain_length c

-- `_abandon_body`, of a connection that has a request
unfoldable pub abandon_body : Connection → Connection
unfolding try_drain
abandon_body c =
    let (drained, c') = try_drain c in
    let over : Connection = record c' { state = waiting; pending = []; offered = false } in
    if drained then over else (record over { keep_alive = false })

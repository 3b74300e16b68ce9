-- ===== src/Http1/Reader/Next.antt =====
-- The next request on a connection of echocorn/http1.py, behind a body of an announced length, whatever
-- happens in between.
use mathlib.Core.Path.{subst}
use echocorn.Base.{
  if-true, if-false, inl, inr, some, ◌<◌, ℕ, ◌-◌, ◌≤◌, ◌≡◌, sym, ap, Bool, true, false, List, [],
  ◌∷◌, ◌++◌, length, drop, arith, Bool-cases, length-append, drop-front, ◌&&◌,
}
use echocorn.Base.Bytes.{Bytes}
use echocorn.Utils.Asgi.{AsgiRequest}
use echocorn.Http1.Drain.{idle, Connection}
use echocorn.Http1.Reader.{
  connection_lost, Event, data_received, reader_turn, emit_turn, app_receives, response_finished,
  keep_alive_dropped, lost, accept_head, needs_open, handle_open, handle, handle_all,
}
use echocorn.Http1.Reader.Sync.{
  InSync, drop-whole, finish_response-InSync, emit-InSync, read-InSync,
}

received-InSync :
    (n : ℕ) (input s : Bytes) (c : Connection)
    → InSync n input c
    → InSync n (input ++ s) (record c { buffer = c.buffer ++ s })
received-InSync n input s c h =
    ground (arith, drop-front (n - c.body_remaining) input s, length-append input s)

-- the input behind an event
abbrev pub heard : Bytes → Event → Bytes
heard input (data_received s) = input ++ s
heard input _ = input

InSync-closed :
    (n : ℕ) (input input' : Bytes) (c : Connection)
    → c.closed ≡ true
    → InSync n input c
    → InSync n input' c
InSync-closed n input input' c shut h = ground arith

handle_open-InSync :
    (limit n : ℕ) (input : Bytes) (event : Event) (c : Connection)
    → InSync n input c
    → InSync n (heard input event) (handle_open limit event c)
unfolding handle_open connection_lost
handle_open-InSync limit n input (data_received s) c h = received-InSync n input s c h
handle_open-InSync limit n input reader_turn c h = ground (arith, read-InSync limit n input c h)
handle_open-InSync limit n input emit_turn c h = emit-InSync limit n input c h
handle_open-InSync limit n input app_receives c h = h
handle_open-InSync limit n input response_finished c h = finish_response-InSync n input c h
handle_open-InSync limit n input keep_alive_dropped c h = ground arith
handle_open-InSync limit n input lost c h = ground arith

handle-InSync :
    (limit n : ℕ) (input : Bytes) (event : Event) (c : Connection)
    → InSync n input c
    → InSync n (heard input event) (handle limit event c)
unfolding handle
handle-InSync limit n input event c h = elim (Bool-cases (c.closed && needs_open event)) [
  | inl shut ↦
      subst (InSync n (heard input event)) (sym (if-true _ _ shut))
        (InSync-closed n input (heard input event) c (ground arith) h)
  | inr open_ ↦
      subst (InSync n (heard input event)) (sym (if-false _ _ open_))
        (handle_open-InSync limit n input event c h)
]

abbrev pub heard_all : Bytes → List Event → Bytes
heard_all input [] = input
heard_all input (event ∷ events) = heard_all (heard input event) events

handle_all-InSync :
    (limit n : ℕ) (input : Bytes) (events : List Event) (c : Connection)
    → InSync n input c
    → InSync n (heard_all input events) (handle_all limit events c)
handle_all-InSync limit n input [] c h = h
handle_all-InSync limit n input (event ∷ events) c h =
    handle_all-InSync limit n (heard input event) events (handle limit event c)
      (handle-InSync limit n input event c h)

drop-zero : (n : ℕ) (input : Bytes) → drop (n - n) input ≡ input
drop-zero n input = let e : n - n ≡ 0 = omega arith in ap (λ k. drop k input) e

accept_head-InSync :
    (kept : Bool) (n : ℕ) (request : AsgiRequest) (c : Connection)
    → 0 < n
    → InSync n c.buffer (accept_head kept false (some n) request c)
unfolding accept_head
accept_head-InSync kept n request c positive = ground (arith, drop-zero n c.buffer)

idle-lem :
    (n : ℕ) (input : Bytes) (c : Connection)
    → InSync n input c
    → c.state ≡ idle
    → c.closed ≡ false
    → c.keep_alive ≡ true
    → (c.buffer ≡ drop n input) × (n ≤ length input)
idle-lem n input c h at_rest open_ keep = ground (arith, drop-whole n c.body_remaining input)

-- A request has a body of an announced length, not zero. Whatever the peer sends, and however the
-- turns of the reader, the receives of the application, the end of its answer and the loss of the
-- connection come in between: when the connection is back between two requests and is to be used
-- again, the buffer holds what was received from the head on without exactly as many first bytes as
-- were announced, and no fewer had been received.
pub handle_all-next :
    (limit n : ℕ) (kept : Bool) (events : List Event) (request : AsgiRequest) (c c' : Connection)
    → 0 < n
    → handle_all limit events (accept_head kept false (some n) request c) ≡ c'
    → c'.state ≡ idle
    → c'.closed ≡ false
    → c'.keep_alive ≡ true
    → (c'.buffer ≡ drop n (heard_all c.buffer events)) × (n ≤ length (heard_all c.buffer events))
handle_all-next limit n kept events request c c' positive run at_rest open_ keep =
    let start = accept_head kept false (some n) request c in
    let synced =
      handle_all-InSync limit n c.buffer events start
        (accept_head-InSync kept n request c positive) in
    idle-lem n (heard_all c.buffer events) c'
      (subst (InSync n (heard_all c.buffer events)) run synced) at_rest open_ keep

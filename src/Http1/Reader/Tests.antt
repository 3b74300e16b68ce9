-- ===== src/Http1/Reader/Tests.antt =====
-- Runs of the request side of echocorn/http1.py at concrete inputs.
use echocorn.Base.{◌≤◌, ◌≡◌, refl, true, false, none, some, List, [], ◌∷◌, arith, drop, length}
use echocorn.Base.Bytes.{codes}
use echocorn.Utils.Asgi.{AsgiRequest}
use echocorn.Http1.Drain.{Connection, idle}
use echocorn.Http1.Reader.{
  Event, data_received, reader_turn, emit_turn, app_receives, response_finished, accept_head,
  handle_all,
}
use echocorn.Http1.Reader.Next.{handle_all-next}

abbrev request : AsgiRequest
request = echocorn.Utils.Asgi.init 16 32 false

abbrev resting : Connection
resting = record {
  state = idle;
  buffer = codes "ab";
  body_remaining = 0;
  chunked_decoder = none;
  body_bytes = 0;
  pending = [];
  offered = false;
  has_request = false;
  request = request;
  keep_alive = true;
  requests_served = 0;
  refused = none;
  closed = false;
}

-- The application answers when two of the five bytes have been read; the rest is taken off the buffer.
abbrev early_answer : List Event
early_answer =
    reader_turn ∷ emit_turn ∷ data_received (codes "cdeGET") ∷ response_finished ∷ reader_turn ∷ []

early_run :
    (handle_all 0 early_answer (accept_head true false (some 5) request resting)).buffer
    ≡ codes "GET"
unfolding echocorn.Http1.Reader.handle accept_head echocorn.Utils.Asgi.init
early_run = refl

handle_all-next_example :
    ((handle_all 0 early_answer (accept_head true false (some 5) request resting)).buffer
      ≡ drop 5 (codes "abcdeGET"))
    × (5 ≤ length (codes "abcdeGET"))
unfolding echocorn.Http1.Reader.handle accept_head echocorn.Utils.Asgi.init
handle_all-next_example =
    handle_all-next 0 5 true early_answer request resting
      (handle_all 0 early_answer (accept_head true false (some 5) request resting)) (omega arith)
      refl refl refl refl

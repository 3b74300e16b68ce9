-- ===== src/Utils/Asgi.antt =====
-- `ASGIRequest` of echocorn/utils.py: the queues and flags of one exchange. An `await` that waits is
-- a result of its own, so that what other tasks do meanwhile is a step of theirs.
pub mod Endings
use echocorn.Base.{
  ℕ, ◌+◌, ◌≡◌, refl, Bool, true, false, ◌&&◌, ◌||◌, not, Option, none, some, List, [], ◌∷◌, ◌++◌,
  leb, ltb, length, if◌then◌else◌, null, ◌==◌,
}
use echocorn.Base.Bytes.{Bytes, codes}
use echocorn.Utils.Headers.{Headers, Item, Field, pair, malformed}

-- What the protocol handler feeds in, with the flow-control size beside it.
pub data Received : Type 0 where
  request : Bytes → Bool → Received
  disconnect : Received

-- A response message on its way to the writer.
pub data Message : Type 0 where
  start : ℕ → Headers → Bool → Message
  body : Bytes → Bool → Bool → Message
  trailers : Headers → Bool → Message

pub record AsgiRequest : Type 0 where
  pub recv_q : List (Received × ℕ)
  pub recv_maxsize : ℕ
  pub send_q : List Message
  pub send_maxsize : ℕ
  pub recv_space : Bool
  pub send_space : Bool
  pub response_started : Bool
  pub response_complete : Bool
  pub finished : Bool
  pub disconnected : Bool
  pub on_first_receive : Bool
  pub trailers_announced : Bool
  pub trailers_sent : Bool
  pub body_ended : Bool
  pub aborted : Bool

unfoldable pub init : ℕ → ℕ → Bool → AsgiRequest
init recv_maxsize send_maxsize on_first_receive = record {
  recv_q = [];
  recv_maxsize = recv_maxsize;
  send_q = [];
  send_maxsize = send_maxsize;
  recv_space = true;
  send_space = true;
  response_started = false;
  response_complete = false;
  finished = false;
  disconnected = false;
  on_first_receive = on_first_receive;
  trailers_announced = false;
  trailers_sent = false;
  body_ended = false;
  aborted = false;
}

-- `Queue.full`; a queue of size 0 is never full.
abbrev pub full {ℓ} : {A : Type ℓ} → ℕ → List A → Bool
full maxsize q = not (maxsize == 0) && leb maxsize (length q)

-- `recv_q.put_nowait`, `QueueFull` swallowed
unfoldable put_received : Received → ℕ → AsgiRequest → AsgiRequest
put_received message flow_size r =
    if full r.recv_maxsize r.recv_q
    then r
    else (record r { recv_q = r.recv_q ++ ((message, flow_size) ∷ []) })

pub data Feed : Type 0 where
  feed_ok feed_full feed_gone : Feed

unfoldable pub feed_request : Received → ℕ → AsgiRequest → Feed × AsgiRequest
unfolding put_received
feed_request message flow_size r =
    if r.finished || r.disconnected
    then (feed_gone, r)
    else if full r.recv_maxsize r.recv_q
    then (feed_full, r)
    else (feed_ok, put_received message flow_size r)

unfoldable pub notify_disconnect : AsgiRequest → AsgiRequest
unfolding put_received
notify_disconnect r =
    put_received disconnect 0 (record r { disconnected = true; finished = true; recv_space = true })

unfoldable pub mark_finished : AsgiRequest → AsgiRequest
unfolding put_received
mark_finished r =
    let r' : AsgiRequest = record r { finished = true; send_space = true; recv_space = true } in
    if r.disconnected then r' else put_received disconnect 0 (record r' { disconnected = true })

-- The writer takes the next message, if there is one.
unfoldable next_response_message : AsgiRequest → Option Message × AsgiRequest
next_response_message r = elim r.send_q [
  | [] ↦ (none, r)
  | message ∷ rest ↦ (some message, record r { send_q = rest; send_space = true })
]

-- What `receive` does at once: whether the callback runs, the message, and the bytes acknowledged.
pub record Receipt : Type 0 where
  pub called_back : Bool
  pub message : Option Received
  pub acknowledged : ℕ

unfoldable pub receive : AsgiRequest → Receipt × AsgiRequest
receive r =
    let r' : AsgiRequest = record r { on_first_receive = false } in
    elim r.recv_q [
      | [] ↦ (
        record {
          called_back = r.on_first_receive;
          message = if r.disconnected then some disconnect else none;
          acknowledged = 0;
        },
        r',
      )
      | (message, flow_size) ∷ rest ↦ (
        record {
          called_back = r.on_first_receive;
          message = some message;
          acknowledged = flow_size;
        },
        record r' { recv_q = rest; recv_space = true },
      )
    ]

-- What an application may hand to `send`. A status that is no `int`, a body that is no buffer:
-- `none`. The flags are those that `dict.get` finds, with the defaults put in.
pub data AppMessage : Type 0 where
  response_start : Option ℕ → List Item → Bool → AppMessage
  response_body : Option Bytes → Bool → Bool → AppMessage
  response_trailers : Headers → Bool → AppMessage
  unsupported : AppMessage
  not_a_dict : AppMessage

pub data SendError : Type 0 where
  type_error value_error runtime_error : SendError

-- What `send` makes of a message before it queues it.
pub data Prepared : Type 0 where
  prepared : Message → Prepared
  ignored : Prepared
  raised : SendError → Prepared

-- The header list of a start message, or the `ValueError`.
unfoldable pub checked_headers : List Item → Option Headers
checked_headers [] = some []
checked_headers (pair (Field.bytes name) (Field.bytes value) ∷ items) =
    elim (checked_headers items) [ none ↦ none | some rest ↦ some ((name, value) ∷ rest) ]
checked_headers (_ ∷ items) = none

abbrev valid_status : Option ℕ → Bool
valid_status none = false
valid_status (some status) = leb 100 status && leb status 999

unfoldable pub prepare_start : ℕ → List Item → Bool → AsgiRequest → Prepared × AsgiRequest
unfolding checked_headers
prepare_start status items announced r =
    let r' : AsgiRequest = record r { response_started = true; trailers_announced = announced } in
    let done : AsgiRequest → Prepared × AsgiRequest = λ s. elim (checked_headers items) [
      | none ↦ (raised value_error, s)
      | some headers ↦ (prepared (start status headers announced), s)
    ] in
    if leb 200 status
    then (if r.response_started then (raised runtime_error, r) else done r')
    else done r

unfoldable pub prepare : AppMessage → AsgiRequest → Prepared × AsgiRequest
unfolding prepare_start
prepare not_a_dict r = (raised type_error, r)
prepare unsupported r = (ignored, r)
prepare (response_start none items announced) r = (raised value_error, r)
prepare (response_start (some status) items announced) r =
    if valid_status (some status)
    then prepare_start status items announced r
    else (raised value_error, r)
prepare (response_body none more aborted) r =
    if not r.response_started then (raised runtime_error, r) else (raised value_error, r)
prepare (response_body (some data_) more aborted) r =
    if not r.response_started then (raised runtime_error, r) else (
      prepared (body data_ more aborted),
      if not more && not aborted then (record r { body_ended = true }) else r,
    )
prepare (response_trailers headers more) r =
    if not r.response_started then (raised runtime_error, r) else (
      prepared (trailers headers more),
      record r { trailers_sent = true; body_ended = if not more then true else r.body_ended },
    )

pub data Enqueued : Type 0 where
  queued dropped waits : Enqueued

-- One turn of `_enqueue`: queue the message, give up on a finished response, or wait for space.
unfoldable enqueue : Message → AsgiRequest → Enqueued × AsgiRequest
enqueue message r =
    if r.finished
    then (dropped, r)
    else if full r.send_maxsize r.send_q
    then (waits, record r { send_space = false })
    else (queued, record r { send_q = r.send_q ++ (message ∷ []) })

-- How the application ended, a cancellation apart.
pub data Outcome : Type 0 where
  returned response_aborted exception : Outcome

abbrev pub end_message : Bool → Message
end_message aborted = body [] false aborted

-- `_finish`: what it puts, and the flags that it leaves.
unfoldable pub finish : AsgiRequest → List Message × AsgiRequest
finish r =
    if r.trailers_announced && not r.trailers_sent
    then (trailers [] false ∷ [], record r { trailers_sent = true })
    else if r.body_ended
    then ([], r)
    else (end_message false ∷ [], r)

abbrev canned : ℕ → Bytes → List Message
canned status text = start status [] false ∷ body text false false ∷ []

-- `run_app` once the application is over: the messages that it puts, in order.
unfoldable pub run_app_end : Outcome → AsgiRequest → List Message × AsgiRequest
unfolding finish
run_app_end response_aborted r =
    if r.response_started && not r.body_ended
    then (end_message true ∷ [], record r { aborted = true })
    else if r.response_started
    then ([], r)
    else (canned 502 (codes "Bad Gateway"), record r { response_started = true })
run_app_end exception r =
    if not r.response_started
    then (canned 500 (codes "Internal Server Error"), record r { response_started = true })
    else if not r.body_ended
    then (end_message true ∷ [], record r { aborted = true })
    else if r.trailers_announced && not r.trailers_sent
    then finish r
    else ([], r)
run_app_end returned r =
    if r.response_complete
    then ([], r)
    else if not r.response_started
    then (let (rest, r') = finish (record r { response_started = true }) in
        (start 204 [] false ∷ rest, r'))
    else finish r

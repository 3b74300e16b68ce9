-- ===== src/Redirect/Protocol.antt =====
-- `RedirectProtocol` of echocorn/redirect.py as a state machine: its callbacks, what it writes, and
-- its place in the server's set of connections. The reason phrases of `http.HTTPStatus`, the date and
-- the server's name are parameters; the transport takes every byte.
pub mod Once
use echocorn.Base.{
  ℕ, ◌+◌, Bool, true, false, ◌&&◌, ◌||◌, not, Option, none, some, List, [], ◌∷◌, ◌++◌, leb, ltb,
  ◌==◌, length, take, null, if◌then◌else◌, is_some,
}
use echocorn.Base.Bytes.{Bytes, bytes_eq, codes, lower, strip, find}
use echocorn.Utils.Response.{response_has_body}
use echocorn.Redirect.Location.{ServerConfig}
use echocorn.Base.Numerals.{decimal}
use echocorn.Redirect.Reply.{Reply, refusal, reply_to}

pub record Surroundings : Type 0 where
  pub config : ServerConfig
  pub https_port : Option ℕ
  pub status_phrase : ℕ → Bytes
  pub date : Bytes
  pub server_header : Bytes

pub record RedirectProtocol : Type 0 where
  pub transport : Bool
  pub buffer : Bytes
  pub timer : Bool
  pub answered : Bool
  pub closed : Bool
  pub released : Bool
  -- what the transport was given, and how often it was closed or reset
  pub written : List Bytes
  pub closes : ℕ
  pub resets : ℕ
  -- whether the set of connections holds this one, and how often its release was announced
  pub listed : Bool
  pub releases : ℕ

unfoldable pub init : RedirectProtocol
init = record {
  transport = false;
  buffer = [];
  timer = false;
  answered = false;
  closed = false;
  released = false;
  written = [];
  closes = 0;
  resets = 0;
  listed = true;
  releases = 0;
}

unfoldable pub release : RedirectProtocol → RedirectProtocol
release s =
    if s.released
    then s
    else (record s { released = true; listed = false; releases = s.releases + 1 })

abbrev cancel_timer : RedirectProtocol → RedirectProtocol
cancel_timer s = record s { timer = false }

abbrev close_transport : RedirectProtocol → RedirectProtocol
close_transport s = if s.transport then (record s { closes = s.closes + 1 }) else s

abbrev reset_transport : RedirectProtocol → RedirectProtocol
reset_transport s = if s.transport then (record s { resets = s.resets + 1 }) else s

unfoldable pub close : RedirectProtocol → RedirectProtocol
unfolding release
close s =
    if s.closed then s else release (close_transport (cancel_timer (record s { closed = true })))

abbrev write : Bytes → RedirectProtocol → RedirectProtocol
write data_ s = if s.transport then (record s { written = s.written ++ (data_ ∷ []) }) else s

abbrev line_end : Bytes
line_end = 13 ∷ 10 ∷ []

-- the text of the body: the status, and the reason where it adds something
unfoldable body_of : Surroundings → Reply → Bytes
unfolding decimal lower strip bytes_eq
body_of env reply =
    let phrase = env.status_phrase reply.status in
    let adds =
      not (null reply.reason) && not (bytes_eq (lower (strip reply.reason)) (lower phrase)) in
    decimal reply.status
    ++ codes " "
    ++ phrase
    ++ (if adds then 10 ∷ reply.reason else [])
    ++ (10 ∷ [])

abbrev location_field : Option Bytes → Bytes
location_field none = []
location_field (some location) = codes "location: " ++ location ++ line_end

abbrev retry_field : Option ℕ → Bytes
retry_field none = []
retry_field (some seconds) = codes "retry-after: " ++ decimal seconds ++ line_end

unfoldable pub response_of : Surroundings → Reply → Bytes
unfolding body_of response_has_body decimal
response_of env reply =
    let body = body_of env reply in
    let method = if null reply.method then codes "GET" else reply.method in
    codes "HTTP/1.1 "
    ++ decimal reply.status
    ++ codes " "
    ++ env.status_phrase reply.status
    ++ line_end
    ++ codes "content-type: text/plain; charset=utf-8"
    ++ line_end
    ++ codes "content-length: "
    ++ decimal (length body)
    ++ line_end
    ++ codes "date: "
    ++ env.date
    ++ line_end
    ++ codes "server: "
    ++ env.server_header
    ++ line_end
    ++ location_field reply.location
    ++ retry_field reply.retry_after
    ++ codes "connection: close"
    ++ line_end
    ++ line_end
    ++ (if response_has_body method reply.status then body else [])

-- `_answer`, its log line left out
unfoldable pub answer : Surroundings → Reply → RedirectProtocol → RedirectProtocol
unfolding close response_of
answer env reply s =
    if s.answered
    then s
    else close (write (response_of env reply) (cancel_timer (record s { answered = true })))

-- `connection_made`, with `connections` connections in the set
unfoldable pub connection_made : Surroundings → ℕ → RedirectProtocol → RedirectProtocol
unfolding answer
connection_made env connections s =
    let s' : RedirectProtocol = record s { transport = true } in
    if not (env.config.max_connections == 0) && ltb env.config.max_connections connections
    then answer env (refusal 503 (codes "connection limit reached") (codes "GET") []) s'
    else if ltb 0 env.config.request_timeout
    then (record s' { timer = true })
    else s'

abbrev pub head_end : Bytes
head_end = 13 ∷ 10 ∷ 13 ∷ 10 ∷ []

-- the answer that the buffer calls for, if it does
unfoldable pub due_reply : Surroundings → Option ℕ → Bytes → Option Reply
unfolding reply_to find
due_reply env wait buffer =
    if ltb env.config.max_header_size (length buffer)
    then some (refusal 431 (codes "request head too large") (codes "GET") [])
    else elim (find buffer head_end) [
      | none ↦ none
      | some index ↦ some (reply_to env.config env.https_port wait (take index buffer))
    ]

abbrev pub answer_due : Surroundings → RedirectProtocol → Option Reply → RedirectProtocol
answer_due env s none = s
answer_due env s (some reply) = answer env reply s

abbrev pub with_data : Bytes → RedirectProtocol → RedirectProtocol
with_data data_ s = record s { buffer = s.buffer ++ data_ }

-- `data_received`; `wait` is what the rate limiter says if it is asked.
unfoldable pub data_received : Surroundings → Option ℕ → Bytes → RedirectProtocol → RedirectProtocol
unfolding answer due_reply
data_received env wait data_ s =
    if s.answered || s.closed
    then s
    else answer_due env (with_data data_ s) (due_reply env wait (s.buffer ++ data_))

unfoldable pub connection_lost : RedirectProtocol → RedirectProtocol
unfolding release
connection_lost s = release (cancel_timer (record s { closed = true }))

unfoldable pub abort : RedirectProtocol → RedirectProtocol
unfolding release
abort s = release (reset_transport (cancel_timer (record s { closed = true })))

unfoldable pub expire : RedirectProtocol → RedirectProtocol
unfolding release
expire s =
    if s.answered || s.closed then cancel_timer s else release (reset_transport (cancel_timer s))

-- What the event loop and the server call: the callbacks, the timer, and the shutdown hooks.
pub data Event : Type 0 where
  made : ℕ → Event
  received : Option ℕ → Bytes → Event
  eof lost shutdown aborted expired : Event

unfoldable pub step : Surroundings → Event → RedirectProtocol → RedirectProtocol
unfolding connection_made data_received connection_lost abort expire close
step env (made connections) s = connection_made env connections s
step env (received wait data_) s = data_received env wait data_ s
step env eof s = close s
step env lost s = connection_lost s
step env shutdown s = close s
step env aborted s = abort s
step env expired s = expire s

unfoldable pub run : Surroundings → List Event → RedirectProtocol → RedirectProtocol
unfolding step
run env [] s = s
run env (event ∷ events) s = run env events (step env event s)

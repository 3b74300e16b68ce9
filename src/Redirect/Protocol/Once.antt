-- ===== src/Redirect/Protocol/Once.antt =====
-- One connection of echocorn/redirect.py is answered once, closed once and released once.
use echocorn.Base.{
  if-true, if-false, none, some, ap, ◌∙◌, ltb-false, ◌<◌, ◌+◌, ◌⊎◌, inl, inr, ◌&&◌, ◌||◌, Option,
  List, ◌++◌, Option-cases, Bool-cases, ltb, take, if-both, ◌==◌, is_some, refl, ℕ, ◌≤◌, ◌≡◌, Bool,
  true, false, not, [], ◌∷◌, length, length-append, arith,
}
use echocorn.Base.Bytes.{Bytes, find, codes}
use echocorn.Redirect.Reply.{refusal, reply_to, Reply}
use echocorn.Redirect.Protocol.{
  due_reply, answer_due, with_data, connection_made, data_received, Event, made, received, eof,
  lost, shutdown, aborted, expired, step, run, head_end, Surroundings, RedirectProtocol, init,
  release, close, answer, connection_lost, abort, expire, response_of,
}

-- how often something happens that a flag guards
abbrev once : Bool → ℕ
once true = 1
once false = 0

-- At most one answer, none before the connection is marked as answered; a release is announced once,
-- and takes the connection out of the set; who has answered has closed and released.
abbrev pub IsValid : RedirectProtocol → Type 0
IsValid s =
    (length s.written ≤ once s.answered)
    × (s.releases ≡ once s.released)
    × (s.listed ≡ not s.released)
    × (s.answered ≡ true → s.closed ≡ true)
    × (s.closed ≡ true → s.released ≡ true)

init-IsValid : IsValid init
unfolding init
init-IsValid = ground arith

close-IsValid : (s : RedirectProtocol) → IsValid s → IsValid (close s)
unfolding close release
close-IsValid s v = ground arith

connection_lost-IsValid : (s : RedirectProtocol) → IsValid s → IsValid (connection_lost s)
unfolding connection_lost release
connection_lost-IsValid s v = ground arith

abort-IsValid : (s : RedirectProtocol) → IsValid s → IsValid (abort s)
unfolding abort release
abort-IsValid s v = ground arith

expire-IsValid : (s : RedirectProtocol) → IsValid s → IsValid (expire s)
unfolding expire release
expire-IsValid s v = ground arith

answer-IsValid :
    (env : Surroundings) (reply : Reply) (s : RedirectProtocol)
    → IsValid s
    → IsValid (answer env reply s)
unfolding answer close release
answer-IsValid env reply s v = ground (arith, length-append s.written (response_of env reply ∷ []))

connection_made-IsValid :
    (env : Surroundings) (connections : ℕ) (s : RedirectProtocol)
    → IsValid s
    → IsValid (connection_made env connections s)
unfolding connection_made
connection_made-IsValid env connections s v =
    if-both IsValid
      (not (env.config.max_connections == 0) && ltb env.config.max_connections connections)
      (answer-IsValid env (refusal 503 (codes "connection limit reached") (codes "GET") [])
        (record s { transport = true }) v)
      (if-both IsValid (ltb 0 env.config.request_timeout) v v)

answer_due-IsValid :
    (env : Surroundings) (due : Option Reply) (s : RedirectProtocol)
    → IsValid s
    → IsValid (answer_due env s due)
answer_due-IsValid env none s v = v
answer_due-IsValid env (some reply) s v = answer-IsValid env reply s v

data_received-IsValid :
    (env : Surroundings) (wait : Option ℕ) (data_ : Bytes) (s : RedirectProtocol)
    → IsValid s
    → IsValid (data_received env wait data_ s)
unfolding data_received
data_received-IsValid env wait data_ s v =
    if-both IsValid (s.answered || s.closed) v
      (answer_due-IsValid env (due_reply env wait (s.buffer ++ data_)) (with_data data_ s) v)

step-IsValid :
    (env : Surroundings) (event : Event) (s : RedirectProtocol)
    → IsValid s
    → IsValid (step env event s)
unfolding step
step-IsValid env (made connections) s v = connection_made-IsValid env connections s v
step-IsValid env (received wait data_) s v = data_received-IsValid env wait data_ s v
step-IsValid env eof s v = close-IsValid s v
step-IsValid env lost s v = connection_lost-IsValid s v
step-IsValid env shutdown s v = close-IsValid s v
step-IsValid env aborted s v = abort-IsValid s v
step-IsValid env expired s v = expire-IsValid s v

run_from-IsValid :
    (env : Surroundings) (events : List Event) (s : RedirectProtocol)
    → IsValid s
    → IsValid (run env events s)
unfolding run
run_from-IsValid env [] s v = v
run_from-IsValid env (event ∷ events) s v =
    run_from-IsValid env events (step env event s) (step-IsValid env event s v)

-- In whatever order the event loop and the server call a connection, it writes one response at most,
-- and none before it counts as answered; it announces its release once at most, and is in the set of
-- connections exactly until then; once answered it is closed, and once closed it is released.
pub run-IsValid : (env : Surroundings) (events : List Event) → IsValid (run env events init)
run-IsValid env events = run_from-IsValid env events init init-IsValid

answer-ends :
    (env : Surroundings) (reply : Reply) (s : RedirectProtocol)
    → s.answered ≡ false
    → s.closed ≡ false
    → s.transport ≡ true
    → ((answer env reply s).answered ≡ true)
      × ((answer env reply s).closed ≡ true)
      × ((answer env reply s).released ≡ true)
      × ((answer env reply s).timer ≡ false)
      × ((answer env reply s).closes ≡ s.closes + 1)
      × ((answer env reply s).written ≡ s.written ++ (response_of env reply ∷ []))
unfolding answer close release
answer-ends env reply s fresh open_ connected = ground arith

-- a head that is complete or too large calls for an answer
due_reply-some :
    (env : Surroundings) (wait : Option ℕ) (buffer : Bytes)
    → (is_some (find buffer head_end) ≡ true) ⊎ (env.config.max_header_size < length buffer)
    → (reply : Reply) × (due_reply env wait buffer ≡ some reply)
unfolding due_reply
due_reply-some env wait buffer complete =
    elim (Bool-cases (ltb env.config.max_header_size (length buffer))) [
      | inl large ↦
          (refusal 431 (codes "request head too large") (codes "GET") [], if-true _ _ large)
      | inr fits ↦ elim (Option-cases (find buffer head_end)) [
        | inl more ↦ ground (arith, ltb-false env.config.max_header_size (length buffer))
        | inr (index, found) ↦
            (reply_to env.config env.https_port wait (take index buffer), rw (fits, found) refl)
      ]
    ]

data_received-due :
    (env : Surroundings) (wait : Option ℕ) (data_ : Bytes) (s : RedirectProtocol)
    → (s.answered || s.closed) ≡ false
    → data_received env wait data_ s
      ≡ answer_due env (with_data data_ s) (due_reply env wait (s.buffer ++ data_))
unfolding data_received
data_received-due env wait data_ s open_ = if-false _ _ open_

-- A connection that is open and has not been answered is answered as soon as a head is complete or
-- larger than the configured size: one response is written, the timer is stopped, and the connection
-- is closed and released.
pub data_received-ends :
    (env : Surroundings) (wait : Option ℕ) (data_ : Bytes) (s : RedirectProtocol)
    → s.answered ≡ false
    → s.closed ≡ false
    → s.transport ≡ true
    → (is_some (find (s.buffer ++ data_) head_end) ≡ true)
      ⊎ (env.config.max_header_size < length (s.buffer ++ data_))
    → (reply : Reply) × ((data_received env wait data_ s).answered ≡ true)
      × ((data_received env wait data_ s).closed ≡ true)
      × ((data_received env wait data_ s).released ≡ true)
      × ((data_received env wait data_ s).timer ≡ false)
      × ((data_received env wait data_ s).closes ≡ s.closes + 1)
      × ((data_received env wait data_ s).written ≡ s.written ++ (response_of env reply ∷ []))
data_received-ends env wait data_ s fresh open_ connected complete =
    let (reply, due) = due_reply-some env wait (s.buffer ++ data_) complete in
    let idle : (s.answered || s.closed) ≡ false = ground arith in
    let e = data_received-due env wait data_ s idle ∙ ap (answer_due env (with_data data_ s)) due in
    let (a, c, r, t, n, w) = answer-ends env reply (with_data data_ s) fresh open_ connected in
    rw e (reply, a, c, r, t, n, w)

-- ===== src/Http1/Reader/Sync.antt =====
-- Where the next request starts behind a body of an announced length (echocorn/http1.py).
use echocorn.Base.{
  ℕ, ◌+◌, ◌-◌, ◌≤◌, min, ◌≡◌, refl, ap, ◌∙◌, Bool, true, false, List, [], ◌∷◌, length, drop, arith,
  length-drop, drop-drop,
}
use echocorn.Base.Bytes.{Bytes}
use echocorn.Utils.Asgi.{mark_finished}
use echocorn.Http1.Drain.{
  State, idle, body, chunked, waiting, websocket, Connection, try_drain, drain_length,
  drain_decoder, abandon_body,
}
use echocorn.Http1.Reader.{
  refuse, offer, emit, counted, read_chunked, finish_request, read_length, await_response, read,
  on_response_finished, finish_response,
}

abbrev in_length : State → Bool
in_length idle = true
in_length body = true
in_length chunked = false
in_length waiting = true
in_length websocket = false

abbrev is_body : State → Bool
is_body body = true
is_body _ = false

-- While the connection may be used again, what was taken from the input is the part of the body that
-- is not to come any more, and behind the body that is all of it.
abbrev pub InSync : ℕ → Bytes → Connection → Type 0
InSync n input c =
    c.closed ≡ false
    → c.keep_alive ≡ true
    → (c.buffer ≡ drop (n - c.body_remaining) input)
      × (c.body_remaining ≤ n)
      × (n - c.body_remaining ≤ length input)
      × (in_length c.state ≡ true)
      × (is_body c.state ≡ false → c.body_remaining ≡ 0)

drop-rest : (n r : ℕ) (input : Bytes) → r ≤ n → drop r (drop (n - r) input) ≡ drop n input
drop-rest n r input h =
    let e : n - r + r ≡ n = omega arith in drop-drop r (n - r) input ∙ ap (λ k. drop k input) e

pub drop-whole : (n r : ℕ) (input : Bytes) → r ≡ 0 → drop (n - r) input ≡ drop n input
drop-whole n r input h = let e : n - r ≡ n = omega arith in ap (λ k. drop k input) e

-- what giving up the body does not change
abbrev Kept : Connection → Connection → Type 0
Kept c c' =
    (c'.closed ≡ c.closed) × (c'.keep_alive ≡ c.keep_alive) × (c'.has_request ≡ c.has_request)

try_drain-Kept : (c : Connection) → Kept c (try_drain c).1
unfolding try_drain drain_length drain_decoder
try_drain-Kept c = ground arith

-- A body that is given up with success has been taken to its end.
try_drain-lem :
    (n : ℕ) (input : Bytes) (c : Connection)
    → InSync n input c
    → c.closed ≡ false
    → c.keep_alive ≡ true
    → (try_drain c).0 ≡ true
    → ((try_drain c).1.buffer ≡ drop n input)
      × ((try_drain c).1.body_remaining ≡ 0)
      × (n ≤ length input)
unfolding try_drain drain_length
try_drain-lem n input c h open_ keep drained = ground (
  arith,
  drop-rest n c.body_remaining input,
  drop-whole n c.body_remaining input,
  length-drop (n - c.body_remaining) input,
)

abandon_body-InSync :
    (n : ℕ) (input : Bytes) (c : Connection) → InSync n input c → InSync n input (abandon_body c)
unfolding abandon_body
abandon_body-InSync n input c h = ground (
  arith,
  try_drain-lem n input c h,
  try_drain-Kept c,
  drop-whole n (try_drain c).1.body_remaining input,
)

on_response_finished-InSync :
    (n : ℕ) (input : Bytes) (c : Connection)
    → InSync n input c
    → InSync n input (on_response_finished c)
unfolding on_response_finished
on_response_finished-InSync n input c h =
    ground (arith, try_drain-lem n input c h, try_drain-Kept c, drop-whole n 0 input refl)

pub finish_response-InSync :
    (n : ℕ) (input : Bytes) (c : Connection) → InSync n input c → InSync n input (finish_response c)
unfolding finish_response
finish_response-InSync n input c h =
    on_response_finished-InSync n input (record c { request = mark_finished c.request }) h

offer-InSync :
    (n : ℕ) (input chunk : Bytes) (chunks : List Bytes) (c : Connection)
    → InSync n input c
    → InSync n input (offer chunk chunks c)
unfolding offer
offer-InSync n input chunk chunks c h = ground (arith, abandon_body-InSync n input c h)

finish_request-InSync :
    (n : ℕ) (input : Bytes) (c : Connection)
    → InSync n input c
    → c.body_remaining ≡ 0
    → InSync n input (finish_request c)
unfolding finish_request
finish_request-InSync n input c h over = ground arith

take-step :
    (n r : ℕ) (input buffer : Bytes)
    → buffer ≡ drop (n - r) input
    → r ≤ n
    → drop (min (length buffer) r) buffer ≡ drop (n - (r - min (length buffer) r)) input
take-step n r input buffer h low =
    let m = min (length buffer) r in
    let e : n - r + m ≡ n - (r - m) = omega arith in
    ap (drop m) h ∙ drop-drop m (n - r) input ∙ ap (λ k. drop k input) e

read_length-InSync :
    (n : ℕ) (input : Bytes) (c : Connection)
    → c.state ≡ body
    → InSync n input c
    → InSync n input (read_length c)
unfolding read_length
read_length-InSync n input c there h = ground (
  arith,
  finish_request-InSync n input c h,
  take-step n c.body_remaining input c.buffer,
  length-drop (n - c.body_remaining) input,
)

await_response-InSync :
    (n : ℕ) (input : Bytes) (c : Connection)
    → c.state ≡ waiting
    → InSync n input c
    → InSync n input (await_response c)
unfolding await_response
await_response-InSync n input c there h =
    ground (arith, drop-whole n c.body_remaining input, drop-whole n 0 input refl)

counted-InSync :
    (n : ℕ) (input chunk : Bytes) (c : Connection)
    → InSync n input c
    → InSync n input (counted chunk c)
counted-InSync n input chunk c h = ground arith

pub emit-InSync :
    (limit n : ℕ) (input : Bytes) (c : Connection)
    → InSync n input c
    → InSync n input (emit limit c)
unfolding emit refuse
emit-InSync limit n input c h =
    elim c.pending as (λ p. c.pending ≡ p → InSync n input (emit limit c)) [
      | [] ↦ λ e. rw (emit, e) h
      | chunk ∷ chunks ↦ λ e.
          rw (emit, e)
            (ground (
              arith,
              offer-InSync n input chunk chunks (counted chunk c)
                  (counted-InSync n input chunk c h),
            ))
    ]
      refl

read_chunked-open :
    (limit : ℕ) (c : Connection)
    → (read_chunked limit c).closed ≡ false
    → (read_chunked limit c).keep_alive ≡ true
    → (c.closed ≡ false) × (c.keep_alive ≡ true)
unfolding read_chunked finish_request refuse
read_chunked-open limit c open_ keep = ground arith

pub read-InSync :
    (limit n : ℕ) (input : Bytes) (c : Connection)
    → InSync n input c
    → InSync n input (read limit c)
unfolding read
read-InSync limit n input c h =
    elim c.state as (λ s. c.state ≡ s → InSync n input (read limit c)) [
      | idle ↦ λ e. rw (read, e) h
      | body ↦ λ e. ground (arith, read_length-InSync n input c e h)
      | chunked ↦ λ e. ground (arith, read_chunked-open limit c)
      | waiting ↦ λ e. rw (read, e) (await_response-InSync n input c e h)
      | websocket ↦ λ e. rw (read, e) h
    ]
      refl

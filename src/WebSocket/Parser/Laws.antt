-- ===== src/WebSocket/Parser/Laws.antt =====
-- What `FrameParser` of echocorn/websocket.py keeps, and that its loop ends.
use echocorn.WebSocket.Outcome.{
  Outcome, done, ◌>>=◌, reject_if, Outcome-cases, bind-done, reject_if-done,
}
use echocorn.Base.{
  ℕ, zero, suc, ◌+◌, ◌≤◌, ◌<◌, ◌≡◌, refl, sym, ap, ◌∙◌, inl, inr, Bool, true, false, Option, none,
  some, ◌++◌, length, length-append, Bool-cases, arith, ltb, ltb-false, ◌==◌,
}
use echocorn.Base.Bytes.{Bytes}
use echocorn.WebSocket.Frame.{Frame, parse_frame}
use echocorn.WebSocket.Parser.{
  keep_message, run_frame, append_frame, FrameParser, Event, Fed, take_frame, data_frame,
  open_message, end_of_message, parse_close, feed_fuel, feed,
}
use echocorn.WebSocket.Frame.Shorter.{parse_frame-shorter}

-- What is gathered of a message never exceeds the limit.
abbrev pub IsBounded : FrameParser → Type 0
IsBounded p = length p.payload ≤ p.max_size

keep_message-IsBounded :
    (fin : Bool) (opcode : ℕ) (whole : Bytes) (p : FrameParser) (event : Option Event)
    (p' : FrameParser)
    → length whole ≤ p.max_size
    → keep_message fin opcode whole p ≡ done (event, p')
    → IsBounded p' × (p'.max_size ≡ p.max_size)
unfolding keep_message
keep_message-IsBounded true opcode whole p event p' small h =
    let (ended, _, h1) = bind-done (end_of_message opcode whole) _ _ h in ground arith
keep_message-IsBounded false opcode whole p event p' small h = ground arith

append_frame-IsBounded :
    (frame : Frame) (p : FrameParser) (message : ℕ × Bytes) (event : Option Event)
    (p' : FrameParser)
    → append_frame frame p message ≡ done (event, p')
    → IsBounded p' × (p'.max_size ≡ p.max_size)
unfolding append_frame
append_frame-IsBounded frame p (opcode, payload) event p' h =
    let (_, checked, kept) =
      bind-done (reject_if (ltb p.max_size (length payload + length frame.payload)) _ _) _ _ h in
    keep_message-IsBounded frame.fin opcode (payload ++ frame.payload) p event p'
      (omega (
        arith,
        length-append payload frame.payload,
        ltb-false p.max_size (length payload + length frame.payload) (reject_if-done _ _ _ checked),
      ))
      kept

data_frame-IsBounded :
    (frame : Frame) (p : FrameParser) (event : Option Event) (p' : FrameParser)
    → data_frame frame p ≡ done (event, p')
    → IsBounded p' × (p'.max_size ≡ p.max_size)
unfolding data_frame
data_frame-IsBounded frame p event p' h =
    let (message, opened, h1) = bind-done (open_message frame p) _ _ h in
    append_frame-IsBounded frame p message event p' h1

take_frame-IsBounded :
    (frame : Frame) (p : FrameParser) (event : Option Event) (p' : FrameParser)
    → IsBounded p
    → take_frame frame p ≡ done (event, p')
    → IsBounded p' × (p'.max_size ≡ p.max_size)
unfolding take_frame
take_frame-IsBounded frame p event p' bounded h = elim (Bool-cases (frame.opcode == 8)) [
  | inl closes ↦ elim (Outcome-cases (parse_close frame.payload)) [
    | inl (reason, e) ↦ ground arith
    | inr refused ↦ ground arith
  ]
  | inr other ↦ ground (arith, data_frame-IsBounded frame p event p')
]

run_frame-IsBounded :
    (feed_rest : Bytes → FrameParser → Outcome Fed) (buffer : Bytes) (p : FrameParser)
    (next : Option (Frame × Bytes)) (fed : Fed)
    → IsBounded p
    → ((rest : Bytes) (p' : FrameParser) (fed' : Fed)
        → IsBounded p'
        → feed_rest rest p' ≡ done fed'
        → IsBounded fed'.parser × (fed'.parser.max_size ≡ p'.max_size))
    → run_frame feed_rest buffer p next ≡ done fed
    → IsBounded fed.parser × (fed.parser.max_size ≡ p.max_size)
run_frame-IsBounded feed_rest buffer p none fed bounded later h = ground arith
run_frame-IsBounded feed_rest buffer p (some (frame, rest)) fed bounded later h =
    let (taken, e, h1) = bind-done (take_frame frame p) _ _ h in
    let (fed', e', h2) = bind-done (feed_rest rest taken.1) _ _ h1 in
    let now = take_frame-IsBounded frame p taken.0 taken.1 bounded e in
    let then_ = later rest taken.1 fed' now.0 e' in
    let same : fed.parser ≡ fed'.parser = cc in rw same (then_.0, then_.1 ∙ now.1)

feed_fuel-IsBounded :
    (fuel : ℕ) (buffer : Bytes) (p : FrameParser) (fed : Fed)
    → IsBounded p
    → feed_fuel fuel buffer p ≡ done fed
    → IsBounded fed.parser × (fed.parser.max_size ≡ p.max_size)
unfolding feed_fuel
feed_fuel-IsBounded zero buffer p fed bounded h = ground arith
feed_fuel-IsBounded (suc fuel) buffer p fed bounded h =
    let (next, _, h1) = bind-done (parse_frame p.max_size p.require_mask buffer) _ _ h in
    run_frame-IsBounded (feed_fuel fuel) buffer p next fed bounded (feed_fuel-IsBounded fuel) h1

-- However many frames a buffer holds, and however a message is cut into them, the payload that the
-- parser gathers stays within the limit that it was made with.
pub feed-IsBounded :
    (buffer : Bytes) (p : FrameParser) (fed : Fed)
    → IsBounded p
    → feed buffer p ≡ done fed
    → IsBounded fed.parser × (fed.parser.max_size ≡ p.max_size)
unfolding feed
feed-IsBounded buffer p fed bounded h =
    feed_fuel-IsBounded (suc (length buffer)) buffer p fed bounded h

run_frame-same :
    (f g : Bytes → FrameParser → Outcome Fed) (buffer : Bytes) (p : FrameParser)
    (next : Option (Frame × Bytes))
    → ((frame : Frame) (rest : Bytes) (p' : FrameParser)
        → next ≡ some (frame, rest)
        → f rest p' ≡ g rest p')
    → run_frame f buffer p next ≡ run_frame g buffer p next
run_frame-same f g buffer p none same = refl
run_frame-same f g buffer p (some (frame, rest)) same = elim (Outcome-cases (take_frame frame p)) [
  | inl (taken, e) ↦ rw (e, same frame rest taken.1 refl) refl
  | inr refused ↦ ground arith
]

feed_fuel-same :
    (m n : ℕ) (buffer : Bytes) (p : FrameParser)
    → length buffer < m
    → length buffer < n
    → feed_fuel m buffer p ≡ feed_fuel n buffer p
unfolding feed_fuel
feed_fuel-same zero n buffer p h h' = ground arith
feed_fuel-same (suc m) zero buffer p h h' = ground arith
feed_fuel-same (suc m) (suc n) buffer p h h' =
    elim (Outcome-cases (parse_frame p.max_size p.require_mask buffer)) [
      | inl (next, e) ↦
          let same : (frame : Frame) (rest : Bytes) (p' : FrameParser)
              → next ≡ some (frame, rest)
              → feed_fuel m rest p' ≡ feed_fuel n rest p' =
            λ frame rest p' found.
              let cut =
                parse_frame-shorter p.max_size p.require_mask buffer frame rest
                  (e ∙ ap done found) in
              feed_fuel-same m n rest p' (omega arith) (omega arith) in
          let runs = run_frame-same (feed_fuel m) (feed_fuel n) buffer p next same in
          ap (λ r. r >>= run_frame (feed_fuel m) buffer p) e
          ∙ runs
          ∙ ap (λ r. r >>= run_frame (feed_fuel n) buffer p) (sym e)
      | inr refused ↦ ground arith
    ]

-- Beyond one frame more than the buffer has bytes, no allowance of frames makes a difference to what
-- `feed` returns: it runs until a frame is incomplete or a violation stops it.
pub feed-settled :
    (fuel : ℕ) (buffer : Bytes) (p : FrameParser)
    → length buffer < fuel
    → feed_fuel fuel buffer p ≡ feed buffer p
unfolding feed
feed-settled fuel buffer p h = feed_fuel-same fuel (suc (length buffer)) buffer p h (omega arith)

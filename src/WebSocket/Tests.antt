-- ===== src/WebSocket/Tests.antt =====
-- Runs of the frame code of echocorn/websocket.py at concrete inputs.
use echocorn.WebSocket.Outcome.{done, ◌>>=◌}
use echocorn.Base.{List, ◌≡◌, refl, true, none, some, [], ◌∷◌, ◌++◌, arith}
use echocorn.Base.Bytes.{Bytes, codes}
use echocorn.WebSocket.Frame.{build_frame, parse_frame}
use echocorn.WebSocket.Frame.RoundTrip.{parse_frame-build_frame}
use echocorn.WebSocket.Parser.{FrameParser, Event, Fed, feed, feed_fuel}
use echocorn.Base.{◌≤◌, length, false}
use echocorn.WebSocket.Text.{utf8_valid}
use echocorn.WebSocket.Parser.{parse_close, close_payload, end_of_message}
use echocorn.WebSocket.Parser.Close.{sent_reason, parse_close-close_payload}
use echocorn.WebSocket.Parser.Fragments.{take_frames, take_frames-message}
use echocorn.WebSocket.Parser.Wire.{Sent, wire, frames_of, fed_with, feed-wire}
use echocorn.WebSocket.Parser.Laws.{IsBounded, feed-IsBounded, feed-settled}

abbrev key : Bytes
key = 1 ∷ 2 ∷ 3 ∷ 4 ∷ []

parse_frame-build_frame_example :
    parse_frame 100 true (build_frame 1 (codes "hi") true key ++ codes "x")
    ≡ done (some (record { fin = true; opcode = 1; payload = codes "hi" }, codes "x"))
parse_frame-build_frame_example =
    parse_frame-build_frame 100 1 true true (codes "hi") key (codes "x") refl
      (λ control. (refl, omega arith)) (λ data_. omega arith) (omega arith)
      (omega arith, (omega arith, tt)) refl refl

abbrev hi : Bytes
hi = 129 ∷ 130 ∷ 1 ∷ 2 ∷ 3 ∷ 4 ∷ 105 ∷ 107 ∷ []

hi_built : build_frame 1 (codes "hi") true key ≡ hi
unfolding build_frame
hi_built = refl

abbrev idle : FrameParser
idle = record { max_size = 100; require_mask = true; opcode = none; payload = [] }

abbrev hi_fed : Fed
hi_fed = record {
  events = Event.text (codes "hi") ∷ [];
  buffer = [];
  parser = record idle { payload = codes "hi" };
}

hi-fed : feed hi idle ≡ done hi_fed
unfolding feed
hi-fed = refl

feed-IsBounded_example : IsBounded hi_fed.parser × (hi_fed.parser.max_size ≡ 100)
feed-IsBounded_example = feed-IsBounded hi idle hi_fed (omega arith) hi-fed

feed-settled_example : feed_fuel 20 hi idle ≡ feed hi idle
feed-settled_example = feed-settled 20 hi idle (omega arith)

abbrev bye : Bytes
bye = codes "bye"

bye-utf8_valid : utf8_valid bye ≡ true
unfolding utf8_valid
bye-utf8_valid = refl

parse_close-close_payload_example :
    (parse_close (close_payload 1000 bye) ≡ done (1000, sent_reason bye))
    × (utf8_valid (sent_reason bye) ≡ true)
    × (length (sent_reason bye) ≤ 123)
parse_close-close_payload_example = parse_close-close_payload 1000 bye refl bye-utf8_valid

hi-event : end_of_message 1 (codes "hi") ≡ done (Event.text (codes "hi"))
unfolding end_of_message
hi-event = refl

take_frames-message_example :
    take_frames
      (record { fin = false; opcode = 1; payload = codes "h" }
        ∷ record { fin = true; opcode = 0; payload = codes "i" }
        ∷ [])
      idle
    ≡ done (Event.text (codes "hi") ∷ [], record idle { payload = codes "hi" })
take_frames-message_example =
    take_frames-message 100 true true [] (codes "h") [] (codes "i") (Event.text (codes "hi"))
      (omega arith) hi-event

-- a text in two fragments, with a ping between them
abbrev sent : List Sent
sent =
    (record { fin = false; opcode = 1; payload = codes "h" }, key)
    ∷ (record { fin = true; opcode = 9; payload = codes "p" }, key)
    ∷ (record { fin = true; opcode = 0; payload = codes "i" }, key)
    ∷ []

feed-wire_example : feed (wire sent) idle ≡ (take_frames (frames_of sent) idle >>= fed_with [])
feed-wire_example = feed-wire sent idle (
  (
    refl,
    λ control. absurd (omega arith),
    λ data_. omega arith,
    omega arith,
    (omega arith, tt),
    refl,
    refl,
  ),
  (
    (
      refl,
      λ control. (refl, omega arith),
      λ data_. absurd (omega arith),
      omega arith,
      (omega arith, tt),
      refl,
      refl,
    ),
    (
      (
        refl,
        λ control. absurd (omega arith),
        λ data_. omega arith,
        omega arith,
        (omega arith, tt),
        refl,
        refl,
      ),
      tt,
    ),
  ),
)

sent_fed :
    feed (wire sent) idle
    ≡ done (record {
      events = Event.ping (codes "p") ∷ Event.text (codes "hi") ∷ [];
      buffer = [];
      parser = record idle { payload = codes "hi" };
    })
unfolding feed wire
sent_fed = refl

-- ===== src/WebSocket/Parser.antt =====
-- The close frame and `FrameParser` of echocorn/websocket.py.
pub mod Close
pub mod Fragments
pub mod Wire
pub mod Laws
use echocorn.WebSocket.Outcome.{
  Outcome, done, violation, ◌>>=◌, ◌>>◌, close_protocol_error, close_too_big, reject_if, is_done,
  Outcome-cases, bind-done, reject_if-done, WebSocketError,
}
use echocorn.Base.{
  ℕ, zero, suc, ◌+◌, ◌-◌, ◌*◌, ◌^◌, Bool, true, false, ◌&&◌, ◌||◌, not, Option, none, some, List,
  [], ◌∷◌, ◌++◌, leb, ltb, ◌==◌, length, take, drop, null, any, if◌then◌else◌, is_some,
}
use echocorn.Base.Bytes.{Bytes, codes}
use echocorn.WebSocket.Words.{to_bytes, from_bytes}
use echocorn.WebSocket.Text.{utf8_valid}
use echocorn.WebSocket.Frame.{Frame, build_frame, parse_frame}

abbrev close_normal : ℕ
close_normal = 1000

abbrev close_invalid_payload : ℕ
close_invalid_payload = 1007

-- `_ACCEPTED_CLOSE_CODES`, or a code of an application
abbrev accepted_code : ℕ → Bool
accepted_code code =
    (leb 1000 code && leb code 1003)
    || (leb 1007 code && leb code 1014)
    || (leb 3000 code && leb code 4999)

-- `while raw` …: bytes dropped from the end, at most `fuel`, until the rest decodes
unfoldable trim_text : ℕ → Bytes → Bytes
unfolding utf8_valid
trim_text zero raw = take 0 raw
trim_text (suc fuel) raw =
    let shorter = trim_text fuel (take fuel raw) in if utf8_valid raw then raw else shorter

-- `_close_payload`, for a reason that is encoded
unfoldable pub close_payload : ℕ → Bytes → Bytes
unfolding to_bytes trim_text
close_payload code raw =
    to_bytes 2 code ++ (if ltb 123 (length raw) then trim_text 123 (take 123 raw) else raw)

abbrev sent_code : ℕ → ℕ
sent_code code = if (code == 1005) || (code == 1006) || (code == 1015) then close_normal else code

-- `none` where `build_close_frame` raises `ValueError`
unfoldable build_close_frame : ℕ → Bytes → Bytes → Option Bytes
unfolding close_payload build_frame
build_close_frame code raw mask =
    if leb 1000 (sent_code code) && leb (sent_code code) 4999
    then some (build_frame 8 (close_payload (sent_code code) raw) true mask)
    else none

-- `_parse_close`: the code and the reason
unfoldable pub parse_close : Bytes → Outcome (ℕ × Bytes)
unfolding from_bytes utf8_valid
parse_close [] = done (1005, [])
parse_close (a ∷ []) =
    violation
      (record { code = close_protocol_error; reason = codes "close frame with a 1 byte payload" })
parse_close (a ∷ b ∷ reason) = do
  reject_if (not (accepted_code (from_bytes 0 (a ∷ b ∷ [])))) close_protocol_error
      (codes "invalid close code")
  reject_if (not (utf8_valid reason)) close_invalid_payload (codes "close reason is not UTF-8")
  done (from_bytes 0 (a ∷ b ∷ []), reason)

pub record FrameParser : Type 0 where
  pub max_size : ℕ
  pub require_mask : Bool
  pub opcode : Option ℕ
  pub payload : Bytes

pub data Event : Type 0 where
  text bytes ping pong : Bytes → Event
  close : ℕ → Bytes → Event

unfoldable new_parser : ℕ → Bool → FrameParser
new_parser max_size require_mask = record {
  max_size = max_size;
  require_mask = require_mask;
  opcode = none;
  payload = [];
}

-- The opcode and the payload that a data frame is appended to.
unfoldable pub open_message : Frame → FrameParser → Outcome (ℕ × Bytes)
open_message frame p = elim p.opcode [
  | none ↦
      reject_if (frame.opcode == 0) close_protocol_error (codes "continuation without a data frame")
      >> done (frame.opcode, [])
  | some opcode ↦
      reject_if (not (frame.opcode == 0)) close_protocol_error
        (codes "new data frame inside a fragmented message")
      >> done (opcode, p.payload)
]

-- the event of a message that is complete
unfoldable pub end_of_message : ℕ → Bytes → Outcome Event
unfolding utf8_valid
end_of_message opcode payload =
    if opcode == 1
    then (reject_if (not (utf8_valid payload)) close_invalid_payload
          (codes "text message is not valid UTF-8")
        >> done (text payload))
    else done (bytes payload)

abbrev pub with_event : FrameParser → Event → Option Event × FrameParser
with_event p event = (some event, p)

-- the message so far, which the frame may end
unfoldable pub keep_message : Bool → ℕ → Bytes → FrameParser → Outcome (Option Event × FrameParser)
unfolding end_of_message
keep_message fin opcode whole p =
    if not fin
    then done (none, record p { opcode = some opcode; payload = whole })
    else (end_of_message opcode whole >>= λ event.
        done (with_event (record p { opcode = none; payload = whole }) event))

-- A data frame appended to an open message, whose end it may be.
unfoldable pub append_frame : Frame → FrameParser → ℕ × Bytes → Outcome (Option Event × FrameParser)
unfolding keep_message
append_frame frame p (opcode, payload) =
    reject_if (ltb p.max_size (length payload + length frame.payload)) close_too_big
      (codes "message too large")
    >> keep_message frame.fin opcode (payload ++ frame.payload) p

unfoldable pub data_frame : Frame → FrameParser → Outcome (Option Event × FrameParser)
unfolding open_message append_frame
data_frame frame p = open_message frame p >>= append_frame frame p

-- one frame
unfoldable pub take_frame : Frame → FrameParser → Outcome (Option Event × FrameParser)
unfolding parse_close data_frame
take_frame frame p =
    if frame.opcode == 8
    then (parse_close frame.payload >>= λ reason. done (with_event p (close reason.0 reason.1)))
    else if frame.opcode == 9
    then done (with_event p (ping frame.payload))
    else if frame.opcode == 10
    then done (with_event p (pong frame.payload))
    else data_frame frame p

abbrev pub push_event : Option Event → List Event → List Event
push_event none events = events
push_event (some event) events = event ∷ events

pub record Fed : Type 0 where
  pub events : List Event
  pub buffer : Bytes
  pub parser : FrameParser

abbrev pub add_event : Option Event → Fed → Fed
add_event event fed = record fed { events = push_event event fed.events }

abbrev nothing_more : Bytes → FrameParser → Outcome Fed
nothing_more buffer p = done (record { events = []; buffer = buffer; parser = p })

abbrev pub run_frame :
    (Bytes → FrameParser → Outcome Fed) → Bytes → FrameParser → Option (Frame × Bytes) → Outcome Fed
run_frame feed_rest buffer p none = nothing_more buffer p
run_frame feed_rest buffer p (some (frame, rest)) =
    take_frame frame p >>= λ taken. feed_rest rest taken.1 >>= λ fed. done (add_event taken.0 fed)

-- `feed`, one unit of fuel for each frame
unfoldable pub feed_fuel : ℕ → Bytes → FrameParser → Outcome Fed
unfolding parse_frame take_frame
feed_fuel zero buffer p = nothing_more buffer p
feed_fuel (suc fuel) buffer p =
    parse_frame p.max_size p.require_mask buffer >>= run_frame (feed_fuel fuel) buffer p

-- A frame takes two bytes at least, so the buffer's length bounds the frames.
unfoldable pub feed : Bytes → FrameParser → Outcome Fed
unfolding feed_fuel
feed buffer p = feed_fuel (suc (length buffer)) buffer p

-- ===== src/WebSocket/Parser/Fragments.antt =====
-- How `FrameParser` of echocorn/websocket.py puts a fragmented message together.
use mathlib.Core.List.{append_assoc}
use echocorn.Base.{
  ℕ, ◌+◌, ◌≤◌, ◌≡◌, refl, ap, ◌∙◌, Bool, true, false, Option, none, some, List, [], ◌∷◌, ◌++◌,
  arith, length, length-append, ltb, le→ltb-false, if◌then◌else◌,
}
use echocorn.Base.Bytes.{Bytes}
use echocorn.WebSocket.Outcome.{Outcome, done, ◌>>=◌}
use echocorn.WebSocket.Frame.{Frame}
use echocorn.WebSocket.Parser.{FrameParser, Event, take_frame, end_of_message, push_event}

-- the events of a sequence of frames
unfoldable pub take_frames : List Frame → FrameParser → Outcome (List Event × FrameParser)
unfolding take_frame
take_frames [] p = done ([], p)
take_frames (frame ∷ frames) p = take_frame frame p >>= λ taken.
    take_frames frames taken.1 >>= λ rest. done (push_event taken.0 rest.0, rest.1)

-- A payload cut into pieces, the last one named apart.
abbrev pub joined : List Bytes → Bytes → Bytes
joined [] last = last
joined (piece ∷ pieces) last = piece ++ joined pieces last

abbrev pub continuations : List Bytes → Bytes → List Frame
continuations [] last = record { fin = true; opcode = 0; payload = last } ∷ []
continuations (piece ∷ pieces) last =
    record { fin = false; opcode = 0; payload = piece } ∷ continuations pieces last

abbrev pub data_opcode : Bool → ℕ
data_opcode is_text = if is_text then 1 else 2

abbrev parser_with : ℕ → Bool → Option ℕ → Bytes → FrameParser
parser_with max_size require_mask opcode payload = record {
  max_size = max_size;
  require_mask = require_mask;
  opcode = opcode;
  payload = payload;
}

-- a frame of an open message that is not its last one
take_frame-more :
    (max_size : ℕ) (require_mask : Bool) (opcode : ℕ) (gathered piece : Bytes)
    → length (gathered ++ piece) ≤ max_size
    → take_frame
        (record { fin = false; opcode = 0; payload = piece })
        (parser_with max_size require_mask (some opcode) gathered)
      ≡ done (none, parser_with max_size require_mask (some opcode) (gathered ++ piece))
unfolding take_frame
take_frame-more max_size require_mask opcode gathered piece h =
    let fits : ltb max_size (length gathered + length piece) ≡ false =
      le→ltb-false _ _ (omega (arith, length-append gathered piece)) in
    rw fits refl

take_frame-last :
    (max_size : ℕ) (require_mask : Bool) (opcode : ℕ) (gathered piece : Bytes) (event : Event)
    → length (gathered ++ piece) ≤ max_size
    → end_of_message opcode (gathered ++ piece) ≡ done event
    → take_frame
        (record { fin = true; opcode = 0; payload = piece })
        (parser_with max_size require_mask (some opcode) gathered)
      ≡ done (some event, parser_with max_size require_mask none (gathered ++ piece))
unfolding take_frame
take_frame-last max_size require_mask opcode gathered piece event h e =
    let fits : ltb max_size (length gathered + length piece) ≡ false =
      le→ltb-false _ _ (omega (arith, length-append gathered piece)) in
    rw (fits, e) refl

take_frame-first :
    (max_size : ℕ) (require_mask is_text : Bool) (old piece : Bytes)
    → length piece ≤ max_size
    → take_frame
        (record { fin = false; opcode = data_opcode is_text; payload = piece })
        (parser_with max_size require_mask none old)
      ≡ done (none, parser_with max_size require_mask (some (data_opcode is_text)) piece)
unfolding take_frame
take_frame-first max_size require_mask true old piece h =
    let fits : ltb max_size (0 + length piece) ≡ false = le→ltb-false _ _ (omega arith) in
    rw fits refl
take_frame-first max_size require_mask false old piece h =
    let fits : ltb max_size (0 + length piece) ≡ false = le→ltb-false _ _ (omega arith) in
    rw fits refl

take_frames-continuations :
    (max_size : ℕ) (require_mask : Bool) (opcode : ℕ) (gathered : Bytes) (pieces : List Bytes)
    (last : Bytes) (event : Event)
    → length (gathered ++ joined pieces last) ≤ max_size
    → end_of_message opcode (gathered ++ joined pieces last) ≡ done event
    → take_frames
        (continuations pieces last)
        (parser_with max_size require_mask (some opcode) gathered)
      ≡ done (event ∷ [], parser_with max_size require_mask none (gathered ++ joined pieces last))
unfolding take_frames
take_frames-continuations max_size require_mask opcode gathered [] last event h e =
    rw (take_frame-last max_size require_mask opcode gathered last event h e) refl
take_frames-continuations max_size require_mask opcode gathered (piece ∷ pieces) last event h e =
    let assoc = append_assoc gathered piece (joined pieces last) in
    let small : length (gathered ++ piece) ≤ max_size =
      omega (arith, ap length assoc, length-append (gathered ++ piece) (joined pieces last)) in
    let rest =
      take_frames-continuations max_size require_mask opcode (gathered ++ piece) pieces last event
        (omega (arith, ap length assoc)) (ap (end_of_message opcode) assoc ∙ e) in
    rw (take_frame-more max_size require_mask opcode gathered piece small, rest, assoc) refl

-- A text or binary message that is cut into fragments, however many and wherever, gives the one event
-- of its whole payload, if that is within the limit and has an event at all (a text must be UTF-8);
-- the parser is ready for the next message then.
pub take_frames-message :
    (max_size : ℕ) (require_mask is_text : Bool) (old first : Bytes) (pieces : List Bytes)
    (last : Bytes) (event : Event)
    → length (first ++ joined pieces last) ≤ max_size
    → end_of_message (data_opcode is_text) (first ++ joined pieces last) ≡ done event
    → take_frames
        (record { fin = false; opcode = data_opcode is_text; payload = first }
          ∷ continuations pieces last)
        (record { max_size = max_size; require_mask = require_mask; opcode = none; payload = old })
      ≡ done (
        event ∷ [],
        record {
          max_size = max_size;
          require_mask = require_mask;
          opcode = none;
          payload = first ++ joined pieces last;
        },
      )
unfolding take_frames
take_frames-message max_size require_mask is_text old first pieces last event h e =
    let small : length first ≤ max_size = omega (arith, length-append first (joined pieces last)) in
    rw
      (
        take_frame-first max_size require_mask is_text old first small,
        take_frames-continuations max_size require_mask (data_opcode is_text) first pieces last
            event h e,
      )
      refl

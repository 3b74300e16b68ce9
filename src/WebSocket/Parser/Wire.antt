-- ===== src/WebSocket/Parser/Wire.antt =====
-- Frames on the wire: `build_frame` of echocorn/websocket.py against `FrameParser.feed`.
use mathlib.Core.Path.{subst}
use echocorn.Base.{
  ℕ, zero, suc, ◌+◌, ◌≤◌, ◌<◌, ◌^◌, ◌≡◌, refl, sym, ap, ◌∙◌, Bool, true, false, not, Option, List,
  [], ◌∷◌, ◌++◌, arith, length, length-append, null, ltb, ◌==◌, All, if-both,
}
use echocorn.Base.Bytes.{Bytes, codes}
use echocorn.WebSocket.Outcome.{Outcome, done, violation, ◌>>=◌, reject_if, close_too_big}
use echocorn.WebSocket.Frame.{Frame, flag, length_bytes, build_frame, is_opcode, mask_size}
use echocorn.WebSocket.Frame.RoundTrip.{parse_frame-build_frame}
use echocorn.WebSocket.Parser.{
  FrameParser, Event, Fed, take_frame, push_event, add_event, run_frame, feed_fuel, feed,
  keep_message, with_event, close, ping, pong, append_frame, data_frame, open_message,
  end_of_message, parse_close,
}
use echocorn.WebSocket.Parser.Fragments.{take_frames}

-- A frame and the mask that it is sent with.
abbrev pub Sent : Type 0
Sent = Frame × Bytes

unfoldable pub wire : List Sent → Bytes
unfolding build_frame
wire [] = []
wire ((frame, mask) ∷ sent) = build_frame frame.opcode frame.payload frame.fin mask ++ wire sent

abbrev pub frames_of : List Sent → List Frame
frames_of [] = []
frames_of ((frame, mask) ∷ sent) = frame ∷ frames_of sent

-- What a peer may send: a known opcode, a control frame in one and short, a payload of bytes within
-- the limit, and a mask exactly where the parser asks for one.
abbrev pub IsSendable : ℕ → Bool → Sent → Type 0
IsSendable max_size require_mask (frame, mask) =
    (is_opcode frame.opcode ≡ true)
    × (8 ≤ frame.opcode → (frame.fin ≡ true) × (length frame.payload ≤ 125))
    × (frame.opcode < 8 → length frame.payload ≤ max_size)
    × (length frame.payload < 2 ^ 63)
    × All (λ c. c < 256) frame.payload
    × (not (null mask) ≡ require_mask)
    × (length mask ≡ mask_size require_mask)

-- The events and the parser, with the bytes that are left.
abbrev pub fed_with : Bytes → List Event × FrameParser → Outcome Fed
fed_with rest taken = done (record { events = taken.0; buffer = rest; parser = taken.1 })

-- the limits of the parser stay
Keeps : FrameParser → Outcome (Option Event × FrameParser) → Type 0
Keeps p (violation error) = Unit
Keeps p (done taken) = (taken.1.max_size ≡ p.max_size) × (taken.1.require_mask ≡ p.require_mask)

bind-Keeps :
    {Before : Type 0} (p : FrameParser) (m : Outcome Before)
    (f : Before → Outcome (Option Event × FrameParser))
    → ((a : Before) → Keeps p (f a))
    → Keeps p (m >>= f)
unfolding Keeps
bind-Keeps p (violation error) f h = tt
bind-Keeps p (done a) f h = h a

keep_message-Keeps :
    (fin : Bool) (opcode : ℕ) (whole : Bytes) (p : FrameParser)
    → Keeps p (keep_message fin opcode whole p)
unfolding keep_message Keeps
keep_message-Keeps false opcode whole p = (refl, refl)
keep_message-Keeps true opcode whole p =
    bind-Keeps p (end_of_message opcode whole) _ (λ event. (refl, refl))

append_frame-Keeps :
    (frame : Frame) (p : FrameParser) (opened : ℕ × Bytes) → Keeps p (append_frame frame p opened)
unfolding append_frame
append_frame-Keeps frame p (opcode, payload) =
    bind-Keeps p
      (reject_if (ltb p.max_size (length payload + length frame.payload)) close_too_big
        (codes "message too large"))
      (λ _. keep_message frame.fin opcode (payload ++ frame.payload) p)
      (λ _. keep_message-Keeps frame.fin opcode (payload ++ frame.payload) p)

closed-Keeps :
    (payload : Bytes) (p : FrameParser)
    → Keeps p (parse_close payload >>= λ reason. done (with_event p (close reason.0 reason.1)))
unfolding Keeps
closed-Keeps payload p =
    bind-Keeps p (parse_close payload) (λ reason. done (with_event p (close reason.0 reason.1)))
      (λ reason. (refl, refl))

take_frame-Keeps : (frame : Frame) (p : FrameParser) → Keeps p (take_frame frame p)
unfolding take_frame data_frame Keeps
take_frame-Keeps frame p = if-both (Keeps p) (frame.opcode == 8) (closed-Keeps frame.payload p) (
    if-both (Keeps p) (frame.opcode == 9) {x = done (with_event p (ping frame.payload))}
      (refl, refl)
      (if-both (Keeps p) (frame.opcode == 10) {x = done (with_event p (pong frame.payload))}
        (refl, refl)
        (bind-Keeps p (open_message frame p) (append_frame frame p) (append_frame-Keeps frame p))))

pushed :
    (event : Option Event) (r : Outcome (List Event × FrameParser))
    → ((r >>= fed_with []) >>= λ fed. done (add_event event fed))
      ≡ ((r >>= λ rest. done (push_event event rest.0, rest.1)) >>= fed_with [])
pushed event (violation error) = refl
pushed event (done rest) = refl

resumed :
    (p : FrameParser) (m : Outcome (Option Event × FrameParser))
    (feed_rest : FrameParser → Outcome Fed)
    (take_rest : FrameParser → Outcome (List Event × FrameParser))
    → Keeps p m
    → ((p' : FrameParser)
        → p'.max_size ≡ p.max_size
        → p'.require_mask ≡ p.require_mask
        → feed_rest p' ≡ (take_rest p' >>= fed_with []))
    → (m >>= λ taken. feed_rest taken.1 >>= λ fed. done (add_event taken.0 fed)) ≡ (
        (m >>= λ taken. take_rest taken.1 >>= λ rest. done (push_event taken.0 rest.0, rest.1))
        >>= fed_with [])
unfolding Keeps
resumed p (violation error) feed_rest take_rest keeps same = refl
resumed p (done (event, p')) feed_rest take_rest keeps same =
    ap (λ r. r >>= λ fed. done (add_event event fed)) (same p' keeps.0 keeps.1)
    ∙ pushed event (take_rest p')

build_frame-length :
    (opcode : ℕ) (payload : Bytes) (fin : Bool) (mask : Bytes)
    → 1 ≤ length (build_frame opcode payload fin mask)
unfolding build_frame
build_frame-length opcode payload fin mask =
    some_bytes (flag fin + opcode) (length_bytes (flag (not (null mask))) (length payload)) _
  where
    some_bytes : (c : ℕ) (s t : Bytes) → 1 ≤ length ((c ∷ s) ++ t)
    some_bytes c s t = omega arith

feed_fuel-wire :
    (fuel : ℕ) (sent : List Sent) (p : FrameParser)
    → All (IsSendable p.max_size p.require_mask) sent
    → length (wire sent) < fuel
    → feed_fuel fuel (wire sent) p ≡ (take_frames (frames_of sent) p >>= fed_with [])
unfolding feed_fuel wire take_frames
feed_fuel-wire zero sent p sendable enough = absurd (omega arith)
feed_fuel-wire (suc fuel) [] p sendable enough = refl
feed_fuel-wire (suc fuel) ((frame, mask) ∷ sent) p sendable enough =
    let built = build_frame frame.opcode frame.payload frame.fin mask in
    let (known, control, data_, small, bytes, keyed, sized) = sendable.0 in
    let shorter : length (wire sent) < fuel = omega (
      arith,
      length-append built (wire sent),
      build_frame-length frame.opcode frame.payload frame.fin mask,
    ) in
    ap (λ r. r >>= run_frame (feed_fuel fuel) (built ++ wire sent) p)
      (parse_frame-build_frame p.max_size frame.opcode p.require_mask frame.fin frame.payload mask
        (wire sent) known control data_ small bytes keyed sized)
    ∙ resumed p (take_frame frame p) (feed_fuel fuel (wire sent)) (take_frames (frames_of sent))
        (take_frame-Keeps frame p)
        (λ p' size asks.
          feed_fuel-wire fuel sent p'
            (subst (λ n. All (IsSendable n p'.require_mask) sent) (sym size)
              (subst (λ b. All (IsSendable p.max_size b) sent) (sym asks) sendable.1))
            shorter)

-- The frames that a peer sends, each with its mask and within the limits, are taken one after another,
-- whatever they are: what `feed` makes of their bytes is what the frames do to the parser in turn, with
-- the same events or the same violation, and no byte is left over.
pub feed-wire :
    (sent : List Sent) (p : FrameParser)
    → All (IsSendable p.max_size p.require_mask) sent
    → feed (wire sent) p ≡ (take_frames (frames_of sent) p >>= fed_with [])
unfolding feed
feed-wire sent p sendable = feed_fuel-wire (suc (length (wire sent))) sent p sendable (omega arith)

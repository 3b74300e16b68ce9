-- ===== src/WebSocket/Frame.antt =====
-- One frame of echocorn/websocket.py: how it is built, and how it is parsed.
pub mod Shorter
pub mod Length
pub mod RoundTrip
use echocorn.Base.{
  ℕ, zero, suc, ◌+◌, ◌-◌, ◌*◌, ◌/◌, ◌%◌, ◌^◌, Bool, true, false, ◌&&◌, ◌||◌, not, Option, none,
  some, List, [], ◌∷◌, ◌++◌, leb, ltb, ◌==◌, length, take, drop, null, any, if◌then◌else◌,
}
use echocorn.Base.Bytes.{Bytes, codes}
use echocorn.WebSocket.Outcome.{
  WebSocketError, Outcome, done, violation, ◌>>=◌, ◌>>◌, close_protocol_error, close_too_big,
  reject_if,
}
use echocorn.WebSocket.Words.{to_bytes, from_bytes, mask_payload}

abbrev pub flag : Bool → ℕ
flag set_ = if set_ then 128 else 0

-- the second byte, and the bytes of a longer length
unfoldable pub length_bytes : ℕ → ℕ → Bytes
unfolding to_bytes
length_bytes mask_bit n =
    if ltb n 126
    then (mask_bit + n) ∷ []
    else if ltb n 65536
    then (mask_bit + 126) ∷ to_bytes 2 n
    else (mask_bit + 127) ∷ to_bytes 8 n

-- `build_frame`; no mask is the empty one, which Python takes for false too.
unfoldable pub build_frame : ℕ → Bytes → Bool → Bytes → Bytes
unfolding length_bytes mask_payload
build_frame opcode payload fin mask =
    let masked = not (null mask) in
    ((flag fin + opcode) ∷ length_bytes (flag masked) (length payload))
    ++ (mask ++ (if masked then mask_payload payload mask else payload))

-- The length and the offset of what follows it, once the bytes are there.
unfoldable pub frame_length : ℕ → Bytes → Outcome (Option (ℕ × ℕ))
unfolding from_bytes
frame_length n buffer =
    let n16 = from_bytes 0 (take 2 (drop 2 buffer)) in
    let n64 = from_bytes 0 (take 8 (drop 2 buffer)) in
    if n == 126
    then (if ltb (length buffer) 4
        then done none
        else (reject_if (ltb n16 126) close_protocol_error (codes "non-minimal length encoding")
            >> done (some (n16, 4))))
    else if n == 127
    then (if ltb (length buffer) 10
        then done none
        else (reject_if (ltb n64 65536 || ltb (2 ^ 63 - 1) n64) close_protocol_error
              (codes "invalid 64 bit length")
            >> done (some (n64, 10))))
    else done (some (n, 2))

abbrev pub is_opcode : ℕ → Bool
is_opcode opcode =
    (opcode == 0)
    || (opcode == 1)
    || (opcode == 2)
    || (opcode == 8)
    || (opcode == 9)
    || (opcode == 10)

-- the refusals that the header alone decides
unfoldable pub check_frame : ℕ → Bool → Bool → ℕ → Bool → ℕ → Outcome (Unit {0})
check_frame max_payload require_mask fin opcode masked n = do
  reject_if (leb 8 opcode && not fin) close_protocol_error (codes "fragmented control frame")
  reject_if (leb 8 opcode && ltb 125 n) close_protocol_error (codes "oversized control frame")
  reject_if (not (leb 8 opcode) && ltb max_payload n) close_too_big (codes "message too large")
  reject_if (require_mask && not masked) close_protocol_error (codes "client frames must be masked")
  reject_if (not require_mask && masked) close_protocol_error
      (codes "server frames must not be masked")
  reject_if (not (is_opcode opcode)) close_protocol_error (codes "unknown opcode")

abbrev pub mask_size : Bool → ℕ
mask_size masked = if masked then 4 else 0

-- The payload, and the buffer behind the frame; `none` when the frame is incomplete.
unfoldable pub frame_payload : Bool → ℕ → ℕ → Bytes → Option (Bytes × Bytes)
unfolding mask_payload
frame_payload masked n offset buffer =
    let body = drop offset buffer in
    let payload = take n (drop (mask_size masked) body) in
    if ltb (length buffer) (offset + mask_size masked + n)
    then none
    else some (
      (if masked then mask_payload payload (take 4 body) else payload),
      drop n (drop (mask_size masked) body),
    )

pub record Frame : Type 0 where
  pub fin : Bool
  pub opcode : ℕ
  pub payload : Bytes

abbrev parsed : Bool → ℕ → Option (Bytes × Bytes) → Option (Frame × Bytes)
parsed fin opcode none = none
parsed fin opcode (some (payload, rest)) =
    some (record { fin = fin; opcode = opcode; payload = payload }, rest)

abbrev pub with_length :
    ℕ → Bool → Bool → ℕ → Bool → Bytes → Option (ℕ × ℕ) → Outcome (Option (Frame × Bytes))
with_length max_payload require_mask fin opcode masked buffer none = done none
with_length max_payload require_mask fin opcode masked buffer (some (n, offset)) =
    check_frame max_payload require_mask fin opcode masked n
    >> done (parsed fin opcode (frame_payload masked n offset buffer))

-- `_parse_frame`: the frame and the buffer behind it, `none` when it is incomplete.
unfoldable pub parse_frame : ℕ → Bool → Bytes → Outcome (Option (Frame × Bytes))
unfolding frame_length check_frame frame_payload
parse_frame max_payload require_mask [] = done none
parse_frame max_payload require_mask (first ∷ []) = done none
parse_frame max_payload require_mask (first ∷ second ∷ rest) =
    let buffer = first ∷ second ∷ rest in
    reject_if (not ((first / 16) % 8 == 0)) close_protocol_error
      (codes "reserved bits must be zero")
    >> (frame_length (second % 128) buffer
        >>= with_length max_payload require_mask (not (first / 128 == 0)) (first % 16)
            (not (second / 128 == 0)) buffer)

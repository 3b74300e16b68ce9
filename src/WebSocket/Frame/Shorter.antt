-- ===== src/WebSocket/Frame/Shorter.antt =====
-- A frame that `_parse_frame` of echocorn/websocket.py reads takes two bytes of the buffer at least.
use echocorn.WebSocket.Outcome.{done, reject_if, bind-done}
use echocorn.Base.{
  ℕ, ◌+◌, ◌/◌, ◌%◌, ◌≤◌, ◌≡◌, ap, inl, inr, Bool, true, false, Option, none, some, [], ◌∷◌, length,
  length-drop, drop, Option-cases, arith, not, ◌==◌,
}
use echocorn.Base.Bytes.{Bytes}
use echocorn.WebSocket.Frame.{
  Frame, parse_frame, frame_length, check_frame, frame_payload, with_length,
}

pub frame_payload-rest :
    (masked : Bool) (n offset : ℕ) (buffer payload rest : Bytes)
    → frame_payload masked n offset buffer ≡ some (payload, rest)
    → 2 ≤ offset
    → length rest + 2 ≤ length buffer
unfolding frame_payload
frame_payload-rest true n offset buffer payload rest h two =
    let e : rest ≡ drop n (drop 4 (drop offset buffer)) = ground arith in
    let whole : offset + 4 + n ≤ length buffer = ground arith in
    omega (
      arith,
      ap length e,
      length-drop n (drop 4 (drop offset buffer)),
      length-drop 4 (drop offset buffer),
      length-drop offset buffer,
    )
frame_payload-rest false n offset buffer payload rest h two =
    let e : rest ≡ drop n (drop offset buffer) = ground arith in
    let whole : offset + n ≤ length buffer = ground arith in
    omega (arith, ap length e, length-drop n (drop offset buffer), length-drop offset buffer)

pub frame_length-offset :
    (n : ℕ) (buffer : Bytes) (size offset : ℕ)
    → frame_length n buffer ≡ done (some (size, offset))
    → 2 ≤ offset
unfolding frame_length
frame_length-offset n buffer size offset h = ground arith

pub with_length-rest :
    (max_payload : ℕ) (require_mask fin : Bool) (opcode : ℕ) (masked : Bool) (buffer : Bytes)
    (size offset : ℕ) (frame : Frame) (rest : Bytes)
    → 2 ≤ offset
    → with_length max_payload require_mask fin opcode masked buffer (some (size, offset))
      ≡ done (some (frame, rest))
    → length rest + 2 ≤ length buffer
with_length-rest max_payload require_mask fin opcode masked buffer size offset frame rest two h =
    let (_, _, h1) =
      bind-done (check_frame max_payload require_mask fin opcode masked size) _ _ h in
    elim (Option-cases (frame_payload masked size offset buffer)) [
      | inl incomplete ↦ ground arith
      | inr ((payload, rest'), e) ↦
          frame_payload-rest masked size offset buffer payload rest (ground arith) two
    ]

pub found-shorter :
    (max_payload : ℕ) (require_mask fin : Bool) (opcode n : ℕ) (masked : Bool) (buffer : Bytes)
    (found : Option (ℕ × ℕ)) (frame : Frame) (rest : Bytes)
    → frame_length n buffer ≡ done found
    → with_length max_payload require_mask fin opcode masked buffer found
      ≡ done (some (frame, rest))
    → length rest + 2 ≤ length buffer
found-shorter max_payload require_mask fin opcode n masked buffer none frame rest e h = ground arith
found-shorter max_payload require_mask fin opcode n masked buffer (some (size, offset)) frame rest e
      h =
    with_length-rest max_payload require_mask fin opcode masked buffer size offset frame rest
      (frame_length-offset n buffer size offset e) h

pub parse_frame-shorter :
    (max_payload : ℕ) (require_mask : Bool) (buffer : Bytes) (frame : Frame) (rest : Bytes)
    → parse_frame max_payload require_mask buffer ≡ done (some (frame, rest))
    → length rest + 2 ≤ length buffer
unfolding parse_frame
parse_frame-shorter max_payload require_mask [] frame rest h = ground arith
parse_frame-shorter max_payload require_mask (a ∷ []) frame rest h = ground arith
parse_frame-shorter max_payload require_mask (a ∷ b ∷ s) frame rest h =
    let (_, _, h1) = bind-done (reject_if (not ((a / 16) % 8 == 0)) _ _) _ _ h in
    let (found, e, h2) = bind-done (frame_length (b % 128) (a ∷ b ∷ s)) _ _ h1 in
    found-shorter max_payload require_mask (not (a / 128 == 0)) (a % 16) (b % 128)
      (not (b / 128 == 0)) (a ∷ b ∷ s) found frame rest e h2

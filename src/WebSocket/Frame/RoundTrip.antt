-- ===== src/WebSocket/Frame/RoundTrip.antt =====
-- A frame that `build_frame` of echocorn/websocket.py builds is the frame that `_parse_frame` reads.
use mathlib.Core.List.{append_assoc}
use echocorn.WebSocket.Outcome.{done}
use echocorn.Base.{
  ap, ◌∙◌, sym, All, null, ℕ, ◌+◌, ◌/◌, ◌%◌, ◌^◌, ◌≤◌, ◌<◌, ◌≡◌, refl, Bool, true, false, not, some,
  [], ◌∷◌, ◌++◌, arith, ltb, ◌==◌, length, length-append, take-append, drop-append, le→ltb-false,
  if◌then◌else◌,
}
use echocorn.Base.Bytes.{Bytes}
use echocorn.WebSocket.Words.{mask_payload-mask_payload, length-mask_payload, mask_payload}
use echocorn.WebSocket.Frame.{
  build_frame, Frame, parse_frame, flag, length_bytes, frame_length, is_opcode, check_frame,
  mask_size, frame_payload,
}
use echocorn.WebSocket.Frame.Length.{length_bytes-Reads}

frame_payload-split :
    (masked : Bool) (pre mask sent rest : Bytes)
    → length mask ≡ mask_size masked
    → frame_payload masked (length sent) (length pre) (pre ++ (mask ++ (sent ++ rest)))
      ≡ some ((if masked then mask_payload sent mask else sent), rest)
unfolding frame_payload
frame_payload-split true pre (a ∷ b ∷ c ∷ d ∷ []) sent rest h =
    let mask : Bytes = a ∷ b ∷ c ∷ d ∷ [] in
    let whole : ltb (length (pre ++ (mask ++ (sent ++ rest)))) (length pre + 4 + length sent)
        ≡ false =
      le→ltb-false _ _
        (omega (arith, length-append pre (mask ++ (sent ++ rest)), length-append sent rest)) in
    rw
      (
        whole,
        drop-append pre (mask ++ (sent ++ rest)),
        take-append sent rest,
        drop-append sent rest,
      )
      refl
frame_payload-split false pre [] sent rest h =
    let whole : ltb (length (pre ++ (sent ++ rest))) (length pre + 0 + length sent) ≡ false =
      le→ltb-false _ _ (omega (arith, length-append pre (sent ++ rest), length-append sent rest)) in
    rw (whole, drop-append pre (sent ++ rest), take-append sent rest, drop-append sent rest) refl
frame_payload-split true pre [] sent rest h = cc
frame_payload-split true pre (a ∷ []) sent rest h = ground arith
frame_payload-split true pre (a ∷ b ∷ []) sent rest h = ground arith
frame_payload-split true pre (a ∷ b ∷ c ∷ []) sent rest h = ground arith
frame_payload-split true pre (a ∷ b ∷ c ∷ d ∷ e ∷ mask) sent rest h = ground arith
frame_payload-split false pre (a ∷ mask) sent rest h = ground arith

check_frame-done :
    (max_payload : ℕ) (require_mask fin : Bool) (opcode n : ℕ)
    → is_opcode opcode ≡ true
    → (8 ≤ opcode → (fin ≡ true) × (n ≤ 125))
    → (opcode < 8 → n ≤ max_payload)
    → check_frame max_payload require_mask fin opcode require_mask n ≡ done tt
unfolding check_frame
check_frame-done max_payload require_mask fin opcode n known control data_ = ground arith

abbrev sent_payload : Bytes → Bytes → Bytes
sent_payload payload mask = if not (null mask) then mask_payload payload mask else payload

length-sent_payload : (payload mask : Bytes) → length (sent_payload payload mask) ≡ length payload
length-sent_payload payload [] = refl
length-sent_payload payload (a ∷ mask) = length-mask_payload payload (a ∷ mask)

received_payload :
    (payload mask : Bytes)
    → All (λ c. c < 256) payload
    → (if not (null mask)
        then mask_payload (sent_payload payload mask) mask
        else sent_payload payload mask)
      ≡ payload
received_payload payload [] h = refl
received_payload payload (a ∷ mask) h = mask_payload-mask_payload payload (a ∷ mask) h

build_frame-wire :
    (opcode second : ℕ) (payload mask ext rest : Bytes) (fin : Bool)
    → length_bytes (flag (not (null mask))) (length payload) ≡ second ∷ ext
    → build_frame opcode payload fin mask ++ rest
      ≡ (flag fin + opcode) ∷ second ∷ (ext ++ (mask ++ (sent_payload payload mask ++ rest)))
unfolding build_frame
build_frame-wire opcode second payload mask ext rest fin e =
    ap (λ s. ((flag fin + opcode) ∷ (s ++ (mask ++ sent_payload payload mask))) ++ rest) e
    ∙ ap (λ s. (flag fin + opcode) ∷ second ∷ s)
        (append_assoc ext (mask ++ sent_payload payload mask) rest
          ∙ ap (λ s. ext ++ s) (append_assoc mask (sent_payload payload mask) rest))

first_byte :
    (fin : Bool) (opcode : ℕ)
    → is_opcode opcode ≡ true
    → (((flag fin + opcode) / 16) % 8 ≡ 0)
      × (not ((flag fin + opcode) / 128 == 0) ≡ fin)
      × ((flag fin + opcode) % 16 ≡ opcode)
first_byte true opcode h = ground arith
first_byte false opcode h = ground arith

parse_frame-steps :
    (max_payload first second n : ℕ) (require_mask : Bool) (ext body payload rest : Bytes)
    (frame : Frame)
    → (first / 16) % 8 ≡ 0
    → not (first / 128 == 0) ≡ frame.fin
    → first % 16 ≡ frame.opcode
    → not (second / 128 == 0) ≡ require_mask
    → frame_length (second % 128) (first ∷ second ∷ (ext ++ body)) ≡ done (some (n, length ext + 2))
    → check_frame max_payload require_mask frame.fin frame.opcode require_mask n ≡ done tt
    → frame_payload require_mask n (length ext + 2) (first ∷ second ∷ (ext ++ body))
      ≡ some (frame.payload, rest)
    → parse_frame max_payload require_mask (first ∷ second ∷ (ext ++ body))
      ≡ done (some (frame, rest))
unfolding parse_frame
parse_frame-steps max_payload first second n require_mask ext body payload rest frame bits fin
      opcode masked read checked paid =
    rw (bits, fin, opcode, masked, read, checked, paid) refl

frame_payload-sent :
    (first second : ℕ) (ext mask payload rest : Bytes) (require_mask : Bool)
    → not (null mask) ≡ require_mask
    → length mask ≡ mask_size require_mask
    → All (λ c. c < 256) payload
    → frame_payload require_mask
        (length payload)
        (length ext + 2)
        (first ∷ second ∷ (ext ++ (mask ++ (sent_payload payload mask ++ rest))))
      ≡ some (payload, rest)
frame_payload-sent first second ext mask payload rest require_mask keyed sized bytes =
    let split =
      frame_payload-split require_mask (first ∷ second ∷ ext) mask (sent_payload payload mask) rest
        sized in
    let two : length ext + 2 ≡ length (first ∷ second ∷ ext) = omega arith in
    rw (← length-sent_payload payload mask, two)
      (split
        ∙ ap
            (λ m. some (
              (if m
                  then mask_payload (sent_payload payload mask) mask
                  else sent_payload payload mask),
              rest,
            ))
            (sym keyed)
        ∙ ap (λ p. some (p, rest)) (received_payload payload mask bytes))

-- A frame that is built, with any bytes behind it, is the frame that is parsed, and those bytes are
-- left: for the known opcodes, a payload of bytes within the limit (in one control frame of at most
-- 125 bytes for the control opcodes) and below 2^63, and a mask of four bytes exactly where the
-- parser asks for one.
pub parse_frame-build_frame :
    (max_payload opcode : ℕ) (require_mask fin : Bool) (payload mask rest : Bytes)
    → is_opcode opcode ≡ true
    → (8 ≤ opcode → (fin ≡ true) × (length payload ≤ 125))
    → (opcode < 8 → length payload ≤ max_payload)
    → length payload < 2 ^ 63
    → All (λ c. c < 256) payload
    → not (null mask) ≡ require_mask
    → length mask ≡ mask_size require_mask
    → parse_frame max_payload require_mask (build_frame opcode payload fin mask ++ rest)
      ≡ done (some (record { fin = fin; opcode = opcode; payload = payload }, rest))
parse_frame-build_frame max_payload opcode require_mask fin payload mask rest known control data_
      small bytes keyed sized =
    let masked = not (null mask) in
    let body = mask ++ (sent_payload payload mask ++ rest) in
    let (second, ext, e, flagged, read) =
      length_bytes-Reads masked (length payload) (flag fin + opcode) body small in
    let (bits, fin_bit, opcode_bits) = first_byte fin opcode known in
    rw (build_frame-wire opcode second payload mask ext rest fin e) (
      parse_frame-steps max_payload (flag fin + opcode) second (length payload) require_mask ext
        body payload rest (record { fin = fin; opcode = opcode; payload = payload }) bits fin_bit
        opcode_bits (flagged ∙ keyed) read
        (check_frame-done max_payload require_mask fin opcode (length payload) known control data_)
        (frame_payload-sent (flag fin + opcode) second ext mask payload rest require_mask keyed
          sized bytes))

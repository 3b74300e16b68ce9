-- ===== src/WebSocket/Parser/Close.antt =====
-- The close frame of echocorn/websocket.py: the peer reads the code and the reason that were sent.
use echocorn.Base.{length-take}
use echocorn.Base.{
  ◌/◌, ◌%◌, ℕ, zero, suc, ◌≤◌, ◌<◌, ◌≡◌, refl, inl, inr, true, [], ◌∷◌, arith, length, take,
  Bool-cases, ltb, if◌then◌else◌, ltb-false,
}
use echocorn.Base.Bytes.{Bytes}
use echocorn.WebSocket.Outcome.{done}
use echocorn.WebSocket.Words.{to_bytes, from_bytes, from_bytes-to_bytes}
use echocorn.WebSocket.Text.{utf8_valid}
use echocorn.WebSocket.Parser.{accepted_code, trim_text, close_payload, parse_close}

empty_valid : utf8_valid [] ≡ true
unfolding utf8_valid
empty_valid = refl

trim_text-utf8_valid : (fuel : ℕ) (raw : Bytes) → utf8_valid (trim_text fuel raw) ≡ true
unfolding trim_text
trim_text-utf8_valid zero raw = empty_valid
trim_text-utf8_valid (suc fuel) raw = elim (Bool-cases (utf8_valid raw)) [
  | inl valid ↦ rw valid valid
  | inr cut ↦ rw cut (trim_text-utf8_valid fuel (take fuel raw))
]

length-trim_text : (fuel : ℕ) (raw : Bytes) → length raw ≤ fuel → length (trim_text fuel raw) ≤ fuel
unfolding trim_text
length-trim_text zero raw h = omega arith
length-trim_text (suc fuel) raw h = elim (Bool-cases (utf8_valid raw)) [
  | inl valid ↦ rw valid h
  | inr cut ↦
      rw cut
        (omega (arith, length-trim_text fuel (take fuel raw) (omega (arith, length-take fuel raw))))
]

-- the reason as it is sent
abbrev pub sent_reason : Bytes → Bytes
sent_reason raw = if ltb 123 (length raw) then trim_text 123 (take 123 raw) else raw

sent_reason-utf8_valid : (raw : Bytes) → utf8_valid raw ≡ true → utf8_valid (sent_reason raw) ≡ true
sent_reason-utf8_valid raw h = elim (Bool-cases (ltb 123 (length raw))) [
  | inl long ↦ rw long (trim_text-utf8_valid 123 (take 123 raw))
  | inr short ↦ rw short h
]

length-sent_reason : (raw : Bytes) → length (sent_reason raw) ≤ 123
length-sent_reason raw = elim (Bool-cases (ltb 123 (length raw))) [
  | inl long ↦ rw long (length-trim_text 123 (take 123 raw) (omega (arith, length-take 123 raw)))
  | inr short ↦ rw short (ltb-false 123 (length raw) short)
]

parse_close-done :
    (code a b : ℕ) (reason : Bytes)
    → from_bytes 0 (a ∷ b ∷ []) ≡ code
    → accepted_code code ≡ true
    → utf8_valid reason ≡ true
    → parse_close (a ∷ b ∷ reason) ≡ done (code, reason)
unfolding parse_close
parse_close-done code a b reason e accepted valid = rw (e, accepted, valid) refl

-- A close frame that is sent with a code a peer may use and a reason that is UTF-8 is read with that
-- code and that reason, which is cut to 123 bytes at most, and cut so that it is UTF-8 still.
pub parse_close-close_payload :
    (code : ℕ) (raw : Bytes)
    → accepted_code code ≡ true
    → utf8_valid raw ≡ true
    → (parse_close (close_payload code raw) ≡ done (code, sent_reason raw))
      × (utf8_valid (sent_reason raw) ≡ true)
      × (length (sent_reason raw) ≤ 123)
unfolding close_payload to_bytes
parse_close-close_payload code raw accepted valid =
    let small : code < 65536 = ground arith in
    (
      parse_close-done code ((code / 256) % 256) (code % 256) (sent_reason raw)
          (from_bytes-to_bytes 2 code small) accepted (sent_reason-utf8_valid raw valid),
      sent_reason-utf8_valid raw valid,
      length-sent_reason raw,
    )

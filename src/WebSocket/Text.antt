-- ===== src/WebSocket/Text.antt =====
-- The UTF-8 that Python decodes (no overlong form, no surrogate, nothing above 0x10FFFF), and the
-- handshake headers of echocorn/websocket.py.
use echocorn.Base.{
  ℕ, ◌-◌, Bool, false, ◌&&◌, ◌||◌, not, Option, none, some, List, [], ◌∷◌, ◌++◌, leb, ◌==◌,
  if◌then◌else◌, null,
}
use echocorn.Base.Bytes.{Bytes, bytes_eq, codes, lower, strip, split}
use echocorn.Base.Pattern.{token_match}
use echocorn.Utils.Headers.{Headers}

abbrev between : ℕ → ℕ → ℕ → Bool
between a b c = leb a c && leb c b

-- How many continuation bytes a first byte asks for, and the bounds of the next one.
abbrev lead : ℕ → Option (ℕ × ℕ × ℕ)
lead c =
    if leb c 127
    then some (0, 128, 191)
    else if between 194 223 c
    then some (1, 128, 191)
    else if c == 224
    then some (2, 160, 191)
    else if c == 237
    then some (2, 128, 159)
    else if between 225 239 c
    then some (2, 128, 191)
    else if c == 240
    then some (3, 144, 191)
    else if between 241 243 c
    then some (3, 128, 191)
    else if c == 244
    then some (3, 128, 143)
    else none

abbrev next_byte : ℕ × ℕ × ℕ → ℕ → Option (ℕ × ℕ × ℕ)
next_byte (left, low, high) c =
    if left == 0 then lead c else if between low high c then some (left - 1, 128, 191) else none

unfoldable utf8_from : ℕ × ℕ × ℕ → Bytes → Bool
utf8_from (left, low, high) [] = left == 0
utf8_from expected (c ∷ s) = elim (next_byte expected c) [
  | none ↦ false
  | some expected' ↦ utf8_from expected' s
]

-- `s.decode("utf-8")` does not raise
unfoldable pub utf8_valid : Bytes → Bool
unfolding utf8_from
utf8_valid s = utf8_from (0, 128, 191) s

-- `any(token.strip().lower() == token for … in value.split(b","))`
unfoldable offers : Bytes → List Bytes → Bool
unfolding bytes_eq lower strip
offers token [] = false
offers token (piece ∷ pieces) = bytes_eq (lower (strip piece)) token || offers token pieces

-- Whether a field asks for the upgrade, and whether one names it a matter of the connection.
unfoldable upgrade_flags : Headers → Bool × Bool
unfolding offers split
upgrade_flags [] = (false, false)
upgrade_flags ((name, value) ∷ headers) =
    let (upgrade, connection) = upgrade_flags headers in
    if bytes_eq (lower name) (codes "upgrade")
    then (offers (codes "websocket") (split b',' value) || upgrade, connection)
    else if bytes_eq (lower name) (codes "connection")
    then (upgrade, offers (codes "upgrade") (split b',' value) || connection)
    else (upgrade, connection)

unfoldable pub wants_websocket : Headers → Bool
unfolding upgrade_flags
wants_websocket headers = let (upgrade, connection) = upgrade_flags headers in upgrade && connection

unfoldable token_offers : List Bytes → List Bytes
unfolding strip token_match
token_offers [] = []
token_offers (piece ∷ pieces) =
    let rest = token_offers pieces in
    if not (null (strip piece)) && token_match (strip piece) then strip piece ∷ rest else rest

unfoldable subprotocols : Headers → List Bytes
unfolding token_offers split
subprotocols [] = []
subprotocols ((name, value) ∷ headers) =
    let rest = subprotocols headers in
    if bytes_eq (lower name) (codes "sec-websocket-protocol")
    then token_offers (split b',' value) ++ rest
    else rest

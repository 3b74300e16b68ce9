-- ===== src/Config/Target.antt =====
-- `proxy_target` of echocorn/config.py: the local servers that a configuration may put the proxy in
-- front of.
use echocorn.Base.{
  ℕ, ◌+◌, ◌-◌, ◌*◌, Bool, true, false, ◌&&◌, ◌||◌, not, Option, none, some, [], ◌∷◌, length, leb,
  ◌==◌, null, all, if◌then◌else◌,
}
use echocorn.Base.Bytes.{Bytes, bytes_eq, codes, lower, partition, is_digit, is_alpha}
use echocorn.Config.{Checked, accepted, rejected, text_strip}

-- the bytes of a name, and of what may stand in brackets
abbrev is_name_byte : ℕ → Bool
is_name_byte c = is_digit c || is_alpha c || (c == b'.') || (c == b'_') || (c == b'-')

abbrev is_literal_byte : ℕ → Bool
is_literal_byte c = is_name_byte c || (c == b':') || (c == b'%')

-- `[0-9]{1,5}$`; the text is stripped, so no line feed ends it
abbrev is_port : Bytes → Bool
is_port s = not (null s) && all is_digit s && leb (length s) 5

abbrev after_colon : Bytes → Option Bytes
after_colon [] = none
after_colon (c ∷ s) = if c == b':' then some s else none

abbrev matched : Bool → Bytes → Option Bytes → Option (Bytes × Bytes)
matched good host none = none
matched good host (some port) =
    if good && not (null host) && is_port port then some (host, port) else none

-- `_PROXY_TARGET_RE`, with the brackets off the host
unfoldable pub match_target : Bytes → Option (Bytes × Bytes)
unfolding partition
match_target [] = none
match_target (c ∷ s) =
    let (literal, closed, rest) = partition b']' s in
    let (name, found, port) = partition b':' (c ∷ s) in
    if c == b'['
    then matched (all is_literal_byte literal && closed) literal (after_colon rest)
    else matched (all is_name_byte name && found) name (some port)

-- `_is_local`; `private_address` tells of an address whether it is a private, loopback or link-local
-- one, and `none` of a text that is none.
unfoldable pub is_local : (Bytes → Option Bool) → Bytes → Bool
unfolding lower bytes_eq
is_local private_address host =
    if bytes_eq (lower host) (codes "localhost")
    then true
    else elim (private_address host) [ none ↦ false | some private ↦ private ]

unfoldable pub port_number : ℕ → Bytes → ℕ
port_number n [] = n
port_number n (c ∷ s) = port_number (10 * n + (c - b'0')) s

abbrev pub vet : Bool → Bytes → ℕ → Checked (Option (Bytes × ℕ))
vet local host port =
    if not local
    then rejected (codes "only a local address (loopback or a private network) can be proxied")
    else if not (leb 1 port && leb port 65535)
    then rejected (codes "the proxied port must be within 1..65535")
    else accepted (some (host, port))

unfoldable pub check_target :
    (Bytes → Option Bool) → Option (Bytes × Bytes) → Checked (Option (Bytes × ℕ))
unfolding is_local port_number
check_target private_address none = accepted none
check_target private_address (some (host, digits)) =
    vet (is_local private_address host) host (port_number 0 digits)

unfoldable pub proxy_target : (Bytes → Option Bool) → Bytes → Checked (Option (Bytes × ℕ))
unfolding text_strip match_target check_target
proxy_target private_address value = check_target private_address (match_target (text_strip value))

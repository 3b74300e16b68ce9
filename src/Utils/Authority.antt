-- ===== src/Utils/Authority.antt =====
-- `valid_authority` and `authority_host` of echocorn/utils.py.
use echocorn.Base.{
  none, some, not, map, null, all, drop, take, ◌+◌, ℕ, Bool, true, false, ◌&&◌, ◌||◌, [], ◌∷◌, ◌==◌,
  leb, if◌then◌else◌, any,
}
use echocorn.Base.Bytes.{
  lstrip_by, rstrip_by, find, count_byte, partition, starts_with, Bytes, codes, is_digit, is_alpha,
}
use echocorn.Base.Pattern.{dollar, plus_dollar, is_hex_digit}

-- `(?::[0-9]+)?$`
unfoldable port_end : Bytes → Bool
unfolding dollar plus_dollar
port_end [] = true
port_end (c ∷ s) = dollar (c ∷ s) || ((c == b':') && plus_dollar is_digit s)

unfoldable is_host_byte : ℕ → Bool
is_host_byte c = is_digit c || is_alpha c || any (λ x. x == c) (codes "._~!$&'()*+,;=-")

unfoldable is_literal_byte : ℕ → Bool
is_literal_byte c = is_digit c || is_alpha c || (c == b':') || (c == b'.')

-- `[0-9A-Za-z:.v]+\]` and what follows
unfoldable ip_literal : Bytes → Bool
unfolding port_end is_literal_byte
ip_literal [] = false
ip_literal (c ∷ []) = false
ip_literal (c ∷ d ∷ s) =
    let rest = ip_literal (d ∷ s) in is_literal_byte c && (if d == b']' then port_end s else rest)

-- `(?:[…]|%[0-9A-Fa-f]{2})*` and what follows
unfoldable reg_name : Bytes → Bool
unfolding port_end is_host_byte is_hex_digit
reg_name [] = true
reg_name (c ∷ []) = port_end (c ∷ []) || is_host_byte c
reg_name (c ∷ d ∷ []) = port_end (c ∷ d ∷ []) || (is_host_byte c && reg_name (d ∷ []))
reg_name (c ∷ d ∷ e ∷ s) = port_end (c ∷ d ∷ e ∷ s) || elim (c == b'%') [
  | true ↦ is_hex_digit d && is_hex_digit e && reg_name s
  | false ↦ is_host_byte c && reg_name (d ∷ e ∷ s)
]

unfoldable pub valid_authority : Bytes → Bool
unfolding ip_literal reg_name
valid_authority [] = true
valid_authority (c ∷ s) = ((c == b'[') && ip_literal s) || reg_name (c ∷ s)

-- what `str.strip` takes off a text decoded from latin-1
abbrev is_text_space : ℕ → Bool
is_text_space c =
    (c == 32) || (leb 9 c && leb c 13) || (leb 28 c && leb c 31) || (c == 133) || (c == 160)

-- `str.lower` and `str.isdigit` on such a text
abbrev text_lower_byte : ℕ → ℕ
text_lower_byte c =
    if (leb b'A' c && leb c b'Z') || (leb 192 c && leb c 222 && not (c == 215)) then c + 32 else c

unfoldable text_lower : Bytes → Bytes
text_lower = map text_lower_byte

abbrev is_text_digit : ℕ → Bool
is_text_digit c = is_digit c || (c == 178) || (c == 179) || (c == 185)

unfoldable text_strip : Bytes → Bytes
unfolding lstrip_by rstrip_by
text_strip s = rstrip_by is_text_space (lstrip_by is_text_space s)

-- `tail.startswith(":") and len(tail) > 1 and tail[1:].isdigit()`
abbrev is_port_of : (ℕ → Bool) → Bytes → Bool
is_port_of digit [] = false
is_port_of digit (c ∷ s) = (c == b':') && not (null s) && all digit s

unfoldable pub authority_host : Bytes → Bytes
unfolding text_strip text_lower find count_byte partition starts_with
authority_host authority =
    let text = text_strip authority in
    let (before, found, after) = partition b':' text in
    let plain = if count_byte b':' text == 1 then text_lower before else text_lower text in
    if starts_with text (codes "[")
    then elim (find text (codes "]")) [
      | none ↦ plain
      | some end ↦
          let tail = drop (end + 1) text in
          if not (null tail) && not (is_port_of is_text_digit tail)
          then text_lower text
          else text_lower (drop 1 (take end text))
    ]
    else plain

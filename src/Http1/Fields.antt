-- ===== src/Http1/Fields.antt =====
-- The request line and the header fields that `parse_request_head` of echocorn/http1.py reads.
use echocorn.Base.{
  ℕ, suc, ◌+◌, ◌-◌, ◌*◌, Bool, true, false, ◌&&◌, ◌||◌, not, Option, none, some, List, [], ◌∷◌,
  ◌++◌, ltb, ◌==◌, length, take, drop, null, all, if◌then◌else◌, map,
}
use echocorn.Base.Bytes.{
  Bytes, bytes_eq, codes, lower, strip_blanks, starts_with, partition, split, mem,
}
use echocorn.Base.Pattern.{token_match, is_token_byte, digits_match, has_illegal_value}
use echocorn.Utils.Headers.{Headers, list_tokens}
use echocorn.Http1.Error.{Result, ok, fail, refuse_if, ◌>>=◌, ◌>>◌}

pub record ServerConfig : Type 0 where
  pub max_header_size : ℕ
  pub max_header_count : ℕ
  pub max_request_size : ℕ

abbrev pub push_line : ℕ → List Bytes → List Bytes
push_line c [] = (c ∷ []) ∷ []
push_line c (line ∷ lines) = (c ∷ line) ∷ lines

-- `split(b"\r\n")`
unfoldable pub split_lines : Bytes → List Bytes
split_lines [] = [] ∷ []
split_lines (c ∷ []) = (c ∷ []) ∷ []
split_lines (c ∷ d ∷ s) =
    let rest = split_lines s in
    let later = split_lines (d ∷ s) in
    if (c == 13) && (d == 10) then [] ∷ rest else push_line c later

-- `(1\.[01])$` behind `HTTP/`
unfoldable pub version_match : Bytes → Option Bytes
unfolding starts_with bytes_eq
version_match s =
    if mem s (map codes ("HTTP/1.0" ∷ "HTTP/1.1" ∷ "HTTP/1.0\n" ∷ "HTTP/1.1\n" ∷ []))
    then some (take 3 (drop 5 s))
    else none

-- `^([token]+) ([^ ]+) HTTP/(1\.[01])$`
unfoldable pub request_line : Bytes → Option (Bytes × Bytes × Bytes)
unfolding partition version_match is_token_byte
request_line line =
    let (method, sep, rest) = partition 32 line in
    let (target, sep', version) = partition 32 rest in
    if null method || not (all is_token_byte method) || null target || not sep || not sep'
    then none
    else elim (version_match version) [ none ↦ none | some v ↦ some (method, target, v) ]

-- `int(value)`
unfoldable pub decimal : ℕ → Bytes → ℕ
decimal n [] = n
decimal n (c ∷ s) = decimal (10 * n + (c - b'0')) s

-- What the loop over the header fields gathers.
pub record Fields : Type 0 where
  pub headers : Headers
  pub content_lengths : List ℕ
  pub transfer_encodings : List Bytes
  pub connection_tokens : List Bytes
  pub host_values : List Bytes
  pub expect_continue : Bool

abbrev pub no_fields : Fields
no_fields = record {
  headers = [];
  content_lengths = [];
  transfer_encodings = [];
  connection_tokens = [];
  host_values = [];
  expect_continue = false;
}

abbrev pub starts_blank : Bytes → Bool
starts_blank [] = false
starts_blank (c ∷ line) = (c == 32) || (c == 9)

unfoldable pub read_length : Bytes → Fields → Result Fields
unfolding decimal
read_length value f = do
  refuse_if (not (digits_match value)) 400 (codes "invalid content-length")
  refuse_if (ltb 10 (length value)) 413 (codes "payload too large")
  ok (record f { content_lengths = f.content_lengths ++ (decimal 0 value ∷ []) })

unfoldable pub read_expect : Bytes → Fields → Result Fields
unfolding lower bytes_eq
read_expect value f =
    if bytes_eq (lower value) (codes "100-continue")
    then ok (record f { expect_continue = true })
    else fail 417 (codes "unsupported expectation")

-- what a field with a special meaning adds, by its lower-cased name
unfoldable pub read_field : Bytes → Bytes → Fields → Result Fields
unfolding read_length read_expect list_tokens split
read_field name value f =
    let tokens = list_tokens (split b',' value) in
    if bytes_eq name (codes "content-length")
    then read_length value f
    else if bytes_eq name (codes "transfer-encoding")
    then ok (record f { transfer_encodings = f.transfer_encodings ++ tokens })
    else if bytes_eq name (codes "connection")
    then ok (record f { connection_tokens = f.connection_tokens ++ tokens })
    else if bytes_eq name (codes "host")
    then ok (record f { host_values = f.host_values ++ (value ∷ []) })
    else if bytes_eq name (codes "expect")
    then read_expect value f
    else ok f

-- the name and the value of the `count`th field line
unfoldable pub field_line : ServerConfig → ℕ → Bytes → Result (Bytes × Bytes)
unfolding partition
field_line config count line = do
  refuse_if (null line) 400 (codes "empty header field")
  refuse_if (starts_blank line) 400 (codes "obsolete line folding is not supported")
  let (name, sep, after) = partition b':' line
  let value = strip_blanks after
  refuse_if (not sep || not (token_match name)) 400 (codes "malformed header field")
  refuse_if (has_illegal_value value) 400 (codes "illegal character in header value")
  refuse_if (ltb config.max_header_count count) 431 (codes "too many header fields")
  ok (lower name, value)

abbrev pub add_field : Bytes × Bytes → Fields → Fields
add_field field f = record f { headers = f.headers ++ (field ∷ []) }

unfoldable pub read_line : ServerConfig → ℕ → Bytes → Fields → Result Fields
unfolding field_line read_field
read_line config count line f =
    field_line config count line >>= λ field. read_field field.0 field.1 (add_field field f)

unfoldable pub read_lines : ServerConfig → ℕ → List Bytes → Fields → Result Fields
unfolding read_line
read_lines config count [] f = ok f
read_lines config count (line ∷ lines) f =
    read_line config count line f >>= λ f'. read_lines config (suc count) lines f'

-- ===== src/Utils/Headers.antt =====
-- The header helpers of echocorn/utils.py: lookup, `add_vary` and `normalize_response_headers`.
pub mod Clean
use echocorn.Base.{
  Bool, false, ◌&&◌, ◌||◌, not, Option, none, some, List, [], ◌∷◌, ◌++◌, map, if◌then◌else◌, null,
  ltb,
}
use echocorn.Base.Bytes.{Bytes, bytes_eq, codes, lower, strip, split, mem}
use echocorn.Base.Pattern.{token_match, digits_match, has_illegal_value}

abbrev pub Headers : Type 0
Headers = List (Bytes × Bytes)

abbrev hop_by_hop_headers : List Bytes
hop_by_hop_headers = map codes (
    "connection" ∷ "keep-alive" ∷ "proxy-authenticate" ∷ "proxy-authorization" ∷ "proxy-connection"
    ∷ "te" ∷ "trailer" ∷ "transfer-encoding" ∷ "upgrade" ∷ [])

-- The fields an application must not set: all of those but `trailer`.
abbrev pub forbidden_response_headers : List Bytes
forbidden_response_headers = map codes (
    "connection" ∷ "keep-alive" ∷ "proxy-authenticate" ∷ "proxy-authorization" ∷ "proxy-connection"
    ∷ "te" ∷ "transfer-encoding" ∷ "upgrade" ∷ [])

unfoldable pub has_header : Headers → Bytes → Bool
unfolding lower bytes_eq
has_header [] name = false
has_header ((key, value) ∷ headers) name =
    bytes_eq (lower key) (lower name) || has_header headers name

unfoldable pub get_header : Headers → Bytes → Option Bytes
unfolding lower bytes_eq
get_header [] name = none
get_header ((key, value) ∷ headers) name =
    if bytes_eq (lower key) (lower name) then some value else get_header headers name

-- the tokens of a comma-separated list, stripped and lower-cased, the empty ones left out
unfoldable pub list_tokens : List Bytes → List Bytes
unfolding lower strip
list_tokens [] = []
list_tokens (piece ∷ pieces) =
    let rest = list_tokens pieces in if null (strip piece) then rest else lower (strip piece) ∷ rest

unfoldable pub add_vary : Headers → Bytes → Headers
unfolding list_tokens split
add_vary [] field = (codes "vary", field) ∷ []
add_vary ((name, value) ∷ headers) field =
    let rest = add_vary headers field in
    if not (bytes_eq (lower name) (codes "vary"))
    then (name, value) ∷ rest
    else let tokens = list_tokens (split b',' value) in
      if mem (codes "*") tokens || mem (lower field) tokens
      then (name, value) ∷ headers
      else (name, value ++ codes ", " ++ field) ∷ headers

-- What an application may hand over as a name or a value: a text, bytes of two types, or something else.
pub data Field : Type 0 where
  text : Bytes → Field
  bytes : Bytes → Field
  bytearray : Bytes → Field
  other : Field

-- An entry of its header list: a pair, or something that does not unpack into two.
pub data Item : Type 0 where
  pair : Field → Field → Item
  malformed : Item

-- `encode("latin-1", "replace")`
abbrev encode_latin1 : Bytes → Bytes
encode_latin1 = map (λ c. if ltb c 256 then c else b'?')

abbrev pub field_bytes : Field → Option Bytes
field_bytes (text s) = some (encode_latin1 s)
field_bytes (bytes b) = some b
field_bytes (bytearray b) = some b
field_bytes other = none

-- What is written for one entry whose name and value are bytes, if anything.
unfoldable pub clean_field : Bool → List Bytes → Bytes → Bytes → Option (Bytes × Bytes)
unfolding strip lower
clean_field lowercase forbidden name value =
    let name' = strip name in
    let value' = strip value in
    let lowered = lower name' in
    if not (token_match name')
    then none
    else if mem lowered forbidden || mem lowered forbidden_response_headers
    then none
    else if bytes_eq lowered (codes "content-length") && not (digits_match value')
    then none
    else if has_illegal_value value'
    then none
    else some ((if lowercase then lowered else name'), value')

unfoldable pub clean_item : Bool → List Bytes → Item → Option (Bytes × Bytes)
unfolding clean_field
clean_item lowercase forbidden malformed = none
clean_item lowercase forbidden (pair name value) = elim (field_bytes name) [
  | none ↦ none
  | some n ↦ elim (field_bytes value) [ none ↦ none | some v ↦ clean_field lowercase forbidden n v ]
]

abbrev push_some : Option (Bytes × Bytes) → Headers → Headers
push_some none headers = headers
push_some (some field) headers = field ∷ headers

unfoldable pub normalize_response_headers : List Item → Bool → List Bytes → Headers
unfolding clean_item
normalize_response_headers [] lowercase forbidden = []
normalize_response_headers (item ∷ items) lowercase forbidden =
    push_some (clean_item lowercase forbidden item)
      (normalize_response_headers items lowercase forbidden)

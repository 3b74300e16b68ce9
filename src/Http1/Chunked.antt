-- ===== src/Http1/Chunked.antt =====
-- `ChunkedDecoder` of echocorn/http1.py.
pub mod Decode
pub mod Encode
pub mod SizeLine
pub mod Turns
pub mod RoundTrip
pub mod Split
pub mod Join
pub mod Stream
pub mod Append
use echocorn.Base.{
  ℕ, zero, suc, ◌+◌, ◌-◌, ◌*◌, ◌^◌, min, ◌≡◌, Bool, true, false, ◌&&◌, ◌||◌, not, Option, none,
  some, List, [], ◌∷◌, ◌++◌, leb, ltb, ◌==◌, length, take, drop, null, any, if◌then◌else◌,
}
use echocorn.Base.Bytes.{Bytes, bytes_eq, codes, lower, strip, find, partition}
use echocorn.Base.Pattern.{token_match, hex_match, has_illegal_value}
use echocorn.Http1.Error.{Result, ok, err, fail, refuse_if, ◌>>=◌, ◌>>◌}

abbrev pub crlf : Bytes
crlf = 13 ∷ 10 ∷ []

abbrev max_chunk_line : ℕ
max_chunk_line = 1024

abbrev max_trailer_fields : ℕ
max_trailer_fields = 64

pub data State : Type 0 where
  size data_ trailer : State

pub record ChunkedDecoder : Type 0 where
  pub state : State
  pub remaining : ℕ
  pub done : Bool
  pub trailers : List (Bytes × Bytes)

abbrev pub init : ChunkedDecoder
init = record { state = size; remaining = 0; done = false; trailers = [] }

abbrev hex_value : ℕ → ℕ
hex_value c = if leb c b'9' then c - b'0' else if leb c b'F' then c - b'A' + 10 else c - b'a' + 10

-- `int(line, 16)`
unfoldable hex_number : ℕ → Bytes → ℕ
hex_number n [] = n
hex_number n (c ∷ s) = hex_number (16 * n + hex_value c) s

-- One turn of the loop: what it hands out, the buffer and the decoder that it leaves, and whether
-- the loop goes on.
pub record Turn : Type 0 where
  pub chunk : Bytes
  pub buffer : Bytes
  pub decoder : ChunkedDecoder
  pub again : Bool

abbrev stop : Bytes → ChunkedDecoder → Result Turn
stop buffer d = ok (record { chunk = []; buffer = buffer; decoder = d; again = false })

abbrev go_on : Bytes → ChunkedDecoder → Result Turn
go_on buffer d = ok (record { chunk = []; buffer = buffer; decoder = d; again = true })

-- the number of a chunk size line, with the limit checked
unfoldable pub chunk_size : ℕ → Bytes → Result ℕ
unfolding hex_number
chunk_size max_size line = do
  refuse_if (null line) 400 (codes "empty chunk size")
  refuse_if (not (hex_match line)) 400 (codes "invalid chunk size")
  refuse_if (ltb 0 max_size && ltb 8 (length line) && ltb max_size (2 ^ (4 * (length line - 1))))
      413 (codes "payload too large")
  refuse_if (ltb 0 max_size && ltb max_size (hex_number 0 line)) 413 (codes "payload too large")
  ok (hex_number 0 line)

-- `line.split(b";", 1)[0].strip()`
unfoldable pub size_field : Bytes → Bytes
unfolding partition strip
size_field line = let (before, found, after) = partition b';' line in strip before

abbrev pub announced : ℕ → ChunkedDecoder → ChunkedDecoder
announced n d =
    if n == 0 then (record d { state = trailer }) else (record d { state = data_; remaining = n })

unfoldable pub turn_size : ℕ → Bytes → ChunkedDecoder → Result Turn
unfolding find chunk_size size_field
turn_size max_size buffer d = elim (find buffer crlf) [
  | none ↦
      if ltb max_chunk_line (length buffer)
      then fail 400 (codes "chunk size line too long")
      else stop buffer d
  | some index ↦ do
    n ← chunk_size max_size (size_field (take index buffer))
    go_on (drop (index + 2) buffer) (announced n d)
]

abbrev pub after_chunk : Bytes → Bytes → ChunkedDecoder → Result Turn
after_chunk chunk [] d = ok (record { chunk = chunk; buffer = []; decoder = d; again = false })
after_chunk chunk (c ∷ []) d =
    ok (record { chunk = chunk; buffer = c ∷ []; decoder = d; again = false })
after_chunk chunk (c ∷ c' ∷ rest) d =
    if (c == 13) && (c' == 10)
    then ok
        (record { chunk = chunk; buffer = rest; decoder = record d { state = size }; again = true })
    else fail 400 (codes "malformed chunk terminator")

unfoldable pub turn_data : Bytes → ChunkedDecoder → Result Turn
turn_data buffer d =
    let taken = min (length buffer) d.remaining in
    let d' : ChunkedDecoder = record d { remaining = d.remaining - taken } in
    let chunk = take taken buffer in
    let rest = drop taken buffer in
    if not (d'.remaining == 0)
    then ok (record { chunk = chunk; buffer = rest; decoder = d'; again = false })
    else after_chunk chunk rest d'

abbrev folded : Bytes → Bool
folded [] = false
folded (c ∷ line) = (c == 32) || (c == 9)

-- one line of the trailer section
unfoldable pub trailer_field : Bytes → Result (Bytes × Bytes)
unfolding partition strip lower
trailer_field line = do
  refuse_if (folded line || not (any (λ c. c == b':') line)) 400 (codes "malformed trailer field")
  let (before, found, after) = partition b':' line
  let name = lower (strip before)
  let value = strip after
  refuse_if (not (token_match name)) 400 (codes "invalid trailer field name")
  refuse_if (has_illegal_value value) 400 (codes "illegal character in trailer value")
  refuse_if (ltb 8192 (length value)) 400 (codes "trailer value too large")
  ok (name, value)

abbrev keep_trailer : Bytes × Bytes → ChunkedDecoder → ChunkedDecoder
keep_trailer field d =
    if ltb (length d.trailers) max_trailer_fields
    then (record d { trailers = d.trailers ++ (field ∷ []) })
    else d

unfoldable pub turn_trailer : Bytes → ChunkedDecoder → Result Turn
unfolding find trailer_field
turn_trailer buffer d = elim (find buffer crlf) [
  | none ↦
      if ltb max_chunk_line (length buffer)
      then fail 400 (codes "trailer line too long")
      else stop buffer d
  | some index ↦
      let line = take index buffer in
      let rest = drop (index + 2) buffer in
      if null line
      then stop rest (record d { done = true })
      else do field ← trailer_field line; go_on rest (keep_trailer field d)
]

unfoldable pub turn : ℕ → Bytes → ChunkedDecoder → Result Turn
unfolding turn_size turn_data turn_trailer
turn max_size buffer d = elim d.state [
  | size ↦ turn_size max_size buffer d
  | data_ ↦ turn_data buffer d
  | trailer ↦ turn_trailer buffer d
]

abbrev pub push_chunk : Bytes → List Bytes → List Bytes
push_chunk [] chunks = chunks
push_chunk (c ∷ chunk) chunks = (c ∷ chunk) ∷ chunks

pub record Fed : Type 0 where
  pub chunks : List Bytes
  pub buffer : Bytes
  pub decoder : ChunkedDecoder

abbrev pub prepend : Bytes → Result Fed → Result Fed
prepend chunk (ok fed) =
    ok (record { chunks = push_chunk chunk fed.chunks; buffer = fed.buffer; decoder = fed.decoder })
prepend chunk (err e) = err e

abbrev pub last_turn : Turn → Result Fed
last_turn t = ok (record { chunks = push_chunk t.chunk []; buffer = t.buffer; decoder = t.decoder })

-- `feed`, one unit of fuel for each turn; what no fuel is left for stays in the buffer.
unfoldable pub feed_fuel : ℕ → ℕ → Bytes → ChunkedDecoder → Result Fed
unfolding turn
feed_fuel zero max_size buffer d = ok (record { chunks = []; buffer = buffer; decoder = d })
feed_fuel (suc fuel) max_size buffer d = elim (turn max_size buffer d) [
  | err e ↦ err e
  | ok t ↦ elim t.again [
    | true ↦ prepend t.chunk (feed_fuel fuel max_size t.buffer t.decoder)
    | false ↦ last_turn t
  ]
]

-- Every turn that goes on takes two bytes at least, so the buffer's length bounds the turns.
unfoldable pub feed : ℕ → Bytes → ChunkedDecoder → Result Fed
unfolding feed_fuel
feed max_size buffer d = feed_fuel (suc (length buffer)) max_size buffer d

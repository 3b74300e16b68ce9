-- ===== src/Http1/Chunked/Encode.antt =====
-- How the writer of echocorn/http1.py frames a chunked body.
use echocorn.Base.{List, [], ◌∷◌, ◌++◌, length}
use echocorn.Base.Bytes.{Bytes}
use echocorn.Base.Numerals.{hexadecimal}
use echocorn.Http1.Chunked.{crlf}

-- what `_write_chunk` writes for a chunk that is not empty
unfoldable pub encode_chunk : Bytes → Bytes
unfolding hexadecimal
encode_chunk chunk = hexadecimal (length chunk) ++ (crlf ++ (chunk ++ crlf))

abbrev pub last_chunk : Bytes
last_chunk = b'0' ∷ 13 ∷ 10 ∷ 13 ∷ 10 ∷ []

-- the chunks of a body, with the end of it, in front of what follows on the wire
unfoldable pub encode_body : List Bytes → Bytes → Bytes
unfolding encode_chunk
encode_body [] rest = last_chunk ++ rest
encode_body (chunk ∷ chunks) rest = encode_chunk chunk ++ encode_body chunks rest

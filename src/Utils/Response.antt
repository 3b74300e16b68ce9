-- ===== src/Utils/Response.antt =====
-- Which responses carry a body, and which may be compressed (echocorn/utils.py).
use echocorn.Base.{
  ◌-◌, ℕ, Bool, true, false, ◌&&◌, ◌||◌, not, Option, none, some, List, [], ◌∷◌, map, leb, ltb,
  ◌==◌, if◌then◌else◌, null, any,
}
use echocorn.Base.Bytes.{
  Bytes, bytes_eq, codes, lower, strip, starts_with, ends_with, partition, mem,
}
use echocorn.Utils.Headers.{Headers, has_header, get_header}

abbrev upper_byte : ℕ → ℕ
upper_byte c = if leb b'a' c && leb c b'z' then c - 32 else c

-- `method.upper() == "HEAD"`
unfoldable is_head : Bytes → Bool
unfolding bytes_eq
is_head method = bytes_eq (map upper_byte method) (codes "HEAD")

unfoldable pub response_has_body : Bytes → ℕ → Bool
unfolding is_head
response_has_body method status =
    if is_head method
    then false
    else if leb 100 status && ltb status 200
    then false
    else not ((status == 204) || (status == 304))

unfoldable pub bodyless_header_drops : Bytes → ℕ → List Bytes
unfolding is_head
bodyless_header_drops method status =
    if is_head method
    then codes "transfer-encoding" ∷ []
    else if status == 304
    then codes "transfer-encoding" ∷ []
    else codes "content-length" ∷ codes "transfer-encoding" ∷ []

abbrev precompressed : List Bytes
precompressed = map codes (
    "image/jpeg" ∷ "image/png" ∷ "image/gif" ∷ "image/webp" ∷ "image/avif" ∷ "image/jxl"
    ∷ "image/heic" ∷ "image/heif" ∷ "video/" ∷ "audio/" ∷ "application/zip"
    ∷ "application/x-zip-compressed" ∷ "application/gzip" ∷ "application/x-gzip"
    ∷ "application/zstd" ∷ "application/x-zstd" ∷ "application/bzip2" ∷ "application/x-bzip2"
    ∷ "application/x-7z-compressed" ∷ "application/x-rar" ∷ "application/vnd.rar"
    ∷ "application/x-rar-compressed" ∷ "application/x-xz" ∷ "application/x-lzip"
    ∷ "application/x-lzma" ∷ "application/x-compress" ∷ "font/woff" ∷ "font/woff2"
    ∷ "application/font-woff" ∷ "application/font-woff2" ∷ "application/epub+zip" ∷ [])

abbrev compressible_exact : List Bytes
compressible_exact = map codes (
    "application/json" ∷ "application/ld+json" ∷ "application/manifest+json"
    ∷ "application/x-ndjson" ∷ "application/javascript" ∷ "application/x-javascript"
    ∷ "application/ecmascript" ∷ "application/xml" ∷ "application/xhtml+xml" ∷ "application/rss+xml"
    ∷ "application/atom+xml" ∷ "application/x-www-form-urlencoded" ∷ "application/graphql"
    ∷ "image/svg+xml" ∷ "image/x-icon" ∷ [])

unfoldable compressible_content_type : Bytes → Bool
unfolding partition strip lower starts_with ends_with
compressible_content_type content_type =
    let (before, found, after) = partition b';' content_type in
    let media_type = lower (strip before) in
    if null media_type
    then false
    else if any (starts_with media_type) precompressed
    then false
    else if starts_with media_type (codes "text/")
    then true
    else if mem media_type compressible_exact
    then true
    else ends_with media_type (codes "+json") || ends_with media_type (codes "+xml")

abbrev min_compress_size : ℕ
min_compress_size = 1280

-- `int_of` is Python's `int` on bytes, a negative number read as 0, `none` for a `ValueError`.
unfoldable long_enough : (Bytes → Option ℕ) → Option Bytes → Bool
long_enough int_of none = true
long_enough int_of (some value) = elim (int_of value) [
  | none ↦ false
  | some length ↦ not (ltb length min_compress_size)
]

unfoldable compressible_type : Option Bytes → Bool
unfolding compressible_content_type
compressible_type none = false
compressible_type (some content_type) = compressible_content_type content_type

unfoldable pub compressible_response : (Bytes → Option ℕ) → Bytes → ℕ → Headers → Bool
unfolding response_has_body long_enough compressible_type
compressible_response int_of method status headers =
    if not (response_has_body method status)
    then false
    else if status == 206
    then false
    else if has_header headers (codes "content-encoding")
    then false
    else if has_header headers (codes "content-range")
    then false
    else if not (compressible_type (get_header headers (codes "content-type")))
    then false
    else long_enough int_of (get_header headers (codes "content-length"))

-- `negotiate` is `negotiate_content_encoding` of the request's headers.
unfoldable pub should_compress :
    (Bytes → Option ℕ) → (Headers → Option Bytes) → Bytes → ℕ → Headers → Headers → Option Bytes
unfolding compressible_response
should_compress int_of negotiate method status response_headers request_headers =
    if not (compressible_response int_of method status response_headers)
    then none
    else negotiate request_headers

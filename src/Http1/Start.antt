-- ===== src/Http1/Start.antt =====
-- The start of a response in `_write_response` of echocorn/http1.py: coding, framing and head.
use echocorn.Base.{
  ℕ, Bool, true, false, ◌&&◌, ◌||◌, not, Option, none, some, List, [], ◌∷◌, ◌++◌, if◌then◌else◌,
  ltb, ◌≡◌, refl,
}
use echocorn.Base.Bytes.{Bytes, bytes_eq, codes, lower, mem}
use echocorn.Utils.Headers.{
  Headers, Item, has_header, get_header, add_vary, normalize_response_headers,
}
use echocorn.Utils.Response.{
  response_has_body, bodyless_header_drops, compressible_response, should_compress,
}
use echocorn.Http1.Writer.{Env, Scope, Writer, write, build_head, interim_head}

-- What one pass of the loop ends in: another pass, `break`, or an exception.
pub data Pass : Type 0 where
  continue_ : Writer → Pass
  break_ : Writer → Pass
  raise_ : Writer → Pass

-- A pass is one of the three.
pub data IsPass (p : Pass) : Type 0 where
  continues : (w : Writer) → p ≡ continue_ w → IsPass p
  breaks : (w : Writer) → p ≡ break_ w → IsPass p
  raises : (w : Writer) → p ≡ raise_ w → IsPass p

pub Pass-cases : (p : Pass) → IsPass p
Pass-cases (continue_ w) = continues w refl
Pass-cases (break_ w) = breaks w refl
Pass-cases (raise_ w) = raises w refl

-- the fields whose name is not in the list
unfoldable pub without : List Bytes → Headers → Headers
unfolding lower
without drop [] = []
without drop ((name, value) ∷ headers) =
    let rest = without drop headers in if mem (lower name) drop then rest else (name, value) ∷ rest

-- the headers and the compressor for the coding that was chosen
unfoldable pub apply_coding : Option Bytes → Headers → Writer → Writer
unfolding without
apply_coding none headers w = record w { headers = headers }
apply_coding (some encoding) headers w = record w {
  headers =
      without (codes "content-length" ∷ []) headers ++ ((codes "content-encoding", encoding) ∷ []);
  compressor = some (encoding, []);
}

-- the headers given, with the `Vary` of a response that compression may rewrite
unfoldable pub varied : Env → Scope → ℕ → Headers → Headers
unfolding add_vary compressible_response
varied env scope status given =
    if compressible_response env.int_of scope.method status given
    then add_vary given (codes "Accept-Encoding")
    else given

unfoldable pub choose_coding : Env → Scope → ℕ → Headers → Writer → Writer
unfolding varied should_compress apply_coding
choose_coding env scope status given w =
    let headers = varied env scope status given in
    apply_coding
      (should_compress env.int_of env.negotiate scope.method status headers scope.headers) headers w

abbrev pub no_compressor : Writer → Bool
no_compressor w = elim w.compressor [ none ↦ true | some c ↦ false ]

-- how the end of the body is told, `has_body` known
unfoldable pub choose_framing : Scope → ℕ → Bool → Writer → Writer
unfolding without bodyless_header_drops has_header bytes_eq
choose_framing scope status has_body w =
    if not has_body
    then (record w {
      headers = without (bodyless_header_drops scope.method status) w.headers;
      chunked = false;
    })
    else if not (no_compressor w) || not (has_header w.headers (codes "content-length"))
    then (if bytes_eq scope.http_version (codes "1.1")
        then (record w {
          headers = w.headers ++ ((codes "transfer-encoding", codes "chunked") ∷ []);
          chunked = true;
        })
        else (record w { chunked = false; keep_alive = false }))
    else (record w { chunked = false })

-- `int(raw_length)`, `none` for an exception
unfoldable pub declared : Env → Bool → Writer → Option (Option ℕ)
unfolding get_header
declared env has_body w =
    if not w.chunked && has_body
    then elim (get_header w.headers (codes "content-length")) [
      | none ↦ some none
      | some value ↦ elim (env.int_of value) [ none ↦ none | some n ↦ some (some n) ]
    ]
    else some w.declared_length

-- the final head, once the framing is known
unfoldable pub write_head : Env → Scope → ℕ → Bool → Bool → Writer → Pass
unfolding write build_head
write_head env scope status has_body more w =
    let w' = write env (build_head env scope status w.headers w.keep_alive) w in
    let w'' : Writer = record w' { started = true; discard_body = not has_body } in
    if not has_body && not more then break_ w'' else continue_ w''

-- the head, once `int` has read the length that the headers announce
unfoldable pub write_framed : Env → Scope → ℕ → Bool → Bool → Writer → Pass
unfolding declared write_head
write_framed env scope status has_body more w = elim (declared env has_body w) [
  | none ↦ raise_ w
  | some length ↦ write_head env scope status has_body more (record w { declared_length = length })
]

-- the state in which the framing is chosen
unfoldable pub accept_start : Env → Scope → ℕ → Headers → Bool → Bool → Writer → Writer
unfolding choose_coding
accept_start env scope status headers announced has_body w =
    let w' : Writer = record w {
      status = some status;
      headers = headers;
      trailers_expected = announced && has_body;
    } in
    if has_body && env.compression then choose_coding env scope status headers w' else w'

unfoldable pub write_final : Env → Scope → ℕ → Headers → Bool → Bool → Writer → Pass
unfolding response_has_body accept_start choose_framing write_framed
write_final env scope status headers announced more w =
    let has_body = response_has_body scope.method status in
    write_framed env scope status has_body more (
      choose_framing scope status has_body
        (accept_start env scope status headers announced has_body w))

unfoldable pub on_start : Env → Scope → ℕ → List Item → Bool → Bool → Writer → Pass
unfolding normalize_response_headers interim_head write write_final
on_start env scope status items announced more w =
    let headers = normalize_response_headers items false [] in
    if ltb status 200
    then continue_ (write env (interim_head env status headers) w)
    else write_final env scope status headers announced more w

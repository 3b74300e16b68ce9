-- ===== src/Http1/Response/Delimited.antt =====
-- Every response of echocorn/http1.py on a connection that stays open tells where its body ends.
use mathlib.Core.Path.{subst}
use echocorn.Base.{
  if-true, if-false, ℕ, ◌≡◌, sym, inl, inr, Bool, true, false, ◌||◌, not, Option, none, some, List,
  [], ◌∷◌, Bool-cases, Option-cases, arith, ltb,
}
use echocorn.Base.Bytes.{Bytes, codes, bytes_eq, lower}
use echocorn.Utils.Headers.{Headers, Item, has_header, get_header, normalize_response_headers}
use echocorn.Utils.Response.{response_has_body}
use echocorn.Http1.Writer.{
  Env, Scope, Writer, write, write_chunk, interim_head, write_error_response,
}
use echocorn.Http1.Start.{
  Pass, continue_, break_, raise_, Pass-cases, continues, breaks, raises, on_start, choose_framing,
  declared, write_head, write_framed, accept_start, write_final,
}
use echocorn.Http1.Response.{
  Message, start, body, trailers, writer, on_body, on_trailers, on_message, end_body, write_body,
  write_plain, write_compressed, write_response, close_response,
}

abbrev pub has_length : Writer → Bool
has_length w = elim w.declared_length [ none ↦ false | some n ↦ true ]

-- A response that is started on a connection to be kept has no body, or is chunked, or announces its
-- length.
abbrev pub IsDelimited : Writer → Type 0
IsDelimited w =
    w.started ≡ true → w.keep_alive ≡ true → (w.discard_body || w.chunked || has_length w) ≡ true

abbrev HoldsAfter : Pass → Type 0
HoldsAfter (continue_ w) = IsDelimited w
HoldsAfter (break_ w) = IsDelimited w
HoldsAfter (raise_ w) = Unit {0}

has_header-get_header :
    (headers : Headers) (name : Bytes)
    → has_header headers name ≡ true
    → (v : Bytes) × (get_header headers name ≡ some v)
unfolding has_header get_header
has_header-get_header [] name h = cc
has_header-get_header ((key, value) ∷ headers) name h =
    elim (Bool-cases (bytes_eq (lower key) (lower name))) [
      | inl same ↦ (value, ground arith)
      | inr differs ↦
          let (v, e) = has_header-get_header headers name (ground arith) in (v, ground arith)
    ]

abbrev content_length : Bytes
content_length = codes "content-length"

-- A body that is neither chunked nor of a known length ends with the connection.
choose_framing-length :
    (scope : Scope) (status : ℕ) (has_body : Bool) (w : Writer)
    → (choose_framing scope status has_body w).keep_alive ≡ true
    → (not has_body
        || (choose_framing scope status has_body w).chunked
        || has_header (choose_framing scope status has_body w).headers content_length)
      ≡ true
unfolding choose_framing
choose_framing-length scope status has_body w h = ground arith

abbrev is_some : Option ℕ → Bool
is_some none = false
is_some (some n) = true

declared-length :
    (env : Env) (has_body : Bool) (w : Writer) (l : Option ℕ)
    → declared env has_body w ≡ some l
    → (not has_body || w.chunked || has_header w.headers content_length) ≡ true
    → (not has_body || w.chunked || is_some l) ≡ true
unfolding declared
declared-length env has_body w l e h = elim (Bool-cases (has_header w.headers content_length)) [
  | inl there ↦
      let (v, found) = has_header-get_header w.headers content_length there in ground arith
  | inr missing ↦ ground arith
]

write-IsDelimited :
    (env : Env) (s : Bytes) (w : Writer) → IsDelimited w → IsDelimited (write env s w)
unfolding write
write-IsDelimited env s w h = ground arith

write_head-IsDelimited :
    (env : Env) (scope : Scope) (status : ℕ) (has_body more : Bool) (w : Writer)
    → (w.keep_alive ≡ true → (not has_body || w.chunked || has_length w) ≡ true)
    → HoldsAfter (write_head env scope status has_body more w)
unfolding write_head write
write_head-IsDelimited env scope status has_body more w h = ground arith

write_chunk-IsDelimited :
    (env : Env) (s : Bytes) (w : Writer) → IsDelimited w → IsDelimited (write_chunk env s w)
unfolding write_chunk write
write_chunk-IsDelimited env s w h = ground arith

write_plain-IsDelimited :
    (env : Env) (s : Bytes) (w : Writer) → IsDelimited w → IsDelimited (write_plain env s w)
unfolding write_plain write_chunk write
write_plain-IsDelimited env s w h = ground arith

write_compressed-IsDelimited :
    (env : Env) (c : Bytes × List Bytes) (s : Bytes) (more : Bool) (w : Writer)
    → IsDelimited w
    → IsDelimited (write_compressed env c s more w)
unfolding write_compressed write_chunk write
write_compressed-IsDelimited env (encoding, seen) s more w h = ground arith

write_body-IsDelimited :
    (env : Env) (s : Bytes) (more : Bool) (w : Writer)
    → IsDelimited w
    → IsDelimited (write_body env s more w)
unfolding write_body
write_body-IsDelimited env s more w h = elim (Option-cases w.compressor) [
  | inl plain ↦ ground (arith, write_plain-IsDelimited env s w h)
  | inr (c, e) ↦ rw (write_body, e) (write_compressed-IsDelimited env c s more w h)
]

end_body-IsDelimited :
    (env : Env) (more : Bool) (w : Writer) → IsDelimited w → HoldsAfter (end_body env more w)
unfolding end_body write
end_body-IsDelimited env more w h = ground arith

on_body-IsDelimited :
    (env : Env) (s : Bytes) (more gave_up : Bool) (w : Writer)
    → IsDelimited w
    → HoldsAfter (on_body env s more gave_up w)
unfolding on_body
on_body-IsDelimited env s more gave_up w h = ground (
  arith,
  end_body-IsDelimited env more (write_body env s more w) (write_body-IsDelimited env s more w h),
)

on_trailers-IsDelimited :
    (env : Env) (items : List Item) (more : Bool) (w : Writer)
    → IsDelimited w
    → HoldsAfter (on_trailers env items more w)
unfolding on_trailers write
on_trailers-IsDelimited env items more w h = ground arith

write_framed-IsDelimited :
    (env : Env) (scope : Scope) (status : ℕ) (has_body more : Bool) (w : Writer)
    → (w.keep_alive ≡ true
        → (not has_body || w.chunked || has_header w.headers content_length) ≡ true)
    → HoldsAfter (write_framed env scope status has_body more w)
unfolding write_framed
write_framed-IsDelimited env scope status has_body more w h =
    elim (Option-cases (declared env has_body w)) [
      | inl failed ↦ rw (write_framed, failed) tt
      | inr (l, e) ↦
          let announcing : Writer = record w { declared_length = l } in
          rw (write_framed, e)
            (write_head-IsDelimited env scope status has_body more announcing
              (λ keep. declared-length env has_body w l e (h keep)))
    ]

write_final-IsDelimited :
    (env : Env) (scope : Scope) (status : ℕ) (headers : Headers) (announced more : Bool)
    (w : Writer)
    → HoldsAfter (write_final env scope status headers announced more w)
unfolding write_final
write_final-IsDelimited env scope status headers announced more w =
    let has_body = response_has_body scope.method status in
    let coded = accept_start env scope status headers announced has_body w in
    write_framed-IsDelimited env scope status has_body more
      (choose_framing scope status has_body coded)
      (choose_framing-length scope status has_body coded)

on_start-IsDelimited :
    (env : Env) (scope : Scope) (status : ℕ) (items : List Item) (announced more : Bool)
    (w : Writer)
    → IsDelimited w
    → HoldsAfter (on_start env scope status items announced more w)
unfolding on_start
on_start-IsDelimited env scope status items announced more w h =
    let headers = normalize_response_headers items false [] in
    elim (Bool-cases (ltb status 200)) [
      | inl interim ↦
          subst HoldsAfter (sym (if-true _ _ interim))
            (write-IsDelimited env (interim_head env status headers) w h)
      | inr final ↦
          subst HoldsAfter (sym (if-false _ _ final))
            (write_final-IsDelimited env scope status headers announced more w)
    ]

write_error_response-keep_alive :
    (env : Env) (scope : Scope) (status : ℕ) (w : Writer)
    → (write_error_response env scope status w).keep_alive ≡ false
unfolding write_error_response write
write_error_response-keep_alive env scope status w = ground arith

close_response-IsDelimited :
    (env : Env) (scope : Scope) (w : Writer)
    → IsDelimited w
    → IsDelimited (close_response env scope w)
unfolding close_response
close_response-IsDelimited env scope w h =
    ground (arith, write_error_response-keep_alive env scope 500)

on_message-IsDelimited :
    (env : Env) (scope : Scope) (message : Message) (w : Writer)
    → IsDelimited w
    → HoldsAfter (on_message env scope message w)
unfolding on_message
on_message-IsDelimited env scope (start status items announced more) w h =
    on_start-IsDelimited env scope status items announced more w h
on_message-IsDelimited env scope (body s more gave_up) w h =
    on_body-IsDelimited env s more gave_up w h
on_message-IsDelimited env scope (trailers items more) w h =
    on_trailers-IsDelimited env items more w h

-- Whatever messages the application sends and in whatever order, while the writer waits and when it
-- is over: a response that has been started on a connection that is to be kept has no body, is
-- chunked, or has announced the length of its body. The writer starts from a state in which that holds.
pub write_response-IsDelimited :
    (env : Env) (scope : Scope) (messages : List Message) (w : Writer)
    → IsDelimited w
    → IsDelimited (writer (write_response env scope messages w))
unfolding write_response
write_response-IsDelimited env scope [] w h = h
write_response-IsDelimited env scope (message ∷ messages) w h =
    let after = on_message-IsDelimited env scope message w h in
    elim (Pass-cases (on_message env scope message w)) [
      | continues w' e ↦
          rw (write_response, e)
            (write_response-IsDelimited env scope messages w' (subst HoldsAfter e after))
      | breaks w' e ↦
          rw (write_response, e)
            (close_response-IsDelimited env scope w' (subst HoldsAfter e after))
      | raises w' e ↦ rw (write_response, e) (ground arith)
    ]

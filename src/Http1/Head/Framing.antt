-- ===== src/Http1/Head/Framing.antt =====
-- How an accepted request head of echocorn/http1.py frames the body that follows it.
use mathlib.Core.Path.{subst}
use echocorn.Base.{
  ◌+◌, ◌≤◌, drop, take, ltb-false, length, suc, Bool, some, ltb, Option-cases, ℕ, ◌≡◌, refl, ◌⊎◌,
  inl, inr, true, false, Option, none, List, [], ◌∷◌, ◌++◌, null, All, Bool-cases, arith,
}
use echocorn.Base.Bytes.{find, Bytes, bytes_eq, codes}
use echocorn.Base.Pattern.{has_illegal_target}
use echocorn.Utils.Headers.{Headers}
use echocorn.Http1.Error.{ok-injective, bind-ok, refuse_if-ok, ok}
use echocorn.Http1.Head.{
  head_at, crlf2, build_head, max_target_length, ParsedHead, rewrite_host, apply_target, head_of,
  parse_request_head, Url, request_of, check_method, host_of, target_authority, is_absolute,
  framing,
}
use echocorn.Http1.Fields.{
  request_line, split_lines, no_fields, read_line, read_lines, field_line, add_field, ServerConfig,
  Fields, read_length, read_expect, decimal, read_field,
}

abbrev length_name : Bytes
length_name = codes "content-length"

-- No field of the list announces a length.
abbrev IsUnmeasured : Headers → Type 0
IsUnmeasured headers = All (λ (field : Bytes × Bytes). bytes_eq field.0 length_name ≡ false) headers

abbrev IsTold : Fields → Type 0
IsTold f = null f.content_lengths ≡ true → IsUnmeasured f.headers

null-append : {A : Type 0} (xs : List A) (x : A) → null (xs ++ (x ∷ [])) ≡ false
null-append [] x = refl
null-append (y ∷ xs) x = refl

read_length-told :
    (value : Bytes) (f f' : Fields)
    → read_length value f ≡ ok f'
    → (null f'.content_lengths ≡ false) × (f'.headers ≡ f.headers)
unfolding read_length
read_length-told value f f' h = ground (arith, null-append f.content_lengths (decimal 0 value))

read_field-told :
    (name value : Bytes) (f f' : Fields)
    → read_field name value f ≡ ok f'
    → ((null f'.content_lengths ≡ false)
        ⊎ ((bytes_eq name length_name ≡ false) × (f'.content_lengths ≡ f.content_lengths)))
      × (f'.headers ≡ f.headers)
unfolding read_field read_expect
read_field-told name value f f' h = elim (Bool-cases (bytes_eq name length_name)) [
  | inl measured ↦ ground (arith, read_length-told value f f')
  | inr other ↦ ground (arith)
]

framing-chunked :
    (config : ServerConfig) (version : Bytes) (encodings : List Bytes) (lengths : List ℕ)
    (frame : Bool × Option ℕ)
    → framing config version encodings lengths ≡ ok frame
    → frame.0 ≡ true
    → (null lengths ≡ true) × (frame.1 ≡ none) × (bytes_eq version (codes "1.0") ≡ false)
unfolding framing
framing-chunked config version [] [] frame h = ground arith
framing-chunked config version [] (m ∷ lengths) frame h = ground arith
framing-chunked config version (c ∷ encodings) lengths frame h = ground arith

IsUnmeasured-append :
    (headers : Headers) (field : Bytes × Bytes)
    → IsUnmeasured headers
    → bytes_eq field.0 length_name ≡ false
    → IsUnmeasured (headers ++ (field ∷ []))
IsUnmeasured-append [] field h other = (other, tt)
IsUnmeasured-append (x ∷ headers) field h other = (h.0, IsUnmeasured-append headers field h.1 other)

read_line-IsTold :
    (config : ServerConfig) (count : ℕ) (line : Bytes) (f f' : Fields)
    → IsTold f
    → read_line config count line f ≡ ok f'
    → IsTold f'
unfolding read_line
read_line-IsTold config count line f f' told h unmeasured =
    let (field, _, reads) = bind-ok (field_line config count line) _ _ h in
    let (lengths, headers) = read_field-told field.0 field.1 (add_field field f) f' reads in
    elim lengths [
      | inl measured ↦ cc
      | inr (other, same) ↦
          rw headers (IsUnmeasured-append f.headers field (told (ground arith)) other)
    ]

read_lines-IsTold :
    (config : ServerConfig) (count : ℕ) (lines : List Bytes) (f f' : Fields)
    → IsTold f
    → read_lines config count lines f ≡ ok f'
    → IsTold f'
unfolding read_lines
read_lines-IsTold config count [] f f' told h = let e : f ≡ f' = cc in rw (← e) told
read_lines-IsTold config count (line ∷ lines) f f' told h =
    let (g, first, rest) = bind-ok (read_line config count line f) _ _ h in
    read_lines-IsTold config (suc count) lines g f'
      (read_line-IsTold config count line f g told first) rest

host_other : bytes_eq (codes "host") length_name ≡ false
unfolding bytes_eq
host_other = refl

rewrite_host-IsUnmeasured :
    (seen : Bool) (authority : Bytes) (headers : Headers)
    → IsUnmeasured headers
    → IsUnmeasured (rewrite_host seen authority headers)
unfolding rewrite_host
rewrite_host-IsUnmeasured true authority [] h = tt
rewrite_host-IsUnmeasured false authority [] h = (host_other, tt)
rewrite_host-IsUnmeasured seen authority ((name, value) ∷ headers) h =
    elim (Bool-cases (bytes_eq name (codes "host"))) [
      | inl host ↦ rw host (elim (Bool-cases seen) [
        | inl again ↦ rw again (rewrite_host-IsUnmeasured true authority headers h.1)
        | inr first ↦ rw first (host_other, rewrite_host-IsUnmeasured true authority headers h.1)
      ])
      | inr field ↦ rw field (h.0, rewrite_host-IsUnmeasured seen authority headers h.1)
    ]

apply_target-IsUnmeasured :
    (urlsplit : Bytes → Option Url) (target : Bytes) (headers : Headers) (from_field : Bytes × Bool)
    (host : Bytes) (known : Bool) (headers' : Headers)
    → IsUnmeasured headers
    → apply_target urlsplit target headers from_field ≡ ok (host, known, headers')
    → IsUnmeasured headers'
unfolding apply_target
apply_target-IsUnmeasured urlsplit target headers (name, before) host known headers' free h =
    elim (Bool-cases (is_absolute target)) [
      | inl absolute ↦ elim (Option-cases (target_authority urlsplit target)) [
        | inl unread ↦ ground arith
        | inr (authority, read) ↦
            let e : headers' ≡ rewrite_host false authority headers = ground arith in
            rw e (rewrite_host-IsUnmeasured false authority headers free)
      ]
      | inr origin ↦ let e : headers' ≡ headers = ground arith in rw e free
    ]

-- What is known of an accepted head whose body is chunked.
abbrev pub IsFramed : ParsedHead → Type 0
IsFramed head =
    head.chunked ≡ true
    → IsUnmeasured head.headers
      × (head.content_length ≡ none)
      × (bytes_eq head.version (codes "1.0") ≡ false)

build_head-IsFramed :
    (parts : Bytes × Bytes × Bytes) (f : Fields) (site : Bytes × Bool × Headers)
    (frame : Bool × Option ℕ)
    → (frame.0 ≡ true
        → IsUnmeasured site.2 × (frame.1 ≡ none) × (bytes_eq parts.2 (codes "1.0") ≡ false))
    → IsFramed (build_head parts f site frame)
unfolding build_head
build_head-IsFramed parts f site frame h = h

fields-IsFramed :
    (urlsplit : Bytes → Option Url) (config : ServerConfig) (method target version : Bytes)
    (lines : List Bytes) (f : Fields) (from_field : Bytes × Bool) (site : Bytes × Bool × Headers)
    (frame : Bool × Option ℕ)
    → read_lines config 1 lines no_fields ≡ ok f
    → apply_target urlsplit target f.headers from_field ≡ ok site
    → framing config version f.transfer_encodings f.content_lengths ≡ ok frame
    → IsFramed (build_head (method, target, version) f site frame)
fields-IsFramed urlsplit config method target version lines f from_field site frame reads sited
      framed =
    build_head-IsFramed (method, target, version) f site frame
      λ chunked.
        let (unmeasured, no_length, newer) =
          framing-chunked config version f.transfer_encodings f.content_lengths frame framed
            chunked in
        let free = read_lines-IsTold config 1 lines no_fields f (λ _. tt) reads unmeasured in
        (
          apply_target-IsUnmeasured urlsplit target f.headers from_field site.0 site.1 site.2 free
              sited,
          no_length,
          newer,
        )

head_of-IsFramed :
    (urlsplit : Bytes → Option Url) (config : ServerConfig) (parts : Bytes × Bytes × Bytes)
    (lines : List Bytes) (head : ParsedHead)
    → head_of urlsplit config parts lines ≡ ok head
    → IsFramed head
unfolding head_of
head_of-IsFramed urlsplit config (method, target, version) lines head h =
    let (_, h1) = refuse_if-ok (ltb max_target_length (length target)) _ _ _ _ h in
    let (_, h2) = refuse_if-ok (has_illegal_target target) _ _ _ _ h1 in
    let (_, _, h3) = bind-ok (check_method method) _ _ h2 in
    let (f, reads, h4) = bind-ok (read_lines config 1 lines no_fields) _ _ h3 in
    let (from_field, _, h5) = bind-ok (host_of version target f.host_values) _ _ h4 in
    let (site, sited, h6) = bind-ok (apply_target urlsplit target f.headers from_field) _ _ h5 in
    let (frame, framed, h7) =
      bind-ok (framing config version f.transfer_encodings f.content_lengths) _ _ h6 in
    subst IsFramed (ok-injective (build_head (method, target, version) f site frame) head h7) (
      fields-IsFramed urlsplit config method target version lines f from_field site frame reads
        sited framed)

request_of-IsFramed :
    (urlsplit : Bytes → Option Url) (config : ServerConfig) (lines : List Bytes) (head : ParsedHead)
    → request_of urlsplit config lines ≡ ok head
    → IsFramed head
request_of-IsFramed urlsplit config [] head h = cc
request_of-IsFramed urlsplit config (first ∷ lines) head h =
    elim (Option-cases (request_line first)) [
      | inl malformed ↦ ground arith
      | inr (parts, read) ↦ head_of-IsFramed urlsplit config parts lines head (ground arith)
    ]

head_at-IsFramed :
    (urlsplit : Bytes → Option Url) (config : ServerConfig) (buffer : Bytes) (index : ℕ)
    (head : ParsedHead) (rest : Bytes)
    → head_at urlsplit config buffer index ≡ ok (some (head, rest))
    → IsFramed head × (rest ≡ drop (index + 4) buffer) × (index + 4 ≤ config.max_header_size)
unfolding head_at
head_at-IsFramed urlsplit config buffer index head rest h =
    let (small, h1) = refuse_if-ok (ltb config.max_header_size (index + 4)) _ _ _ _ h in
    let (head', requested, h2) =
      bind-ok (request_of urlsplit config (split_lines (take index buffer))) _ _ h1 in
    let e = ok-injective (some (head', drop (index + 4) buffer)) (some (head, rest)) h2 in
    let same : head' ≡ head = cc in
    (
      subst IsFramed same
          (request_of-IsFramed urlsplit config (split_lines (take index buffer)) head' requested),
      (cc),
      ground (arith, ltb-false (config.max_header_size) (index + 4)),
    )

-- An accepted request head whose body is chunked carries no `content-length` field, announces no
-- length beside the coding, and is not of version 1.0, so no other reading of its fields can put the
-- end of the body elsewhere. What is left in the buffer is the input without its first bytes, four at
-- least and no more than the configured size of a head.
pub parse_request_head-IsFramed :
    (urlsplit : Bytes → Option Url) (config : ServerConfig) (buffer : Bytes) (head : ParsedHead)
    (rest : Bytes)
    → parse_request_head urlsplit config buffer ≡ ok (some (head, rest))
    → IsFramed head × ((n : ℕ) × (rest ≡ drop n buffer) × (4 ≤ n) × (n ≤ config.max_header_size))
unfolding parse_request_head
parse_request_head-IsFramed urlsplit config buffer head rest h =
    elim (Option-cases (find buffer crlf2)) [
      | inl more ↦ ground arith
      | inr (index, found) ↦
          let (framed, left, small) =
            head_at-IsFramed urlsplit config buffer index head rest (ground arith) in
          (framed, (index + 4, left, omega arith, small))
    ]

-- ===== src/Http1/Response/Length.antt =====
-- A body of an announced length in echocorn/http1.py: no byte too many, and none too few on a
-- connection that is used again.
use mathlib.Core.Path.{subst}
use mathlib.Core.List.{append-nil, append_assoc}
use echocorn.Base.{
  ℕ, zero, suc, ◌+◌, ◌-◌, ◌≤◌, ◌<◌, min, ◌≡◌, refl, sym, ap, ◌∙◌, Bool, true, false, none, some,
  List, any, [], ◌∷◌, ◌++◌, length, take, Bool-cases, arith, ltb, ltb→lt, if◌then◌else◌, null,
  length-append, take-all, take-nil, take-split, length-take, inl, inr,
}
use echocorn.Base.Bytes.{Bytes}
use echocorn.Utils.Headers.{Item}
use echocorn.Http1.Writer.{Env, Scope, Writer, write, write_chunk}
use echocorn.Http1.Start.{continue_, break_}
use echocorn.Http1.Response.Loop.{write_response-continues, last-writer}
use echocorn.Http1.Response.{
  Message, start, body, trailers, finished, on_body, on_trailers, on_message, end_body, write_body,
  write_plain, write_response, close_response,
}

-- A response with an announced length, started, not compressed and not chunked.
abbrev pub IsPlain : ℕ → Writer → Type 0
IsPlain n w =
    (w.started ≡ true)
    × (w.discard_body ≡ false)
    × (w.compressor ≡ none)
    × (w.chunked ≡ false)
    × (w.declared_length ≡ some n)
    × (w.awaiting_trailers ≡ false)
    × (w.aborted ≡ false)
    × (w.body_bytes ≤ n)

-- What the application sends as the body, up to the message that ends it.
abbrev pub content : List Message → Bytes
content [] = []
content (start status items announced more ∷ messages) = content messages
content (body s more gave_up ∷ messages) = s ++ (if more then content messages else [])
content (trailers items more ∷ messages) = if more then content messages else []

-- How a piece of the body moves the writer.
Piece : ℕ → Bytes → Writer → Writer → Type 0
Piece n s w w' =
    IsPlain n w'
    × (w'.body_bytes ≡ min n (w.body_bytes + length s))
    × (w'.closed ≡ false → (w.closed ≡ false) × (w'.wire ≡ w.wire ++ take (n - w.body_bytes) s))
    × (w'.keep_alive ≡ true → (w.keep_alive ≡ true) × (w.body_bytes + length s ≤ n))

append-nothing : (s : Bytes) (k : ℕ) → s ++ take k [] ≡ s
append-nothing s k = rw (take-nil {A = ℕ} k) (append-nil s)

append-take : (s t : Bytes) (k : ℕ) → k ≡ 0 → s ++ take k t ≡ s
append-take s t k h = rw h (append-nil s)

null-take : (k : ℕ) (s : Bytes) → 0 < k → null s ≡ false → null (take k s) ≡ false
null-take zero s h some_bytes = ground arith
null-take (suc k) [] h some_bytes = some_bytes
null-take (suc k) (c ∷ s) h some_bytes = refl

write_plain-Piece :
    (env : Env) (n : ℕ) (s : Bytes) (w : Writer)
    → IsPlain n w
    → null s ≡ false
    → Piece n s w (write_plain env s w)
unfolding write_plain write_chunk write Piece
write_plain-Piece env n s w h some_bytes = elim (Bool-cases (ltb n (w.body_bytes + length s))) [
  | inl over ↦ elim (Bool-cases (ltb 0 (n - w.body_bytes))) [
    | inl room ↦
        ground (
          arith,
          length-take (n - w.body_bytes) s,
          null-take (n - w.body_bytes) s (ltb→lt _ _ room),
        )
    | inr full ↦ ground (arith, append-take w.wire s (n - w.body_bytes))
  ]
  | inr fits ↦ ground (arith, take-all (n - w.body_bytes) s)
]

write_body-Piece :
    (env : Env) (n : ℕ) (s : Bytes) (more : Bool) (w : Writer)
    → IsPlain n w
    → Piece n s w (write_body env s more w)
unfolding write_body Piece
write_body-Piece env n [] more w h = ground (arith, append-nothing w.wire (n - w.body_bytes))
write_body-Piece env n (c ∷ s) more w h = ground (arith, write_plain-Piece env n (c ∷ s) w h refl)

-- What a run that is over has done with the bytes of the body, `s` of them still to come.
Sent : ℕ → Bytes → Writer → Writer → Type 0
Sent n s w w' =
    (w'.closed ≡ false → (w.closed ≡ false) × (w'.wire ≡ w.wire ++ take (n - w.body_bytes) s))
    × (w'.closed ≡ false
        → w'.keep_alive ≡ true
        → (w.keep_alive ≡ true) × (w.body_bytes + length s ≡ n))

close_response-Sent :
    (env : Env) (scope : Scope) (n : ℕ) (w : Writer)
    → IsPlain n w
    → Sent n [] w (close_response env scope w)
unfolding close_response Sent
close_response-Sent env scope n w h = ground (arith, append-nothing w.wire (n - w.body_bytes))

Piece-IsPlain : (n : ℕ) (s : Bytes) (w w' : Writer) → Piece n s w w' → IsPlain n w'
unfolding Piece
Piece-IsPlain n s w w' p = p.0

Sent-Piece :
    (n : ℕ) (s t : Bytes) (w w' w'' : Writer)
    → w.body_bytes ≤ n
    → Piece n s w w'
    → Sent n t w' w''
    → Sent n (s ++ t) w w''
unfolding Piece Sent
Sent-Piece n s t w w' w'' h p q =
    let room = n - w.body_bytes in
    let (_, counted, _, _) = p in
    let rest : n - w'.body_bytes ≡ room - length s = omega (arith, counted, h) in
    let joined : take room (s ++ t) ≡ take room s ++ take (n - w'.body_bytes) t =
      take-split room s t ∙ ap (λ k. take room s ++ take k t) (sym rest) in
    ground (
      arith,
      joined,
      append_assoc w.wire (take room s) (take (n - w'.body_bytes) t),
      length-append s t,
    )

abbrev pub is_start : Message → Bool
is_start (start status items announced more) = true
is_start (body s more gave_up) = false
is_start (trailers items more) = false

close_response-abandoned :
    (env : Env) (scope : Scope) (n : ℕ) (s : Bytes) (w : Writer)
    → IsPlain n w
    → Sent n s w (close_response env scope (record w { aborted = true }))
unfolding close_response Sent
close_response-abandoned env scope n s w h = ground arith

on_body-last :
    (env : Env) (n : ℕ) (s : Bytes) (w : Writer)
    → IsPlain n w
    → on_body env s false false w ≡ break_ (write_body env s false w)
unfolding on_body end_body
on_body-last env n s w h = ground (arith, write_body-Piece env n s false w h)

on_body-more :
    (env : Env) (n : ℕ) (s : Bytes) (gave_up : Bool) (w : Writer)
    → IsPlain n w
    → on_body env s true gave_up w ≡ continue_ (write_body env s true w)
unfolding on_body end_body
on_body-more env n s gave_up w h = ground arith

on_body-abandoned :
    (env : Env) (n : ℕ) (s : Bytes) (w : Writer)
    → IsPlain n w
    → on_body env s false true w ≡ break_ (record w { aborted = true })
unfolding on_body
on_body-abandoned env n s w h = ground arith

on_trailers-ignored :
    (env : Env) (n : ℕ) (items : List Item) (more : Bool) (w : Writer)
    → IsPlain n w
    → on_trailers env items more w ≡ (if more then continue_ w else break_ w)
unfolding on_trailers
on_trailers-ignored env n items more w h = ground arith

run-Sent :
    (env : Env) (scope : Scope) (n : ℕ) (messages : List Message) (w w' : Writer)
    → IsPlain n w
    → any is_start messages ≡ false
    → write_response env scope messages w ≡ finished w'
    → Sent n (content messages) w w'
unfolding write_response on_message
run-Sent env scope n [] w w' h none_starts run = cc
run-Sent env scope n (start status items announced more ∷ messages) w w' h none_starts run = cc
run-Sent env scope n (trailers items true ∷ messages) w w' h none_starts run =
    let step = on_trailers-ignored env n items true w h in
    run-Sent env scope n messages w w' h none_starts
      (sym (write_response-continues env scope (trailers items true) messages w w step) ∙ run)
run-Sent env scope n (trailers items false ∷ messages) w w' h none_starts run =
    let step = on_trailers-ignored env n items false w h in
    subst (Sent n [] w) (last-writer env scope (trailers items false) messages w w w' step run)
      (close_response-Sent env scope n w h)
run-Sent env scope n (body s true gave_up ∷ messages) w w' h none_starts run =
    let w1 = write_body env s true w in
    let piece = write_body-Piece env n s true w h in
    let step = on_body-more env n s gave_up w h in
    let next = write_response-continues env scope (body s true gave_up) messages w w1 step in
    Sent-Piece n s (content messages) w w1 w' h.7 piece (
      run-Sent env scope n messages w1 w' (Piece-IsPlain n s w w1 piece) none_starts
        (sym next ∙ run))
run-Sent env scope n (body s false true ∷ messages) w w' h none_starts run =
    let step = on_body-abandoned env n s w h in
    subst (Sent n (s ++ []) w)
      (last-writer env scope (body s false true) messages w (record w { aborted = true }) w' step
        run)
      (close_response-abandoned env scope n (s ++ []) w h)
run-Sent env scope n (body s false false ∷ messages) w w' h none_starts run =
    let w1 = write_body env s false w in
    let piece = write_body-Piece env n s false w h in
    let step = on_body-last env n s w h in
    subst (Sent n (s ++ []) w)
      (last-writer env scope (body s false false) messages w w1 w' step run)
      (Sent-Piece n s [] w w1 (close_response env scope w1) h.7 piece
        (close_response-Sent env scope n w1 (Piece-IsPlain n s w w1 piece)))

-- Once a response of an announced length has its head out, the rest of the exchange, in which no
-- second start message comes, ends like this unless the connection is closed: what is written behind
-- the head is the body that the application sent, cut where the length ends; and if the
-- connection is to be used again, the body had exactly that length.
pub write_response-length :
    (env : Env) (scope : Scope) (n : ℕ) (messages : List Message) (w w' : Writer)
    → IsPlain n w
    → w.body_bytes ≡ 0
    → any is_start messages ≡ false
    → write_response env scope messages w ≡ finished w'
    → w'.closed ≡ false
    → (w'.wire ≡ w.wire ++ take n (content messages))
      × (w'.keep_alive ≡ true → length (content messages) ≡ n)
unfolding Sent
write_response-length env scope n messages w w' h fresh none_starts run open_ =
    let room : n - w.body_bytes ≡ n = omega arith in
    ground (
      arith,
      ap (λ k. w.wire ++ take k (content messages)) room,
      run-Sent env scope n messages w w' h none_starts run,
    )

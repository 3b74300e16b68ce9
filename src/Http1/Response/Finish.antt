-- ===== src/Http1/Response/Finish.antt =====
-- The loop of `_write_response` in echocorn/http1.py is left once the application has ended its answer.
use mathlib.Core.Path.{subst}
use echocorn.Base.{
  ℕ, ◌≡◌, refl, sym, ap, ◌∙◌, Bool, true, false, ◌&&◌, ◌||◌, not, Option, none, some, List, [], ◌∷◌,
  Bool-cases, Option-cases, arith, ltb, if-true, inl, inr, if◌then◌else◌, if-false,
}
use echocorn.Base.Bytes.{Bytes}
use echocorn.Utils.Headers.{Headers, Item, normalize_response_headers}
use echocorn.Utils.Response.{response_has_body, should_compress}
use echocorn.Http1.Writer.{Env, Scope, Writer, write, write_chunk, interim_head}
use echocorn.Http1.Start.{
  Pass, continue_, break_, raise_, Pass-cases, continues, breaks, raises, on_start, apply_coding,
  varied, choose_coding, choose_framing, accept_start, declared, write_framed, write_head,
  write_final,
}
use echocorn.Http1.Response.Loop.{
  write_response-continues, write_response-breaks, write_response-raises,
}
use echocorn.Http1.Response.{
  failed_writer, close_response, Message, start, body, trailers, finished, on_body, on_trailers,
  on_message, end_body, write_body, write_plain, write_compressed, write_response,
}

-- Whether the messages end the response: by the end of the body, if no trailers were announced or it
-- is abandoned, or by the end of the trailers. A final start message says whether trailers follow.
abbrev pub ends : Bool → List Message → Bool
ends announced [] = false
ends announced (start status items announced' more ∷ messages) =
    ends (if ltb status 200 then announced else announced') messages
ends announced (body s more gave_up ∷ messages) =
    (not more && (gave_up || not announced)) || ends announced messages
ends announced (trailers items more ∷ messages) = not more || ends announced messages

-- The response is started, and trailers are expected only if they were announced.
abbrev pub Expects : Bool → Writer → Type 0
Expects announced w = (w.started ≡ true) × (w.trailers_expected ≡ true → announced ≡ true)

-- A pass that goes on keeps what the writer expects.
abbrev Keeps : Bool → Pass → Type 0
Keeps announced (continue_ w) = Expects announced w
Keeps announced (break_ w) = Unit {0}
Keeps announced (raise_ w) = Unit {0}

-- what no piece of the body changes
abbrev Same : Writer → Writer → Type 0
Same w w' = (w'.started ≡ w.started) × (w'.trailers_expected ≡ w.trailers_expected)

write_plain-Same : (env : Env) (s : Bytes) (w : Writer) → Same w (write_plain env s w)
unfolding write_plain write_chunk write
write_plain-Same env s w = ground arith

write_compressed-Same :
    (env : Env) (c : Bytes × List Bytes) (s : Bytes) (more : Bool) (w : Writer)
    → Same w (write_compressed env c s more w)
unfolding write_compressed write_chunk write
write_compressed-Same env (encoding, seen) s more w = ground arith

write_body-Same :
    (env : Env) (s : Bytes) (more : Bool) (w : Writer) → Same w (write_body env s more w)
unfolding write_body
write_body-Same env s more w = elim (Option-cases w.compressor) [
  | inl plain ↦ ground (arith, write_plain-Same env s w)
  | inr (c, e) ↦ rw (write_body, e) (write_compressed-Same env c s more w)
]

on_body-Keeps :
    (env : Env) (announced : Bool) (s : Bytes) (more gave_up : Bool) (w : Writer)
    → Expects announced w
    → Keeps announced (on_body env s more gave_up w)
unfolding on_body end_body write
on_body-Keeps env announced s more gave_up w h = ground (arith, write_body-Same env s more w)

write-Expects :
    (env : Env) (announced : Bool) (s : Bytes) (w : Writer)
    → Expects announced w
    → Expects announced (write env s w)
unfolding write
write-Expects env announced s w h = ground arith

on_trailers-Keeps :
    (env : Env) (announced : Bool) (items : List Item) (more : Bool) (w : Writer)
    → Expects announced w
    → Keeps announced (on_trailers env items more w)
unfolding on_trailers write
on_trailers-Keeps env announced items more w h = ground arith

apply_coding-expected :
    (coding : Option Bytes) (headers : Headers) (w : Writer)
    → (apply_coding coding headers w).trailers_expected ≡ w.trailers_expected
unfolding apply_coding
apply_coding-expected none headers w = refl
apply_coding-expected (some encoding) headers w = refl

choose_coding-expected :
    (env : Env) (scope : Scope) (status : ℕ) (headers : Headers) (w : Writer)
    → (choose_coding env scope status headers w).trailers_expected ≡ w.trailers_expected
unfolding choose_coding
choose_coding-expected env scope status headers w =
    let given = varied env scope status headers in
    apply_coding-expected
      (should_compress env.int_of env.negotiate scope.method status given scope.headers) given w

accept_start-expected :
    (env : Env) (scope : Scope) (status : ℕ) (headers : Headers) (announced has_body : Bool)
    (w : Writer)
    → (accept_start env scope status headers announced has_body w).trailers_expected ≡ true
    → announced ≡ true
unfolding accept_start
accept_start-expected env scope status headers announced has_body w h =
    let w' : Writer = record w {
      status = some status;
      headers = headers;
      trailers_expected = announced && has_body;
    } in
    ground (arith, choose_coding-expected env scope status headers w')

choose_framing-expected :
    (scope : Scope) (status : ℕ) (has_body : Bool) (w : Writer)
    → (choose_framing scope status has_body w).trailers_expected ≡ w.trailers_expected
unfolding choose_framing
choose_framing-expected scope status has_body w = ground arith

write_framed-Keeps :
    (env : Env) (scope : Scope) (status : ℕ) (announced has_body more : Bool) (w : Writer)
    → (w.trailers_expected ≡ true → announced ≡ true)
    → Keeps announced (write_framed env scope status has_body more w)
unfolding write_framed write_head write
write_framed-Keeps env scope status announced has_body more w h =
    ground (arith, Option-cases (declared env has_body w))

write_final-Keeps :
    (env : Env) (scope : Scope) (status : ℕ) (headers : Headers) (announced more : Bool)
    (w : Writer)
    → Keeps announced (write_final env scope status headers announced more w)
unfolding write_final
write_final-Keeps env scope status headers announced more w =
    let has_body = response_has_body scope.method status in
    let accepted = accept_start env scope status headers announced has_body w in
    write_framed-Keeps env scope status announced has_body more
      (choose_framing scope status has_body accepted)
      (λ h.
        accept_start-expected env scope status headers announced has_body w
          (sym (choose_framing-expected scope status has_body accepted) ∙ h))

on_start-Keeps :
    (env : Env) (scope : Scope) (status : ℕ) (items : List Item) (announced announced' more : Bool)
    (w : Writer)
    → Expects announced w
    → Keeps
        (if ltb status 200 then announced else announced')
        (on_start env scope status items announced' more w)
unfolding on_start
on_start-Keeps env scope status items announced announced' more w h =
    let headers = normalize_response_headers items false [] in
    elim (Bool-cases (ltb status 200)) [
      | inl interim ↦
          let kept : Expects announced (write env (interim_head env status headers) w) =
            write-Expects env announced (interim_head env status headers) w h in
          subst (λ a. Keeps a (on_start env scope status items announced' more w))
            (sym (if-true announced announced' interim))
            (subst (Keeps announced) (sym (if-true _ _ interim)) kept)
      | inr final ↦
          subst (λ a. Keeps a (on_start env scope status items announced' more w))
            (sym (if-false announced announced' final))
            (subst (Keeps announced') (sym (if-false _ _ final))
              (write_final-Keeps env scope status headers announced' more w))
    ]

abbrev goes_on : Pass → Bool
goes_on (continue_ w) = true
goes_on (break_ w) = false
goes_on (raise_ w) = false

on_body-goes_on :
    (env : Env) (announced : Bool) (s : Bytes) (more gave_up : Bool) (w : Writer)
    → Expects announced w
    → goes_on (on_body env s more gave_up w) ≡ true
    → (not more && (gave_up || not announced)) ≡ false
unfolding on_body end_body
on_body-goes_on env announced s more gave_up w h on = ground (arith, write_body-Same env s more w)

on_trailers-goes_on :
    (env : Env) (items : List Item) (more : Bool) (w : Writer)
    → goes_on (on_trailers env items more w) ≡ true
    → more ≡ true
unfolding on_trailers
on_trailers-goes_on env items more w on = ground arith

-- the flag under which the messages behind this one end the response
abbrev told : Bool → Message → Bool
told announced (start status items announced' more) =
    if ltb status 200 then announced else announced'
told announced (body s more gave_up) = announced
told announced (trailers items more) = announced

on_message-Keeps :
    (env : Env) (scope : Scope) (announced : Bool) (message : Message) (w : Writer)
    → Expects announced w
    → Keeps (told announced message) (on_message env scope message w)
unfolding on_message
on_message-Keeps env scope announced (start status items announced' more) w h =
    on_start-Keeps env scope status items announced announced' more w h
on_message-Keeps env scope announced (body s more gave_up) w h =
    on_body-Keeps env announced s more gave_up w h
on_message-Keeps env scope announced (trailers items more) w h =
    on_trailers-Keeps env announced items more w h

on_message-goes_on :
    (env : Env) (scope : Scope) (announced : Bool) (message : Message) (messages : List Message)
    (w : Writer)
    → Expects announced w
    → ends announced (message ∷ messages) ≡ true
    → goes_on (on_message env scope message w) ≡ true
    → ends (told announced message) messages ≡ true
unfolding on_message
on_message-goes_on env scope announced (start status items announced' more) messages w h e on = e
on_message-goes_on env scope announced (body s more gave_up) messages w h e on =
    ground (arith, on_body-goes_on env announced s more gave_up w h on)
on_message-goes_on env scope announced (trailers items more) messages w h e on =
    ground (arith, on_trailers-goes_on env items more w on)

-- The writer of a started response does not wait for ever: once the messages end the response, it is
-- over, with whatever else was sent before and behind the end. By the end of the body, if it expects no
-- trailers or the application gave up, and otherwise by the end of the trailers.
pub write_response-finishes :
    (env : Env) (scope : Scope) (announced : Bool) (messages : List Message) (w : Writer)
    → Expects announced w
    → ends announced messages ≡ true
    → (w' : Writer) × (write_response env scope messages w ≡ finished w')
unfolding write_response
write_response-finishes env scope announced [] w h e = cc
write_response-finishes env scope announced (message ∷ messages) w h e =
    let kept = on_message-Keeps env scope announced message w h in
    elim (Pass-cases (on_message env scope message w)) [
      | continues w1 p ↦
          let still = subst (Keeps (told announced message)) p kept in
          let later =
            on_message-goes_on env scope announced message messages w h e (ap goes_on p) in
          let (w', over) =
            write_response-finishes env scope (told announced message) messages w1 still later in
          (w', write_response-continues env scope message messages w w1 p ∙ over)
      | breaks w1 p ↦
          (close_response env scope w1, write_response-breaks env scope message messages w w1 p)
      | raises w1 p ↦ (failed_writer w1, write_response-raises env scope message messages w w1 p)
    ]

-- ===== src/Http1/Dispatch/Admitted.antt =====
-- What every request that reaches the application through echocorn/http1.py has passed.
use mathlib.Core.Path.{subst}
use echocorn.Base.{
  ℕ, ◌≡◌, refl, sym, ap, ◌∙◌, inl, inr, false, Option, none, some, Bool-cases, if-true, if-false,
}
use echocorn.Base.Bytes.{Bytes}
use echocorn.Http1.Error.{Result, ok, err}
use echocorn.Http1.Head.{ParsedHead, Url, parse_request_head, split_target}
use echocorn.Http1.Dispatch.{
  Refusal, refused_or, refusal_of, plain_refusal, handshake_error, asks_upgrade, start_parsed,
  Settings, Limiter, Dispatch, incomplete, refused, upgraded, dispatched, serve_websocket,
  misdirected, route_to, route, admit, start_request,
}

abbrev Request : Type 0
Request = ParsedHead × Bytes × Bytes × Bytes

-- The request that goes on to the application, over HTTP or a WebSocket, with its raw path, its query
-- and what is left in the buffer.
abbrev pub passed_on : Dispatch → Option (ParsedHead × Bytes × Bytes × Bytes)
passed_on incomplete = none
passed_on (refused refusal) = none
passed_on (upgraded head path query rest) = some (head, path, query, rest)
passed_on (dispatched head path query rest) = some (head, path, query, rest)

some-injective : (a b : Request) → some a ≡ some b → a ≡ b
some-injective a b h = ap (request_or a) h
  where
    request_or : Request → Option Request → Request
    request_or a none = a
    request_or a (some b) = b

nothing_on : {x : Request} → none ≡ some x → ⊥
nothing_on h = cc

refused_or-passed_on :
    (refusal : Option Refusal) (d : Dispatch) (x : Request)
    → passed_on (refused_or refusal d) ≡ some x
    → (refusal ≡ none) × (passed_on d ≡ some x)
refused_or-passed_on none d x h = (refl, h)
refused_or-passed_on (some refusal) d x h = cc

route_to-passed_on :
    (settings : Settings) (head : ParsedHead) (path query rest : Bytes) (x : Request)
    → passed_on (route_to settings head path query rest) ≡ some x
    → (misdirected settings head ≡ false) × ((head, path, query, rest) ≡ x)
unfolding route_to serve_websocket
route_to-passed_on settings head path query rest x h =
    elim (Bool-cases (misdirected settings head)) [
      | inl elsewhere ↦ absurd (nothing_on (sym (ap passed_on (if-true _ _ elsewhere)) ∙ h))
      | inr here ↦ elim (Bool-cases (asks_upgrade settings head)) [
        | inl asks ↦ (
          here,
          some-injective _ x
              (refused_or-passed_on (handshake_error head) (upgraded head path query rest) x
                (sym (ap passed_on (if-false _ _ here ∙ if-true _ _ asks)) ∙ h)).1,
        )
        | inr plain ↦ (
          here,
          some-injective _ x (sym (ap passed_on (if-false _ _ here ∙ if-false _ _ plain)) ∙ h),
        )
      ]
    ]

-- what the split of the target leaves to route
routed : Settings → ParsedHead → Bytes → Result (Bytes × Bytes) → Dispatch
routed settings head rest (err e) =
    refused (plain_refusal e.status e.message head.method head.target)
routed settings head rest (ok split) = route_to settings head split.0 split.1 rest

routed-passed_on :
    (settings : Settings) (head : ParsedHead) (rest : Bytes) (split : Result (Bytes × Bytes))
    (x : Request)
    → passed_on (routed settings head rest split) ≡ some x
    → (x.0 ≡ head) × (x.3 ≡ rest) × (split ≡ ok (x.1, x.2)) × (misdirected settings head ≡ false)
unfolding route_to routed
routed-passed_on settings head rest (err e) x h = absurd (nothing_on h)
routed-passed_on settings head rest (ok (path, query)) x h =
    let (here, same) = route_to-passed_on settings head path query rest x h in
    (
      sym (ap (λ y. y.0) same),
      sym (ap (λ y. y.3) same),
      ap (λ (y : Request). ok (y.1, y.2)) same,
      here,
    )

route-routed :
    (urlsplit : Bytes → Option Url) (settings : Settings) (head : ParsedHead) (rest : Bytes)
    → route urlsplit settings head rest
      ≡ routed settings head rest (split_target urlsplit head.target)
unfolding route routed
route-routed urlsplit settings head rest = elim (split_target urlsplit head.target) [
  | err e ↦ refl
  | ok split ↦ refl
]

admit-passed_on :
    {S : Type 0} (urlsplit : Bytes → Option Url) (settings : Settings) (limiter : Limiter S)
    (client : Bytes) (head : ParsedHead) (rest : Bytes) (s : S) (x : Request)
    → passed_on (admit urlsplit settings limiter client head rest s).0 ≡ some x
    → (x.0 ≡ head)
      × (x.3 ≡ rest)
      × ((limiter.check client s).0 ≡ none)
      × (split_target urlsplit head.target ≡ ok (x.1, x.2))
      × (misdirected settings head ≡ false)
unfolding admit
admit-passed_on urlsplit settings limiter client head rest s x h =
    let (free, on) =
      refused_or-passed_on (refusal_of (limiter.check client s).0 head)
        (route urlsplit settings head rest) x h in
    let (same, left, split, here) =
      routed-passed_on settings head rest (split_target urlsplit head.target) x
        (sym (ap passed_on (route-routed urlsplit settings head rest)) ∙ on) in
    (same, left, refusal_of-none (limiter.check client s).0 free, split, here)
  where
    refusal_of-none : (wait : Option ℕ) → refusal_of wait head ≡ none → wait ≡ none
    refusal_of-none none h = refl
    refusal_of-none (some ticks) h = cc

start_parsed-passed_on :
    {S : Type 0} (urlsplit : Bytes → Option Url) (settings : Settings) (limiter : Limiter S)
    (client buffer : Bytes) (s : S) (parsed : Result (Option (ParsedHead × Bytes))) (x : Request)
    → passed_on (start_parsed urlsplit settings limiter client buffer s parsed).0 ≡ some x
    → (parsed ≡ ok (some (x.0, x.3)))
      × ((limiter.check client s).0 ≡ none)
      × (split_target urlsplit x.0.target ≡ ok (x.1, x.2))
      × (misdirected settings x.0 ≡ false)
unfolding start_parsed
start_parsed-passed_on urlsplit settings limiter client buffer s (err e) x h = absurd (nothing_on h)
start_parsed-passed_on urlsplit settings limiter client buffer s (ok none) x h =
    absurd (nothing_on h)
start_parsed-passed_on urlsplit settings limiter client buffer s (ok (some (head, rest))) x h =
    let (same, left, free, split, here) =
      admit-passed_on urlsplit settings limiter client head rest s x h in
    (
      cc,
      free,
      subst (λ (g : ParsedHead). split_target urlsplit g.target ≡ ok (x.1, x.2)) (sym same) split,
      subst (λ g. misdirected settings g ≡ false) (sym same) here,
    )

-- A request that goes on to the application, as an exchange or a WebSocket session, with its raw path,
-- its query and what is left in the buffer, has the head `parse_request_head` reads from the front of
-- the buffer, with the rest behind that head; the limiter has not refused the client; the path and
-- query are those of the target; and its host is not refused as that of another server.
pub start_request-passed_on :
    {S : Type 0} (urlsplit : Bytes → Option Url) (settings : Settings) (limiter : Limiter S)
    (client buffer : Bytes) (s : S) (head : ParsedHead) (path query rest : Bytes)
    → passed_on (start_request urlsplit settings limiter client buffer s).0
      ≡ some (head, path, query, rest)
    → (parse_request_head urlsplit settings.limits buffer ≡ ok (some (head, rest)))
      × ((limiter.check client s).0 ≡ none)
      × (split_target urlsplit head.target ≡ ok (path, query))
      × (misdirected settings head ≡ false)
unfolding start_request
start_request-passed_on urlsplit settings limiter client buffer s head path query rest =
    start_parsed-passed_on urlsplit settings limiter client buffer s
      (parse_request_head urlsplit settings.limits buffer) (head, path, query, rest)

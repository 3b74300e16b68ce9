-- ===== src/Utils/Asgi/Endings.antt =====
-- How `send` and `run_app` leave an exchange: whether the writer is told that the response is over.
use echocorn.Base.{
  ℕ, ◌≡◌, ◌⊎◌, inl, inr, Bool, true, false, List, [], ◌∷◌, arith, ◌&&◌, ◌||◌, not, Option-cases,
  none, some, ◌≤◌,
}
use echocorn.Utils.Headers.{Headers, Item}
use echocorn.Utils.Asgi.{
  prepared, raised, value_error, AsgiRequest, Message, start, body, trailers, Outcome, returned,
  response_aborted, exception, finish, run_app_end, end_message, prepare, prepare_start, AppMessage,
  not_a_dict, unsupported, response_start, response_body, response_trailers, checked_headers,
}

-- The writer is told of the end: by the end of the body if no trailers are to follow, by an aborted
-- one, or by the end of the trailers. A start message says whether trailers follow.
abbrev pub any_ends : Bool → List Message → Bool
any_ends announced [] = false
any_ends announced (start _ _ announced' ∷ ms) = any_ends announced' ms
any_ends announced (body _ more aborted ∷ ms) =
    (not more && (aborted || not announced)) || any_ends announced ms
any_ends announced (trailers _ more ∷ ms) = not more || any_ends announced ms

-- By its flags the application itself has sent an end. Any trailers message sets `trailers_sent`, the
-- first of several too.
abbrev pub IsComplete : AsgiRequest → Type 0
IsComplete r = (r.body_ended ≡ true) × ((r.trailers_announced ≡ false) ⊎ (r.trailers_sent ≡ true))

-- Trailers were announced and are still to come.
abbrev pub IsPending : AsgiRequest → Type 0
IsPending r = (r.body_ended ≡ true) × (r.trailers_announced ≡ true) × (r.trailers_sent ≡ false)

-- Before a response starts, nothing of it has been announced or ended.
abbrev pub IsCoherent : AsgiRequest → Type 0
IsCoherent r =
    r.response_started ≡ false
    → (r.body_ended ≡ false) × (r.trailers_announced ≡ false) × (r.trailers_sent ≡ false)

-- Whatever the application hands to `send`, and whether it is taken, ignored or raises, the flags
-- stay such that nothing is announced or ended before the response starts.
pub prepare-IsCoherent :
    (message : AppMessage) (r : AsgiRequest) → IsCoherent r → IsCoherent (prepare message r).1
unfolding prepare prepare_start
prepare-IsCoherent not_a_dict r h = h
prepare-IsCoherent unsupported r h = h
prepare-IsCoherent (response_start none items announced) r h = h
prepare-IsCoherent (response_start (some status) items announced) r h =
    elim (Option-cases (checked_headers items)) [
      | inl bad ↦ ground arith
      | inr (headers, good) ↦ ground arith
    ]
prepare-IsCoherent (response_body none more aborted) r h = ground arith
prepare-IsCoherent (response_body (some data_) more aborted) r h = ground arith
prepare-IsCoherent (response_trailers headers more) r h = ground arith

-- Once the application is over, in whatever way, the writer is told of an end, or the flags say that
-- it has been, with one exception: an application that raises `ResponseAborted` when its body has
-- ended and the trailers that it announced have not been sent leaves the writer with nothing. This
-- holds of an exchange that the handler has not finished, whose flags are coherent, and in which no
-- trailers were sent before the end of the body.
pub run_app_end-ends :
    (outcome : Outcome) (r : AsgiRequest)
    → IsCoherent r
    → r.response_complete ≡ false
    → (r.trailers_sent ≡ true → r.body_ended ≡ true)
    → (any_ends r.trailers_announced (run_app_end outcome r).0 ≡ true)
      ⊎ IsComplete r
      ⊎ ((outcome ≡ response_aborted) × IsPending r × ((run_app_end outcome r).0 ≡ []))
unfolding run_app_end finish
run_app_end-ends returned r h open_ order = ground arith
run_app_end-ends exception r h open_ order = ground arith
run_app_end-ends response_aborted r h open_ order = ground arith

-- An application that announced trailers, ended its body, sent a first trailers message with more to
-- follow and then returned leaves the writer with no end: nothing is put for it, whatever is queued.
pub run_app_end-partial :
    (headers : Headers) (r : AsgiRequest)
    → r.response_started ≡ true
    → r.body_ended ≡ true
    → r.trailers_announced ≡ true
    → ((prepare (response_trailers headers true) r).0 ≡ prepared (trailers headers true))
      × ((run_app_end returned (prepare (response_trailers headers true) r).1).0 ≡ [])
unfolding run_app_end prepare finish
run_app_end-partial headers r started ended announced = ground arith

-- A start message with a final status and a header that is no pair of bytes raises `ValueError`, and
-- yet marks the response as started: when the error then ends the application, the writer gets no
-- start message and no `500`, only an aborted end.
pub run_app_end-prepare :
    (status : ℕ) (items : List Item) (announced : Bool) (r : AsgiRequest)
    → 200 ≤ status
    → status ≤ 999
    → checked_headers items ≡ none
    → r.response_started ≡ false
    → r.body_ended ≡ false
    → let (answer, r') = prepare (response_start (some status) items announced) r in
      (answer ≡ raised value_error)
      × (r'.response_started ≡ true)
      × ((run_app_end exception r').0 ≡ end_message true ∷ [])
unfolding run_app_end prepare prepare_start finish
run_app_end-prepare status items announced r low high bad fresh unended =
    (ground arith, ground arith, ground arith)

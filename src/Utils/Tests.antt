-- ===== src/Utils/Tests.antt =====
-- Runs of the helpers of echocorn/utils.py at concrete inputs.
use echocorn.Base.{
  Option, some, ℕ, ◌≡◌, refl, ◌⊎◌, inl, inr, Bool, true, false, List, [], ◌∷◌, All, arith, none,
  ◌≤◌,
}
use echocorn.Base.Bytes.{Bytes, codes}
use echocorn.Utils.Log.{log_field, IsPlain, log_field-IsPlain}
use echocorn.Utils.Headers.{Item, pair, Field, normalize_response_headers}
use echocorn.Utils.Headers.Clean.{IsClean, normalize_response_headers-IsClean}
use echocorn.Utils.Asgi.{
  AsgiRequest, init, trailers, returned, exception, response_aborted, run_app_end, raised,
  value_error, end_message, prepare, prepared, response_start, response_trailers, checked_headers,
}
use echocorn.Utils.Asgi.Endings.{
  any_ends, IsComplete, IsPending, IsCoherent, prepare-IsCoherent, run_app_end-ends,
  run_app_end-partial, run_app_end-prepare,
}

abbrev two_lines : Bytes
two_lines = b'a' ∷ 10 ∷ b'b' ∷ []

log_field-IsPlain_example : All IsPlain (log_field two_lines)
log_field-IsPlain_example = log_field-IsPlain two_lines

two_lines_escaped : log_field two_lines ≡ codes "a\\x0ab"
unfolding log_field
two_lines_escaped = refl

abbrev given : List Item
given =
    pair (Field.bytes (codes "X-A ")) (Field.bytes (codes "1"))
    ∷ pair (Field.bytes (codes "Upgrade")) (Field.bytes (codes "h2c"))
    ∷ []

given_cleaned : normalize_response_headers given true [] ≡ (codes "x-a", codes "1") ∷ []
unfolding normalize_response_headers echocorn.Base.Pattern.token_match echocorn.Base.Bytes.bytes_eq
    echocorn.Base.Pattern.has_illegal_value
given_cleaned = refl

normalize_response_headers-IsClean_example :
    All (IsClean []) (normalize_response_headers given true [])
normalize_response_headers-IsClean_example = normalize_response_headers-IsClean given true []

abbrev fresh : AsgiRequest
fresh = record {
  recv_q = [];
  recv_maxsize = 4;
  send_q = [];
  send_maxsize = 4;
  recv_space = true;
  send_space = true;
  response_started = false;
  response_complete = false;
  finished = false;
  disconnected = false;
  on_first_receive = false;
  trailers_announced = false;
  trailers_sent = false;
  body_ended = false;
  aborted = false;
}

fresh-init : init 4 4 false ≡ fresh
unfolding init
fresh-init = refl

abbrev trailing : AsgiRequest
trailing = record fresh { response_started = true; trailers_announced = true; body_ended = true }

fresh-IsCoherent : IsCoherent fresh
fresh-IsCoherent _ = (refl, refl, refl)

prepare-IsCoherent_example : IsCoherent (prepare (response_start (some 200) given true) fresh).1
prepare-IsCoherent_example =
    prepare-IsCoherent (response_start (some 200) given true) fresh fresh-IsCoherent

run_app_end-ends_example :
    (any_ends true (run_app_end response_aborted trailing).0 ≡ true)
    ⊎ IsComplete trailing
    ⊎ ((response_aborted ≡ response_aborted)
        × IsPending trailing
        × ((run_app_end response_aborted trailing).0 ≡ []))
run_app_end-ends_example =
    run_app_end-ends response_aborted trailing (λ started. cc) refl (λ sent. cc)

run_app_end-partial_example :
    ((prepare (response_trailers [] true) trailing).0 ≡ prepared (trailers [] true))
    × ((run_app_end returned (prepare (response_trailers [] true) trailing).1).0 ≡ [])
run_app_end-partial_example = run_app_end-partial [] trailing refl refl refl

abbrev ill_typed : List Item
ill_typed = pair (Field.text (codes "x-a")) (Field.bytes (codes "1")) ∷ []

ill_typed_refused : checked_headers ill_typed ≡ none
unfolding checked_headers
ill_typed_refused = refl

run_app_end-prepare_example :
    let (answer, r') = prepare (response_start (some 200) ill_typed false) fresh in
    (answer ≡ raised value_error)
    × (r'.response_started ≡ true)
    × ((run_app_end exception r').0 ≡ end_message true ∷ [])
run_app_end-prepare_example =
    run_app_end-prepare 200 ill_typed false fresh (omega arith) (omega arith) ill_typed_refused refl
      refl

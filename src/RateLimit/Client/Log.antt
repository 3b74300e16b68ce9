-- ===== src/RateLimit/Client/Log.antt =====
-- The answers to a sequence of requests of one client, each beside its moment.
use echocorn.Base.{
  ℕ, ◌+◌, ◌≤◌, ◌≡◌, refl, ap, Option, none, some, List, [], ◌∷◌, ◌&&◌, ltb, leb, if◌then◌else◌, ◌∙◌,
  sym,
}
use echocorn.RateLimit.{Limits}
use echocorn.RateLimit.Client.{Client, request}
use echocorn.RateLimit.Client.Settle.{settle, settle-settle, request-settle}

abbrev pub Log : Type 0
Log = List (ℕ × Option ℕ)

unfoldable pub client_log : Limits → Client → List ℕ → Log
client_log l c [] = []
client_log l c (t ∷ ts) = (t, (request l t c).0) ∷ client_log l (request l t c).1 ts

-- The moments do not go back, and none is before `from`.
abbrev pub InOrder : ℕ → List ℕ → Type 0
InOrder from [] = Unit
InOrder from (t ∷ ts) = (from ≤ t) × InOrder t ts

-- What has aged out does not show in the answers.
pub client_log-settle :
    (l : Limits) (now : ℕ) (c d : Client) (ts : List ℕ)
    → InOrder now ts
    → settle l now c ≡ settle l now d
    → client_log l c ts ≡ client_log l d ts
unfolding client_log
client_log-settle l now c d [] order h = refl
client_log-settle l now c d (t ∷ ts) order h =
    let later : settle l t c ≡ settle l t d =
      sym (settle-settle l now t c order.0) ∙ ap (settle l t) h ∙ settle-settle l now t d order.0 in
    let (answer, state) = request-settle l t c d later in
    cc (answer, client_log-settle l t (request l t c).1 (request l t d).1 ts order.1 state)

-- How many of the requests served are in the window that ends at `end`.
unfoldable pub served_in : ℕ → ℕ → Log → ℕ
served_in window end [] = 0
served_in window end ((t, some wait) ∷ log) = served_in window end log
served_in window end ((t, none) ∷ log) =
    (if leb t end && ltb end (t + window) then 1 else 0) + served_in window end log

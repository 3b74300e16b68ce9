-- ===== src/WebSocket/Outcome.antt =====
-- `WebSocketError` of echocorn/websocket.py, and results that may be one.
use echocorn.Base.{ℕ, Bool, true, false, ◌≡◌, ◌⊎◌, inl, inr, refl}
use echocorn.Base.Bytes.{Bytes}

pub record WebSocketError : Type 0 where
  pub code : ℕ
  pub reason : Bytes

pub data Outcome (A : Type 0) : Type 0 where
  done : A → Outcome A
  violation : WebSocketError → Outcome A

infixl 5 ◌>>=◌ ◌>>◌
abbrev pub ◌>>=◌ :
    {Before After : Type 0} → Outcome Before → (Before → Outcome After) → Outcome After
violation error >>= step = violation error
done before >>= step = step before

abbrev pub ◌>>◌ : {After : Type 0} → Outcome (Unit {0}) → Outcome After → Outcome After
check >> later = check >>= λ _. later

abbrev pub close_protocol_error : ℕ
close_protocol_error = 1002

abbrev pub close_too_big : ℕ
close_too_big = 1009

abbrev pub reject_if : Bool → ℕ → Bytes → Outcome (Unit {0})
reject_if false code reason = done tt
reject_if true code reason = violation (record { code = code; reason = reason })

abbrev pub is_done : {A : Type 0} → Outcome A → Bool
is_done (done a) = true
is_done (violation e) = false

pub Outcome-cases : {A : Type 0} (r : Outcome A) → ((a : A) × (r ≡ done a)) ⊎ (is_done r ≡ false)
Outcome-cases (done a) = inl (a, refl)
Outcome-cases (violation e) = inr refl

pub bind-done :
    {A B : Type 0} (m : Outcome A) (f : A → Outcome B) (b : B)
    → (m >>= f) ≡ done b
    → (a : A) × (m ≡ done a) × (f a ≡ done b)
bind-done (done a) f b h = (a, refl, h)
bind-done (violation e) f b h = cc

pub reject_if-done :
    (refused : Bool) (code : ℕ) (reason : Bytes)
    → reject_if refused code reason ≡ done tt
    → refused ≡ false
reject_if-done true code reason h = cc
reject_if-done false code reason h = refl

-- ===== src/Http1/Error.antt =====
-- `_ProtocolError` of echocorn/http1.py, and results that may be one.
use echocorn.Base.{ap, ℕ, Bool, true, false, ◌≡◌, refl, Option, none}
use echocorn.Base.Bytes.{Bytes}

pub record ProtocolError : Type 0 where
  pub status : ℕ
  pub message : Bytes
  pub allow : Option Bytes

pub data Result {ℓ} (A : Type ℓ) : Type ℓ where
  ok : A → Result A
  err : ProtocolError → Result A

-- what follows an error is not run
infixl 5 ◌>>=◌ ◌>>◌
abbrev pub ◌>>=◌ {ℓ ℓ'} :
    {Given : Type ℓ} {Next : Type ℓ'} → Result Given → (Given → Result Next) → Result Next
err refused >>= next = err refused
ok given >>= next = next given

abbrev pub ◌>>◌ {ℓ} : {Next : Type ℓ} → Result (Unit {0}) → Result Next → Result Next
checked >> next = checked >>= λ _. next

abbrev pub fail {ℓ} : {A : Type ℓ} → ℕ → Bytes → Result A
fail status message = err (record { status = status; message = message; allow = none })

-- `if refused: raise`
abbrev pub refuse_if : Bool → ℕ → Bytes → Result (Unit {0})
refuse_if true status message = fail status message
refuse_if false status message = ok tt

abbrev pub is_ok {ℓ} : {A : Type ℓ} → Result A → Bool
is_ok (ok a) = true
is_ok (err e) = false

-- What a bind that gives a value went through.
pub bind-ok {ℓ κ} :
    {A : Type ℓ} {B : Type κ} (m : Result A) (f : A → Result B) (b : B)
    → (m >>= f) ≡ ok b
    → (a : A) × (m ≡ ok a) × (f a ≡ ok b)
bind-ok (ok a) f b h = (a, refl, h)
bind-ok (err e) f b h = cc

pub refuse_if-ok :
    {A : Type 0} (refused : Bool) (status : ℕ) (message : Bytes) (k : Result A) (a : A)
    → (refuse_if refused status message >>= λ _. k) ≡ ok a
    → (refused ≡ false) × (k ≡ ok a)
refuse_if-ok true status message k a h = cc
refuse_if-ok false status message k a h = (refl, h)

abbrev ok_or {ℓ} : {A : Type ℓ} → A → Result A → A
ok_or a (ok b) = b
ok_or a (err e) = a

pub ok-injective {ℓ} : {A : Type ℓ} (a b : A) → ok a ≡ ok b → a ≡ b
ok-injective a b h = ap (ok_or a) h

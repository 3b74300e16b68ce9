-- ===== src/Config/Accepted.antt =====
-- What a configuration file that echocorn/config.py accepts can hold.
use mathlib.Core.Path.{subst}
use echocorn.Base.{
  ℕ, ◌≤◌, ◌≡◌, ◌⊎◌, inl, inr, refl, ap, sym, ◌∙◌, Bool, true, Option, none, some, List, Bool-cases,
  if-true, if-false, arith,
}
use echocorn.Base.Bytes.{Bytes}
use echocorn.Config.{
  Checked, accepted, rejected, text_strip, reject_if, ◌>>=◌, ServerConfig, defaults, is_set,
}
use echocorn.Config.Checks.{differ, post_init}
use echocorn.Config.Rules.{IsValid}
use echocorn.Config.Valid.{post_init-IsValid}
use echocorn.Config.Schema.{Env, bool, int, float, other, text}
use echocorn.Config.Target.{match_target, vet, check_target, is_local, proxy_target, port_number}
use echocorn.Config.Load.{
  Item, single, table, Settings, Loading, and_then, load_sections, names_application, check_name,
  check_app, finish_loading, settings_from_mapping,
}

Checked-cases :
    {A : Type 0} (r : Checked A)
    → ((a : A) × (r ≡ accepted a)) ⊎ ((message : Bytes) × (r ≡ rejected message))
Checked-cases (accepted a) = inl (a, refl)
Checked-cases (rejected message) = inr (message, refl)

-- what a chain that ends well went through
pub and_then-accepted :
    {Given Next : Type 0} (m : Loading Given) (f : Given → Loading Next) (b : Next)
    → and_then m f ≡ some (accepted b)
    → (a : Given) × (m ≡ some (accepted a)) × (f a ≡ some (accepted b))
and_then-accepted none f b h = cc
and_then-accepted (some (rejected message)) f b h = cc
and_then-accepted (some (accepted a)) f b h = (a, refl, h)

some-injective : {A : Type 0} (a b : A) → some a ≡ some b → a ≡ b
some-injective a b h = ap (some_or a) h
  where
    some_or : {A : Type 0} → A → Option A → A
    some_or a none = a
    some_or a (some b) = b

bind-accepted :
    {Given Next : Type 0} (m : Checked Given) (f : Given → Checked Next) (b : Next)
    → (m >>= f) ≡ accepted b
    → (a : Given) × (m ≡ accepted a) × (f a ≡ accepted b)
bind-accepted (rejected message) f b h = cc
bind-accepted (accepted a) f b h = (a, refl, h)

accepted-injective : {A : Type 0} (a b : A) → accepted a ≡ accepted b → a ≡ b
accepted-injective a b h = ap (accepted_or a) h
  where
    accepted_or : {A : Type 0} → A → Checked A → A
    accepted_or a (accepted b) = b
    accepted_or a (rejected message) = a

-- The application of a configuration: a local server on a port, or the name of a callable.
abbrev pub IsApplication : (Bytes → Option Bool) → Bytes → Type 0
IsApplication private_address app =
    ((proxy_target private_address app ≡ accepted none) × (names_application app ≡ true))
    ⊎ ((host : Bytes) × (port : ℕ) × (proxy_target private_address app
          ≡ accepted (some (host, port)))
        × (is_local private_address host ≡ true)
        × (1 ≤ port)
        × (port ≤ 65535))

IsVetted : (Bytes → Option Bool) → Bytes → ℕ → Type 0
IsVetted private_address host port =
    (is_local private_address host ≡ true) × (1 ≤ port) × (port ≤ 65535)

vet-accepted :
    (local : Bool) (host host' : Bytes) (port port' : ℕ)
    → vet local host port ≡ accepted (some (host', port'))
    → (local ≡ true) × (1 ≤ port') × (port' ≤ 65535) × (host ≡ host')
vet-accepted local host host' port port' h = ground arith

check_target-vetted :
    (private_address : Bytes → Option Bool) (found : Option (Bytes × Bytes)) (host : Bytes)
    (port : ℕ)
    → check_target private_address found ≡ accepted (some (host, port))
    → (is_local private_address host ≡ true) × (1 ≤ port) × (port ≤ 65535)
unfolding check_target
check_target-vetted private_address none host port h = cc
check_target-vetted private_address (some (host', digits)) host port h =
    let (here, low, high, same) =
      vet-accepted (is_local private_address host') host' host (port_number 0 digits) port h in
    (subst (λ t. is_local private_address t ≡ true) same here, low, high)

check_name-accepted :
    (app app' : Bytes) (r : Checked (Option (Bytes × ℕ)))
    → check_name app r ≡ accepted app'
    → (app ≡ app')
      × (((r ≡ accepted none) × (names_application app ≡ true))
          ⊎ ((host : Bytes) × (port : ℕ) × (r ≡ accepted (some (host, port)))))
check_name-accepted app app' (rejected message) h = cc
check_name-accepted app app' (accepted (some (host, port))) h =
    (accepted-injective app app' h, inr (host, port, refl))
check_name-accepted app app' (accepted none) h = elim (Bool-cases (names_application app)) [
  | inl named ↦ (accepted-injective app app' (sym (if-true _ _ named) ∙ h), inl (refl, named))
  | inr unnamed ↦ absurd (rejected-accepted (sym (if-false _ _ unnamed) ∙ h))
]
  where
    rejected-accepted : {A : Type 0} {message : Bytes} {a : A} → rejected message ≡ accepted a → ⊥
    rejected-accepted h = cc

proxy_target-vetted :
    (private_address : Bytes → Option Bool) (value host : Bytes) (port : ℕ)
    → proxy_target private_address value ≡ accepted (some (host, port))
    → (is_local private_address host ≡ true) × (1 ≤ port) × (port ≤ 65535)
unfolding proxy_target
proxy_target-vetted private_address value host port h =
    check_target-vetted private_address (match_target (text_strip value)) host port h

check_name-IsApplication :
    (private_address : Bytes → Option Bool) (app app' : Bytes)
    → check_name app (proxy_target private_address app) ≡ accepted app'
    → IsApplication private_address app'
check_name-IsApplication private_address app app' h =
    let (same, found) = check_name-accepted app app' (proxy_target private_address app) h in
    subst (IsApplication private_address) same (elim found [
      | inl named ↦ inl named
      | inr (host, port, e) ↦
          let (here, low, high) = proxy_target-vetted private_address app host port e in
          inr (host, port, e, here, low, high)
    ])

check_app-IsApplication :
    (env : Env) (item : Option Item) (app : Bytes)
    → check_app env item ≡ accepted app
    → IsApplication env.private_address app
unfolding check_app
check_app-IsApplication env none app h = cc
check_app-IsApplication env (some (table entries)) app h = cc
check_app-IsApplication env (some (single (text s))) app h =
    check_name-IsApplication env.private_address (text_strip s) app h
check_app-IsApplication env (some (single (bool b))) app h = cc
check_app-IsApplication env (some (single (int i))) app h = cc
check_app-IsApplication env (some (single (float x))) app h = cc
check_app-IsApplication env (some (single other)) app h = cc

-- the application and the settings of a configuration that is accepted
finish_loading-accepted :
    (env : Env) (item : Option Item) (c : ServerConfig) (s : Settings)
    → finish_loading env item c ≡ accepted s
    → IsApplication env.private_address s.app × IsValid s.config
unfolding finish_loading
finish_loading-accepted env item c s h =
    let (app, named, h1) = bind-accepted (check_app env item) _ s h in
    let (_, _, h2) =
      bind-accepted (reject_if (differ (is_set c.certfile) (is_set c.keyfile)) _) _ s h1 in
    let (config, valid, h3) = bind-accepted (post_init c) _ s h2 in
    let same : record { config = config; app = app } ≡ s = accepted-injective _ s h3 in
    subst (λ (t : Settings). IsApplication env.private_address t.app × IsValid t.config) same
      (check_app-IsApplication env item app named, post_init-IsValid c config valid)

-- Whatever document is loaded: if its settings are accepted, they satisfy all that `__post_init__` asks:
-- the bounds of the ports, workers, sizes, counts, timeouts and HTTP/2 settings, the rate limit with
-- its peak and table, the redirect with its status, files and own port, the log level and the protocols
-- (of a float, that it is above or not below zero, or nan). The application that they name is a
-- callable of a module, or a server on a local address with a port between 1 and 65535; a public
-- address is never accepted.
pub settings_from_mapping-accepted :
    (env : Env) (items : List (Bytes × Item)) (s : Settings)
    → settings_from_mapping env items ≡ some (accepted s)
    → IsApplication env.private_address s.app × IsValid s.config
unfolding settings_from_mapping
settings_from_mapping-accepted env items s h =
    let ((item, c), _, done) = and_then-accepted (load_sections env items none defaults) _ s h in
    finish_loading-accepted env item c s (some-injective _ _ done)

-- ===== src/Config/Load.antt =====
-- `_settings_from_mapping` of echocorn/config.py: from a parsed TOML document to settings.
use echocorn.Base.{ℕ, Bool, ◌||◌, not, Option, none, some, List, [], ◌∷◌, null, if◌then◌else◌}
use echocorn.Base.Bytes.{Bytes, bytes_eq, codes, partition}
use echocorn.Config.{
  Checked, accepted, rejected, reject_if, ◌>>=◌, ◌>>◌, ServerConfig, defaults, text_strip, is_set,
}
use echocorn.Config.Checks.{differ, post_init}
use echocorn.Config.Schema.{Value, text, Entry, Env, lookup, section, check}
use echocorn.Config.Target.{proxy_target}

-- An entry of the document: a table, or a single value.
pub data Item : Type 0 where
  table : List (Bytes × Value) → Item
  single : Value → Item

pub record Settings : Type 0 where
  pub config : ServerConfig
  pub app : Bytes

-- What an outcome is: `none` is an exception that is no `ConfigError`.
abbrev pub Loading : Type 0 → Type 0
Loading A = Option (Checked A)

abbrev pub and_then : {Given Next : Type 0} → Loading Given → (Given → Loading Next) → Loading Next
and_then none next = none
and_then (some (rejected message)) next = some (rejected message)
and_then (some (accepted given)) next = next given

unfoldable pub load_value : Env → Option Entry → Value → ServerConfig → Loading ServerConfig
unfolding check
load_value env none value c = some (rejected (codes "unknown setting"))
load_value env (some entry) value c = check env entry value c

-- the keys of one section
unfoldable pub load_keys :
    Env → List (Bytes × Entry) → List (Bytes × Value) → ServerConfig → Loading ServerConfig
unfolding lookup load_value
load_keys env keys [] c = some (accepted c)
load_keys env keys ((key, value) ∷ entries) c =
    and_then (load_value env (lookup key keys) value c) (load_keys env keys entries)

unfoldable pub load_item :
    Env → Option (List (Bytes × Entry)) → Item → ServerConfig → Loading ServerConfig
unfolding load_keys
load_item env none item c = some (rejected (codes "unknown setting"))
load_item env (some keys) (single value) c = some (rejected (codes "must be a table of settings"))
load_item env (some keys) (table entries) c = load_keys env keys entries c

-- the sections; the application is handed on
unfoldable pub load_sections :
    Env → List (Bytes × Item) → Option Item → ServerConfig → Loading (Option Item × ServerConfig)
unfolding bytes_eq section load_item
load_sections env [] app c = some (accepted (app, c))
load_sections env ((name, item) ∷ items) app c =
    if bytes_eq name (codes "app")
    then load_sections env items (some item) c
    else and_then (load_item env (section name) item c) (load_sections env items app)

abbrev pub names_application : Bytes → Bool
names_application app =
    let (module_name, found, attribute) = partition b':' app in
    not (null module_name || null attribute)

abbrev pub check_name : Bytes → Checked (Option (Bytes × ℕ)) → Checked Bytes
check_name app (rejected message) = rejected message
check_name app (accepted (some target)) = accepted app
check_name app (accepted none) =
    if names_application app
    then accepted app
    else rejected (codes "app must name an ASGI application")

unfoldable pub check_app : Env → Option Item → Checked Bytes
unfolding text_strip proxy_target partition
check_app env (some (single (text s))) =
    check_name (text_strip s) (proxy_target env.private_address (text_strip s))
check_app env none = rejected (codes "an 'app' key is required")
check_app env (some item) = rejected (codes "app must be a string")

-- what stands behind the sections
unfoldable pub finish_loading : Env → Option Item → ServerConfig → Checked Settings
unfolding check_app post_init
finish_loading env app c = check_app env app >>= λ name.
    reject_if (differ (is_set c.certfile) (is_set c.keyfile))
      (codes "tls.certfile and tls.keyfile must be set together or left out together")
    >> (post_init c >>= λ config. accepted (record { config = config; app = name }))

unfoldable pub settings_from_mapping : Env → List (Bytes × Item) → Loading Settings
unfolding load_sections finish_loading
settings_from_mapping env items =
    and_then (load_sections env items none defaults)
      (λ loaded. some (finish_loading env loaded.0 loaded.1))

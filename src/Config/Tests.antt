-- ===== src/Config/Tests.antt =====
-- Runs of the configuration loader of echocorn/config.py at concrete inputs.
use echocorn.Base.{if◌then◌else◌, ◌≤◌, ◌≡◌, refl, true, false, some, List, [], ◌∷◌, ◌*◌, ◌++◌, All}
use echocorn.Base.Bytes.{Bytes, codes, bytes_eq}
use echocorn.RateLimit.{effective_peak, slot_size, slot_count}
use echocorn.Config.{pos, finite, nan, accepted, rejected, ServerConfig, defaults}
use echocorn.Config.Checks.{post_init}
use echocorn.Config.Rules.{IsValid}
use echocorn.Config.Valid.{post_init-slot_count}
use echocorn.Config.Schema.{Env, bool, int, text}
use echocorn.Config.Load.{Item, table, single, Settings, settings_from_mapping}
use echocorn.Config.Accepted.{IsApplication, settings_from_mapping-accepted}
use echocorn.Config.Known.{IsKnown, settings_from_mapping-IsKnown}

-- one private address, and paths of one directory
abbrev env : Env
env = record {
  float_of = λ i. some (finite i 0);
  resolve = λ path. codes "/etc/" ++ path;
  private_address = λ host. if bytes_eq host (codes "127.0.0.1") then some true else some false;
}

abbrev document : List (Bytes × Item)
document =
    (codes "app", single (text (codes " 127.0.0.1:5000 ")))
    ∷ (
      codes "server",
      table ((codes "port", int (pos 443)) ∷ (codes "request_timeout", int (pos 30)) ∷ []),
    )
    ∷ (codes "ratelimit", table ((codes "enabled", bool true) ∷ (codes "peak", int (pos 40)) ∷ []))
    ∷ (codes "logging", table ((codes "level", text (codes "warning")) ∷ []))
    ∷ []

abbrev config : ServerConfig
config = record defaults {
  port = pos 443;
  request_timeout = finite (pos 30) 0;
  ratelimit_enabled = true;
  ratelimit_peak = pos 40;
  log_level = codes "WARN";
}

abbrev settings : Settings
settings = record { config = config; app = codes "127.0.0.1:5000" }

loaded : settings_from_mapping env document ≡ some (accepted settings)
unfolding settings_from_mapping
loaded = refl

settings_from_mapping-accepted_example :
    IsApplication env.private_address settings.app × IsValid settings.config
settings_from_mapping-accepted_example = settings_from_mapping-accepted env document settings loaded

settings_from_mapping-IsKnown_example : All IsKnown document
settings_from_mapping-IsKnown_example = settings_from_mapping-IsKnown env document settings loaded

initialised : post_init config ≡ accepted config
unfolding post_init
initialised = refl

post_init-slot_count_example :
    slot_count 128 (effective_peak 10 40) * slot_size (effective_peak 10 40) ≤ 128 * 1024 * 1024
post_init-slot_count_example = post_init-slot_count config config initialised refl

-- a public address
public_app :
    settings_from_mapping env ((codes "app", single (text (codes "8.8.8.8:53"))) ∷ [])
    ≡ some (rejected (codes "only a local address (loopback or a private network) can be proxied"))
unfolding settings_from_mapping
public_app = refl

-- A window that is not a number passes.
nan_window :
    post_init (record config { ratelimit_window = nan })
    ≡ accepted (record config { ratelimit_window = nan })
unfolding post_init
nan_window = refl

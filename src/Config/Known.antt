-- ===== src/Config/Known.antt =====
-- A configuration file that echocorn/config.py accepts holds no key that it does not know.
use echocorn.Base.{
  ◌≡◌, ◌⊎◌, inl, inr, refl, sym, ◌∙◌, true, Option, none, some, List, [], ◌∷◌, All, Bool-cases,
  if-true, if-false,
}
use echocorn.Base.Bytes.{Bytes, bytes_eq, codes}
use echocorn.Config.{accepted, ServerConfig, defaults}
use echocorn.Config.Schema.{Env, Entry, Value, lookup, section}
use echocorn.Config.Load.{
  Item, single, table, Settings, load_value, load_item, load_keys, load_sections,
  settings_from_mapping,
}
use echocorn.Config.Accepted.{and_then-accepted}

-- A key of the section, with a value of its kind.
abbrev pub IsKnownKey : List (Bytes × Entry) → Bytes × Value → Type 0
IsKnownKey keys (key, value) = (entry : Entry) × (lookup key keys ≡ some entry)

-- A table of known keys, if the section is one.
abbrev pub IsKnownTable : Option (List (Bytes × Entry)) → Item → Type 0
IsKnownTable none item = ⊥
IsKnownTable (some keys) (single value) = ⊥
IsKnownTable (some keys) (table entries) = All (IsKnownKey keys) entries

-- An entry of the document that the loader knows: the application, or a section.
abbrev pub IsKnown : Bytes × Item → Type 0
IsKnown (name, item) = (bytes_eq name (codes "app") ≡ true) ⊎ IsKnownTable (section name) item

load_value-known :
    (env : Env) (found : Option Entry) (value : Value) (c c' : ServerConfig)
    → load_value env found value c ≡ some (accepted c')
    → (entry : Entry) × (found ≡ some entry)
unfolding load_value
load_value-known env none value c c' h = cc
load_value-known env (some entry) value c c' h = (entry, refl)

load_keys-known :
    (env : Env) (keys : List (Bytes × Entry)) (entries : List (Bytes × Value)) (c c' : ServerConfig)
    → load_keys env keys entries c ≡ some (accepted c')
    → All (IsKnownKey keys) entries
unfolding load_keys
load_keys-known env keys [] c c' h = tt
load_keys-known env keys ((key, value) ∷ entries) c c' h =
    let (c1, now, later) =
      and_then-accepted (load_value env (lookup key keys) value c) (load_keys env keys entries) c'
        h in
    (
      load_value-known env (lookup key keys) value c c1 now,
      load_keys-known env keys entries c1 c' later,
    )

load_item-known :
    (env : Env) (keys : Option (List (Bytes × Entry))) (item : Item) (c c' : ServerConfig)
    → load_item env keys item c ≡ some (accepted c')
    → IsKnownTable keys item
unfolding load_item
load_item-known env none item c c' h = cc
load_item-known env (some keys) (single value) c c' h = cc
load_item-known env (some keys) (table entries) c c' h = load_keys-known env keys entries c c' h

load_sections-IsKnown :
    (env : Env) (items : List (Bytes × Item)) (app : Option Item) (c : ServerConfig)
    (loaded : Option Item × ServerConfig)
    → load_sections env items app c ≡ some (accepted loaded)
    → All IsKnown items
unfolding load_sections
load_sections-IsKnown env [] app c loaded h = tt
load_sections-IsKnown env ((name, item) ∷ items) app c loaded h =
    elim (Bool-cases (bytes_eq name (codes "app"))) [
      | inl is_app ↦ (
        inl is_app,
        load_sections-IsKnown env items (some item) c loaded (sym (if-true _ _ is_app) ∙ h),
      )
      | inr is_section ↦
          let (c1, now, later) =
            and_then-accepted (load_item env (section name) item c) (load_sections env items app)
              loaded (sym (if-false _ _ is_section) ∙ h) in
          (
            inr (load_item-known env (section name) item c c1 now),
            load_sections-IsKnown env items app c1 loaded later,
          )
    ]

-- A document whose settings are accepted holds nothing but the application and sections of the schema, each
-- a table, and in each of them only keys that the schema has for that section.
pub settings_from_mapping-IsKnown :
    (env : Env) (items : List (Bytes × Item)) (s : Settings)
    → settings_from_mapping env items ≡ some (accepted s)
    → All IsKnown items
unfolding settings_from_mapping
settings_from_mapping-IsKnown env items s h =
    let (loaded, sections, _) = and_then-accepted (load_sections env items none defaults) _ s h in
    load_sections-IsKnown env items none defaults loaded sections

-- ===== src/Redirect/Location.antt =====
-- `_target_authority` and `build_location` of echocorn/redirect.py.
use echocorn.Base.{
  ℕ, ◌+◌, ◌≡◌, ◌⊎◌, inl, inr, Bool, true, false, ◌&&◌, ◌||◌, not, Option, none, some, [], ◌∷◌, ◌++◌,
  ltb, ◌==◌, length, take, drop, null, all, if◌then◌else◌, Bool-cases, Option-cases, arith,
  get_or_else,
}
use echocorn.Base.Bytes.{Bytes, codes, strip, starts_with, find, partition, count_byte, is_digit}
use echocorn.Base.Numerals.{decimal}
use echocorn.Base.Pattern.{has_illegal_target}

pub record ServerConfig : Type 0 where
  -- encoded as Latin-1
  pub bind_domain : Bytes
  pub port : ℕ
  pub max_connections : ℕ
  pub max_header_size : ℕ
  pub request_timeout : ℕ
  pub redirect_status : ℕ

-- what may stand behind an IPv6 literal: nothing, or a port
abbrev port_tail : Bytes → Bool
port_tail [] = true
port_tail (c ∷ tail) = (c == b':') && (ltb 0 (length tail) && all is_digit tail)

-- the name without its port; `none` where `ValueError` is raised
unfoldable bare_name : Bytes → Option Bytes
unfolding starts_with find partition count_byte
bare_name name =
    if starts_with name (codes "[")
    then elim (find name (codes "]")) [
      | none ↦ none
      | some end ↦ if port_tail (drop (end + 1) name) then some (take (end + 1) name) else none
    ]
    else if count_byte b':' name == 1
    then (let (before, found, after) = partition b':' name in some before)
    else if ltb 1 (count_byte b':' name)
    then none
    else some name

abbrev with_port : ℕ → Bytes → Bytes
with_port port name = if (port == 0) || (port == 443) then name else name ++ (b':' ∷ decimal port)

-- `_target_authority`; `none` where `ValueError` is raised
unfoldable pub target_authority : ServerConfig → Bytes → Option ℕ → Option Bytes
unfolding strip bare_name
target_authority config host https_port =
    let name = if null (strip host) then config.bind_domain else strip host in
    if has_illegal_target name then none else elim (bare_name name) [
      | none ↦ none
      | some bare ↦
          if null bare then none else some (with_port (get_or_else config.port https_port) bare)
    ]

abbrev checked_location : Bytes → Option Bytes
checked_location location = if has_illegal_target location then none else some location

unfoldable pub build_location : ServerConfig → Bytes → Bytes → Option ℕ → Option Bytes
unfolding starts_with target_authority
build_location config target host https_port =
    if starts_with target (codes "http://")
    then checked_location (codes "https://" ++ drop 7 target)
    else if not (starts_with target (codes "/"))
    then none
    else elim (target_authority config host https_port) [
      | none ↦ none
      | some authority ↦ checked_location (codes "https://" ++ (authority ++ target))
    ]

-- A location that can stand in a header, with the path and the query of the target: the rest of an
-- absolute target, or an authority that is not empty with the target behind it.
abbrev pub IsRedirect : Bytes → Bytes → Type 0
IsRedirect target location =
    (has_illegal_target location ≡ false)
    × (((starts_with target (codes "http://") ≡ true)
          × (location ≡ codes "https://" ++ drop 7 target))
        ⊎ ((starts_with target (codes "/") ≡ true)
            × ((authority : Bytes) × (null authority ≡ false)
                × (location ≡ codes "https://" ++ (authority ++ target)))))

with_port-null : (port : ℕ) (name : Bytes) → null name ≡ false → null (with_port port name) ≡ false
with_port-null port [] h = cc
with_port-null port (c ∷ name) h = ground arith

target_authority-null :
    (config : ServerConfig) (host : Bytes) (https_port : Option ℕ) (authority : Bytes)
    → target_authority config host https_port ≡ some authority
    → null authority ≡ false
unfolding target_authority
target_authority-null config host https_port authority h =
    let name : Bytes = if null (strip host) then config.bind_domain else strip host in
    elim (Option-cases (bare_name name)) [
      | inl refused ↦ ground arith
      | inr (bare, e) ↦ elim (Bool-cases (null bare)) [
        | inl empty ↦ ground arith
        | inr named ↦
            let same : authority ≡ with_port (get_or_else config.port https_port) bare =
              ground arith in
            rw same (with_port-null (get_or_else config.port https_port) bare named)
      ]
    ]

-- Every location that is built can stand in a header: it holds no space and no control byte; it is
-- `https` and keeps the path and the query of the target, behind an authority that is not empty where
-- the target names none.
pub build_location-IsRedirect :
    (config : ServerConfig) (target host : Bytes) (https_port : Option ℕ) (location : Bytes)
    → build_location config target host https_port ≡ some location
    → IsRedirect target location
unfolding build_location
build_location-IsRedirect config target host https_port location h =
    elim (Bool-cases (starts_with target (codes "http://"))) [
      | inl absolute ↦ (ground arith, inl (absolute, ground arith))
      | inr other ↦ elim (Option-cases (target_authority config host https_port)) [
        | inl refused ↦ ground arith
        | inr (authority, e) ↦ (
          ground arith,
          inr (
            ground arith,
            (authority, target_authority-null config host https_port authority e, ground arith),
          ),
        )
      ]
    ]

-- ===== src/Redirect/Reply.antt =====
-- `RedirectProtocol._handle` of echocorn/redirect.py: the answer to one request head. Whether the rate
-- limiter makes the client wait is a parameter.
use echocorn.Base.{
  ◌==◌, ℕ, ◌≡◌, refl, ◌⊎◌, inl, inr, Bool, false, ◌&&◌, ◌||◌, not, Option, none, some, List, [],
  ◌∷◌, all, null, if◌then◌else◌, Bool-cases, Option-cases,
}
use echocorn.Base.Bytes.{Bytes, bytes_eq, codes, lower, strip, partition, is_alpha}
use echocorn.Base.Pattern.{has_illegal_target}
use echocorn.RateLimit.{retry_after_seconds}
use echocorn.Utils.Authority.{valid_authority}
use echocorn.Http1.Fields.{split_lines, version_match}
use echocorn.Redirect.Location.{ServerConfig, build_location, IsRedirect, build_location-IsRedirect}

-- the arguments of `_answer`
pub record Reply : Type 0 where
  pub status : ℕ
  pub location : Option Bytes
  pub reason : Bytes
  pub method : Bytes
  pub retry_after : Option ℕ
  pub target : Bytes

abbrev pub refusal : ℕ → Bytes → Bytes → Bytes → Reply
refusal status reason method target = record {
  status = status;
  location = none;
  reason = reason;
  method = method;
  retry_after = none;
  target = target;
}

-- `^([A-Za-z]+) ([^ ]+) HTTP/(1\.[01])$`: the method and the target
unfoldable pub request_line : Bytes → Option (Bytes × Bytes)
unfolding partition version_match
request_line line =
    let (method, sep, rest) = partition 32 line in
    let (target, sep', version) = partition 32 rest in
    if null method || not (all is_alpha method) || null target || not sep || not sep'
    then none
    else elim (version_match version) [ none ↦ none | some v ↦ some (method, target) ]

pub data Hosts : Type 0 where
  hosts : List Bytes → Hosts
  bad_line : Bytes → Hosts

abbrev starts_blank : Bytes → Bool
starts_blank [] = false
starts_blank (c ∷ line) = (c == 32) || (c == 9)

abbrev push_host : Bytes → Bytes → Hosts → Hosts
push_host name value (hosts values) =
    if bytes_eq (lower (strip name)) (codes "host")
    then hosts (strip value ∷ values)
    else hosts values
push_host name value (bad_line reason) = bad_line reason

-- The values of the `Host` fields, or the first line that is refused.
unfoldable pub host_values : List Bytes → Hosts
unfolding partition lower strip bytes_eq
host_values [] = hosts []
host_values (line ∷ lines) =
    let rest = host_values lines in
    let (name, sep, value) = partition b':' line in
    if starts_blank line
    then bad_line (codes "obsolete line folding is not supported")
    else if not sep
    then bad_line (codes "malformed header field")
    else push_host name value rest

abbrev redirect_or_refuse : ServerConfig → Bytes → Bytes → Option Bytes → Reply
redirect_or_refuse config method target none =
    refusal 400 (codes "no redirect target can be built for this request") method target
redirect_or_refuse config method target (some location) = record {
  status = config.redirect_status;
  location = some location;
  reason = [];
  method = method;
  retry_after = none;
  target = target;
}

-- the answer to a request whose only host is known, the empty one where there is none
unfoldable reply_for_host : ServerConfig → Option ℕ → Bytes → Bytes → Bytes → Reply
unfolding build_location
reply_for_host config https_port method target host =
    if not (null host) && not (valid_authority host)
    then refusal 400 (codes "invalid host header") method target
    else redirect_or_refuse config method target (build_location config target host https_port)

unfoldable reply_for_hosts : ServerConfig → Option ℕ → Bytes → Bytes → Hosts → Reply
unfolding reply_for_host
reply_for_hosts config https_port method target (bad_line reason) = refusal 400 reason method target
reply_for_hosts config https_port method target (hosts []) =
    reply_for_host config https_port method target []
reply_for_hosts config https_port method target (hosts (host ∷ [])) =
    reply_for_host config https_port method target host
reply_for_hosts config https_port method target (hosts (host ∷ other ∷ more)) =
    refusal 400 (codes "duplicate host header") method target

unfoldable reply_to_request :
    ServerConfig → Option ℕ → Option ℕ → List Bytes → Bytes × Bytes → Reply
unfolding reply_for_hosts host_values
reply_to_request config https_port wait lines (method, target) =
    if has_illegal_target target
    then refusal 400 (codes "illegal character in request target") method target
    else elim wait [
      | some w ↦ record {
        status = 429;
        location = none;
        reason = codes "too many requests";
        method = method;
        retry_after = some (retry_after_seconds w);
        target = target;
      }
      | none ↦ reply_for_hosts config https_port method target (host_values lines)
    ]

abbrev reply_to_lines : ServerConfig → Option ℕ → Option ℕ → List Bytes → Reply
reply_to_lines config https_port wait [] =
    refusal 400 (codes "malformed request line") (codes "GET") []
reply_to_lines config https_port wait (first ∷ lines) = elim (request_line first) [
  | none ↦ refusal 400 (codes "malformed request line") (codes "GET") []
  | some parts ↦ reply_to_request config https_port wait lines parts
]

unfoldable pub reply_to : ServerConfig → Option ℕ → Option ℕ → Bytes → Reply
unfolding split_lines request_line reply_to_request
reply_to config https_port wait head = reply_to_lines config https_port wait (split_lines head)

-- A reply without a location, or a redirect that keeps the target.
abbrev pub IsSafe : Reply → Type 0
IsSafe reply =
    (reply.location ≡ none)
    ⊎ ((location : Bytes) × (reply.location ≡ some location) × IsRedirect reply.target location)

reply_for_host-IsSafe :
    (config : ServerConfig) (https_port : Option ℕ) (method target host : Bytes)
    → IsSafe (reply_for_host config https_port method target host)
unfolding reply_for_host
reply_for_host-IsSafe config https_port method target host =
    elim (Bool-cases (not (null host) && not (valid_authority host))) [
      | inl invalid ↦ rw invalid (inl refl)
      | inr valid ↦ elim (Option-cases (build_location config target host https_port)) [
        | inl refused ↦ rw (valid, refused) (inl refl)
        | inr (location, e) ↦
            rw (valid, e)
              (inr (
                location,
                refl,
                build_location-IsRedirect config target host https_port location e,
              ))
      ]
    ]

reply_for_hosts-IsSafe :
    (config : ServerConfig) (https_port : Option ℕ) (method target : Bytes) (values : Hosts)
    → IsSafe (reply_for_hosts config https_port method target values)
unfolding reply_for_hosts
reply_for_hosts-IsSafe config https_port method target (bad_line reason) = inl refl
reply_for_hosts-IsSafe config https_port method target (hosts []) =
    reply_for_host-IsSafe config https_port method target []
reply_for_hosts-IsSafe config https_port method target (hosts (host ∷ [])) =
    reply_for_host-IsSafe config https_port method target host
reply_for_hosts-IsSafe config https_port method target (hosts (host ∷ other ∷ more)) = inl refl

reply_to_request-IsSafe :
    (config : ServerConfig) (https_port wait : Option ℕ) (lines : List Bytes)
    (method target : Bytes)
    → IsSafe (reply_to_request config https_port wait lines (method, target))
unfolding reply_to_request
reply_to_request-IsSafe config https_port (some w) lines method target =
    elim (Bool-cases (has_illegal_target target)) [
      | inl illegal ↦ rw illegal (inl refl)
      | inr legal ↦ rw legal (inl refl)
    ]
reply_to_request-IsSafe config https_port none lines method target =
    elim (Bool-cases (has_illegal_target target)) [
      | inl illegal ↦ rw illegal (inl refl)
      | inr legal ↦
          rw legal (reply_for_hosts-IsSafe config https_port method target (host_values lines))
    ]

-- Whatever bytes stand where a request head is expected, and whether or not the client is made to
-- wait, the reply has no location, or one without spaces and control bytes that keeps the path and
-- the query of the request's target.
pub reply_to-IsSafe :
    (config : ServerConfig) (https_port wait : Option ℕ) (head : Bytes)
    → IsSafe (reply_to config https_port wait head)
unfolding reply_to
reply_to-IsSafe config https_port wait head = by_lines (split_lines head)
  where
    by_lines : (lines : List Bytes) → IsSafe (reply_to_lines config https_port wait lines)
    by_lines [] = inl refl
    by_lines (first ∷ lines) = elim (Option-cases (request_line first)) [
      | inl malformed ↦ rw (malformed, reply_to_lines) (inl refl)
      | inr ((method, target), e) ↦
          rw (e, reply_to_lines)
            (reply_to_request-IsSafe config https_port wait lines method target)
    ]

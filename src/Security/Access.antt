-- ===== src/Security/Access.antt =====
-- app/security/middleware.py: what a request must pass before a route sees it.
pub mod Gates
pub mod Limits
use unifi_netwatcher.Base.{
  ltb, if◌then◌else◌, get_or, length, is_empty, Text, t, text_eq, text_in, strip, lower,
  starts_with, split_once, ◌>>=◌, Result, ok, err, ℕ, Bool, true, false, not, ◌&&◌, ◌||◌, Option,
  none, some, List, [], ◌∷◌,
}
use unifi_netwatcher.Library.Ip.{IpLibrary}
use unifi_netwatcher.Library.Url.{Url}
use unifi_netwatcher.Security.Hosts.{normalize_request_host, host_allowed}
use unifi_netwatcher.Security.Cidrs.{client_ip_allowed}
use unifi_netwatcher.Security.Settings.{SecurityPolicy, Hasher, authenticate}
use unifi_netwatcher.Security.Limiter.{
  Failures, auth_failures_exceeded, record_auth_failure, clear_auth_failures,
}

-- What the middleware reads of a request. A missing header is `none`.
pub record Request : Type 0 where
  pub method : Text
  pub path : Text
  pub client_host : Option Text
  pub host_header : Option Text
  pub origin_header : Option Text
  pub authorization_header : Option Text
  pub url_hostname : Option Text
  pub url_netloc : Text
  pub url_scheme : Text

unfoldable pub is_public_path : Text → Bool
is_public_path path =
    if text_in path (t "/healthz" ∷ t "/readyz" ∷ []) then true else starts_with path (t "/static/")

-- The direct peer's address; a forwarded header is not read.
unfoldable pub effective_client_ip : Request → Text
effective_client_ip r = get_or r.client_host []

abbrev pub mutating_methods : List Text
mutating_methods = t "POST" ∷ t "PUT" ∷ t "PATCH" ∷ t "DELETE" ∷ []

-- `a or b`
abbrev pub or_else : Option Text → Text → Text
or_else (some (c ∷ s)) other = c ∷ s
or_else _ other = other

-- What the checks take from outside: `urlparse`, PUBLIC_ORIGIN, SECURITY_RECOVERY_BYPASS,
-- `b64decode` with the UTF-8 decoding of its result, and the password hasher.
pub record Deployment : Type 0 where
  pub urlparse : Text → Result Url
  pub public_origin : Text
  pub recovery_bypass : Bool
  pub b64decode : Text → Option Text
  pub hasher : Hasher

unfoldable pub same_site : Url → Text → Text → Bool
same_site parsed scheme netloc =
    text_eq (lower parsed.scheme) (lower scheme) && text_eq (lower parsed.netloc) (lower netloc)

module _ (d : Deployment) where
  abbrev against_request : Request → Url → Bool
  against_request r parsed = same_site parsed r.url_scheme (or_else r.host_header r.url_netloc)

  abbrev against_public : Text → Url → Result Bool
  against_public public parsed = do
    expected ← d.urlparse public
    ok (same_site parsed expected.scheme expected.netloc)

  abbrev same_as_expected : Request → Url → Result Bool
  same_as_expected r parsed =
      if is_empty parsed.scheme || is_empty parsed.netloc
      then ok false
      else if is_empty (strip d.public_origin)
      then ok (against_request r parsed)
      else against_public (strip d.public_origin) parsed

  abbrev origin_matches : Request → Text → Result Bool
  origin_matches r origin = d.urlparse origin >>= same_as_expected r

  -- `urlparse` raises a `ValueError` on a malformed address, and so does this check then.
  unfoldable pub origin_matches_request : Request → Result Bool
  origin_matches_request r = elim r.origin_header [
    | none ↦ ok true
    | some origin ↦ if is_empty origin then ok true else origin_matches r origin
  ]

  abbrev credentials : Text × Option Text → Option (Text × Text)
  credentials (username, none) = none
  credentials (username, some password) =
      if ltb 64 (length username) || ltb 256 (length password)
      then none
      else some (username, password)

  abbrev decoded : Option Text → Option (Text × Text)
  decoded none = none
  decoded (some raw) = credentials (split_once b':' raw)

  abbrev parse_header : Text → Option (Text × Text)
  parse_header header =
      if not (starts_with (lower header) (t "basic "))
      then none
      else if ltb 2048 (length header)
      then none
      else decoded (d.b64decode (strip (get_or (split_once b' ' header).1 [])))

  unfoldable pub parse_basic_auth : Option Text → Option (Text × Text)
  parse_basic_auth none = none
  parse_basic_auth (some header) = parse_header header

-- The middleware's answer: a refusal, or the call of the route with the actor that it set.
pub data Outcome : Type 0 where
  call_next : Text → Outcome
  forbidden : Text → Outcome
  unauthorized too_many_requests : Outcome

abbrev pub anonymous : Text
anonymous = t "anonymous"

module _ (ip : IpLibrary) (d : Deployment) (p : SecurityPolicy) where
  unfoldable pub passes_host : Request → Bool
  passes_host r =
      not (p.host_restriction_enabled && not d.recovery_bypass)
      || host_allowed ip
          (normalize_request_host (some (or_else r.host_header (get_or r.url_hostname [])))) true
          p.allowed_hosts

  unfoldable pub passes_cidr : Request → Bool
  passes_cidr r =
      not (p.cidr_restriction_enabled && not d.recovery_bypass)
      || client_ip_allowed ip (effective_client_ip r) p.allowed_cidrs

  unfoldable pub requires_auth : Request → Bool
  requires_auth r = starts_with r.path (t "/security") || p.authentication_enabled

  -- A failure is recorded at the time `later`.
  abbrev check_credentials : Text → ℕ → Failures → Option (Text × Text) → Outcome × Failures
  check_credentials client later failures none =
      (unauthorized, record_auth_failure client later failures)
  check_credentials client later failures (some (username, password)) =
      if authenticate d.hasher p username password
      then (call_next username, clear_auth_failures client failures)
      else (unauthorized, record_auth_failure client later failures)

  -- The part behind `if requires_auth`.
  unfoldable pub check_auth : Request → ℕ → ℕ → Failures → Outcome × Failures
  check_auth r now later failures =
      let client = effective_client_ip r in
      let (exceeded, pruned) = auth_failures_exceeded client now failures in
      if exceeded
      then (too_many_requests, pruned)
      else check_credentials client later pruned (parse_basic_auth d r.authorization_header)

  abbrev after_origin : Request → ℕ → ℕ → Failures → Outcome × Failures
  after_origin r now later failures =
      if not (passes_cidr r)
      then (forbidden (t "Client IP is not allowed"), failures)
      else if requires_auth r
      then check_auth r now later failures
      else (call_next anonymous, failures)

  abbrev pub origin_check : Request → Result Bool
  origin_check r = if text_in r.method mutating_methods then origin_matches_request d r else ok true

  abbrev check_origin : Request → ℕ → ℕ → Failures → Result Bool → Result Outcome × Failures
  check_origin r now later failures (err e) = (err e, failures)
  check_origin r now later failures (ok false) = (ok (forbidden (t "Origin mismatch")), failures)
  check_origin r now later failures (ok true) =
      let (outcome, after) = after_origin r now later failures in (ok outcome, after)

  -- `now` and `later` are the times at which the limiter is asked and told.
  unfoldable pub dispatch : Request → ℕ → ℕ → Failures → Result Outcome × Failures
  dispatch r now later failures =
      if is_public_path r.path
      then (ok (call_next anonymous), failures)
      else if not (passes_host r)
      then (ok (forbidden (t "Host is not allowed")), failures)
      else check_origin r now later failures (origin_check r)

-- ===== src/Security/Hosts.antt =====
-- app/security/service.py: request hosts and the trusted-host list.
use unifi_netwatcher.Base.{
  leb, ◌==◌, if◌then◌else◌, is_some, length, drop, is_empty, all, Text, t, text_in, strip, lower,
  starts_with, has_char, count_char, split_once, split, ℕ, Bool, true, false, not, ◌&&◌, ◌||◌,
  Option, none, some, List, [], ◌∷◌, map, reverse,
}
use unifi_netwatcher.Library.Ip.{IpLibrary}

-- `value[1:end]` up to the closing bracket, or the whole value if there is none.
abbrev bracketed : Text → Text × Option Text → Text
bracketed value (before, none) = value
bracketed value (before, some after) = drop 1 before

-- Strip the port of a value that is trimmed and in lower case.
unfoldable pub strip_port : Text → Text
strip_port value =
    if starts_with value (t "[")
    then bracketed value (split_once b']' value)
    else if count_char b':' value == 1
    then (split_once b':' value).0
    else value

unfoldable pub normalize_request_host : Option Text → Text
normalize_request_host none = []
normalize_request_host (some header) = strip_port (lower (strip header))

abbrev pub builtin_allowed_hosts : List Text
builtin_allowed_hosts = t "localhost" ∷ t "127.0.0.1" ∷ t "::1" ∷ []

abbrev is_alnum : ℕ → Bool
is_alnum c = (leb b'a' c && leb c b'z') || (leb b'0' c && leb c b'9')

abbrev last_is_alnum : Text → Bool
last_is_alnum [] = false
last_is_alnum (c ∷ []) = is_alnum c
last_is_alnum (c ∷ d ∷ s) = last_is_alnum (d ∷ s)

abbrev first_is_alnum : Text → Bool
first_is_alnum [] = false
first_is_alnum (c ∷ s) = is_alnum c

-- `[a-z0-9]([a-z0-9-]{0,61}[a-z0-9])?`
unfoldable pub is_dns_label : Text → Bool
unfolding all
is_dns_label s =
    leb (length s) 63 && first_is_alnum s && last_is_alnum s && all (λ c. is_alnum c || c == b'-') s

-- Labels with a dot between each two.
unfoldable pub is_dns_name : Text → Bool
unfolding all split
is_dns_name s = all is_dns_label (split b'.' s)

unfoldable pub ends_with_dot : Text → Bool
ends_with_dot s = starts_with (reverse s) (t ".")

module _ (ip : IpLibrary) where
  open ip use {Address, ip_address, is_private, is_loopback}

  unfoldable pub is_private_or_loopback_ip : Text → Bool
  is_private_or_loopback_ip host = elim (ip_address host) [
    | none ↦ false
    | some a ↦ is_private a || is_loopback a
  ]

  unfoldable pub host_allowed : Text → Bool → List Text → Bool
  host_allowed host restricted allowed_hosts =
      let normalized = normalize_request_host (some host) in
      if not restricted
      then true
      else if is_empty host
      then false
      else if is_empty normalized
      then false
      else if text_in normalized builtin_allowed_hosts
      then true
      else if is_private_or_loopback_ip normalized
      then true
      else text_in normalized (map lower allowed_hosts)

  -- The tests on one non-blank line of the host list, in lower case and trimmed.
  unfoldable pub accept_host : Text → Option Text
  accept_host value =
      let host = normalize_request_host (some value) in
      if has_char b'/' value || has_char b' ' value
      then none
      else if is_empty host
      then none
      else if has_char b'*' host || starts_with host (t ".") || ends_with_dot host
      then none
      else if is_some (ip_address host)
      then some host
      else if is_dns_name host
      then some host
      else none

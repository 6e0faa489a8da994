-- ===== src/Notifications/Ssrf.antt =====
-- app/notifications/ssrf.py: the address that a webhook connects to.
pub mod Targets
use unifi_netwatcher.Library.Ip.{IpLibrary}
use unifi_netwatcher.Library.Url.{Url}
use unifi_netwatcher.Security.Cidrs.{in_network}
use unifi_netwatcher.Base.{
  if◌then◌else◌, get_or, is_empty, find, Text, t, text_eq, text_in, strip, lower, starts_with,
  has_char, ◌>>=◌, map_ok, Result, ok, err, gai_error, webhook_url_error, ℕ, zero, suc, Bool, true,
  false, not, ◌&&◌, ◌||◌, Option, none, some, List, [], ◌∷◌, ◌++◌, map,
}
use unifi_netwatcher.Base.Decimal.{show}

pub record ResolvedWebhookTarget : Type 0 where
  pub original_url : Text
  pub hostname : Text
  pub port : ℕ
  pub connect_host : Text
  pub allow_private_network : Bool

-- `urlparse`, the addresses that `getaddrinfo` finds, and the hosts that the settings allow.
pub record Network : Type 0 where
  pub urlparse : Text → Result Url
  pub getaddrinfo : Text → ℕ → Result (List Text)
  pub webhook_allowed_hosts : List Text

module _ (ip : IpLibrary) where
  open ip use {
    Address, ip_address, ip_network, show_address, is_ipv4, is_private, is_loopback, is_link_local,
    is_multicast, is_reserved, is_unspecified,
  }

  unfoldable pub is_metadata_ip : Address → Bool
  is_metadata_ip a =
      in_network ip (ip_network (t "169.254.169.254/32")) a
      || in_network ip (ip_network (t "fd00:ec2::254/128")) a

  unfoldable pub is_always_blocked_ip : Address → Bool
  is_always_blocked_ip a =
      is_loopback a
      || is_link_local a
      || is_multicast a
      || is_reserved a
      || is_unspecified a
      || is_metadata_ip a

  unfoldable pub is_private_lan_ip : Address → Bool
  is_private_lan_ip a = if is_always_blocked_ip a then false else is_private a

  unfoldable pub address_blocked : Bool → Address → Bool
  address_blocked allow_private_network a =
      if is_always_blocked_ip a then true else is_private_lan_ip a && not allow_private_network

  abbrev pub add_new : Address → List Address → List Address
  add_new a allowed =
      if text_in (show_address a) (map show_address allowed) then allowed else allowed ++ a ∷ []

  -- The loop over the answers; the texts of the allowed addresses are what `seen` holds.
  unfoldable pub collect_allowed : Bool → List Text → List Address → Result (List Address)
  collect_allowed allow [] allowed = ok allowed
  collect_allowed allow (info ∷ infos) allowed = elim (ip_address info) [
    | none ↦ collect_allowed allow infos allowed
    | some a ↦ elim (address_blocked allow a) [
      | true ↦ err webhook_url_error
      | false ↦ collect_allowed allow infos (add_new a allowed)
    ]
  ]

  abbrev not_none_found : List Address → Result (List Address)
  not_none_found [] = err webhook_url_error
  not_none_found (a ∷ rest) = ok (a ∷ rest)

  -- A failed lookup is a `WebhookURLError`; no other exception is caught.
  abbrev found_infos : Result (List Text) → Result (List Text)
  found_infos (err gai_error) = err webhook_url_error
  found_infos (err e) = err e
  found_infos (ok []) = err webhook_url_error
  found_infos (ok (info ∷ infos)) = ok (info ∷ infos)

  unfoldable pub resolve_allowed_ips : Network → Text → ℕ → Bool → Result (List Address)
  resolve_allowed_ips net host port allow = do
    infos ← found_infos (net.getaddrinfo host port)
    allowed ← collect_allowed allow infos []
    not_none_found allowed

  -- The first IPv4 address, or else the first.
  unfoldable pub choose : List Address → Option Address
  choose [] = none
  choose (a ∷ rest) = elim (find is_ipv4 (a ∷ rest)) [ none ↦ some a | some b ↦ some b ]

  abbrev pub port_or_https : Option ℕ → ℕ
  port_or_https none = 443
  port_or_https (some zero) = 443
  port_or_https (some (suc n)) = suc n

  abbrev target_of : Text → Text → ℕ → Bool → Option Address → Result ResolvedWebhookTarget
  target_of url host port allow none = err webhook_url_error
  target_of url host port allow (some a) = ok (record {
    original_url = url;
    hostname = host;
    port = port;
    connect_host = show_address a;
    allow_private_network = allow;
  })

  abbrev literal_target : Text → Text → ℕ → Bool → Address → Result ResolvedWebhookTarget
  literal_target url host port allow a =
      if address_blocked allow a
      then err webhook_url_error
      else ok (record {
        original_url = url;
        hostname = host;
        port = port;
        connect_host = host;
        allow_private_network = allow;
      })

  abbrev named_target : Network → Text → Text → ℕ → Bool → Result ResolvedWebhookTarget
  named_target net url host port allow = do
    allowed ← resolve_allowed_ips net host port allow
    target_of url host port allow (choose allowed)

  abbrev host_target :
      Network → Text → Text → ℕ → Bool → Option Address → Result ResolvedWebhookTarget
  host_target net url host port allow none = named_target net url host port allow
  host_target net url host port allow (some a) = literal_target url host port allow a

  abbrev url_target : Network → Text → Bool → Url → Result ResolvedWebhookTarget
  url_target net url allow_private_network parsed =
      let host = lower (strip (get_or parsed.hostname [])) in
      let allow = allow_private_network || text_in host net.webhook_allowed_hosts in
      if not (text_eq parsed.scheme (t "https"))
      then err webhook_url_error
      else if is_empty host
      then err webhook_url_error
      else (parsed.port >>= λ port.
          host_target net url host (port_or_https port) allow (ip_address host))

  unfoldable pub resolve_webhook_target : Network → Text → Bool → Result ResolvedWebhookTarget
  resolve_webhook_target net url allow_private_network =
      net.urlparse url >>= url_target net url allow_private_network

  unfoldable pub validate_webhook_url : Network → Text → Bool → Result Text
  validate_webhook_url net url allow_private_network =
      map_ok (λ target. url) (resolve_webhook_target net url allow_private_network)

abbrev bracketed : Text → Text
bracketed host =
    if has_char b':' host && not (starts_with host (t "[")) then t "[" ++ (host ++ t "]") else host

abbrev or_slash : Text → Text
or_slash [] = t "/"
or_slash (c ∷ s) = c ∷ s

abbrev query_part : Text → Text
query_part [] = []
query_part (c ∷ s) = b'?' ∷ c ∷ s

unfoldable pub pinned_request_url : ResolvedWebhookTarget → Url → Text
pinned_request_url target parsed =
    t "https://"
    ++ (bracketed target.connect_host
        ++ (t ":" ++ (show target.port ++ (or_slash parsed.path ++ query_part parsed.query))))

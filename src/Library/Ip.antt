-- ===== src/Library/Ip.antt =====
-- Python's `ipaddress`: addresses, networks and their properties. `none` is the `ValueError` that
-- the parsers raise; networks are read with `strict=False`.
use unifi_netwatcher.Base.{Text, Bool, Option}

pub record IpLibrary : Type 1 where
  pub Address : Type 0
  pub Network : Type 0
  pub ip_address : Text → Option Address
  pub ip_network : Text → Option Network
  pub contains_address : Network → Address → Bool
  pub show_address : Address → Text
  pub show_network : Network → Text
  pub is_ipv4 : Address → Bool
  pub is_private : Address → Bool
  pub is_loopback : Address → Bool
  pub is_link_local : Address → Bool
  pub is_multicast : Address → Bool
  pub is_reserved : Address → Bool
  pub is_unspecified : Address → Bool

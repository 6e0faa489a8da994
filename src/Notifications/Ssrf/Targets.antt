-- ===== src/Notifications/Ssrf/Targets.antt =====
-- No webhook connects to a blocked address.
use unifi_netwatcher.Library.Ip.{IpLibrary}
use unifi_netwatcher.Base.{Text, ◌≡◌, ◌⊎◌, Bool, false, Option, some}
use unifi_netwatcher.Notifications.Ssrf.{is_metadata_ip, ResolvedWebhookTarget}
use unifi_netwatcher.Library.Url.{Url}

module _ (ip : IpLibrary) where
  -- An address that a webhook may reach, under a permission for private networks.
  pub record IsSafe (allow : Bool) (a : ip.Address) : Type 0 where
    pub loopback : ip.is_loopback a ≡ false
    pub link_local : ip.is_link_local a ≡ false
    pub multicast : ip.is_multicast a ≡ false
    pub reserved : ip.is_reserved a ≡ false
    pub unspecified : ip.is_unspecified a ≡ false
    pub metadata : is_metadata_ip ip a ≡ false
    pub not_private : allow ≡ false → ip.is_private a ≡ false

  -- The address that a host text stands for: what it parses to, or what it was printed from.
  abbrev pub StandsFor : Text → ip.Address → Type 0
  StandsFor host a = (ip.ip_address host ≡ some a) ⊎ (host ≡ ip.show_address a)

  abbrev pub IsSafeTarget : ResolvedWebhookTarget → Type 0
  IsSafeTarget target =
      (a : ip.Address) × (StandsFor target.connect_host a × IsSafe target.allow_private_network a)

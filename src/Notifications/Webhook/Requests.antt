-- ===== src/Notifications/Webhook/Requests.antt =====
-- Every request of the webhook provider goes where the check of its URL allows.
use unifi_netwatcher.Notifications.Ssrf.{Network, ResolvedWebhookTarget, resolve_webhook_target}
use unifi_netwatcher.Base.{length, All, Text, t, ok, ◌≤◌, ◌≡◌, List}
use unifi_netwatcher.Library.Ip.{IpLibrary}
use unifi_netwatcher.Notifications.Webhook.{Sending, allow_private_of, sanitize_headers}
use unifi_netwatcher.Notifications.Outbound.{Outbound, HttpRequest}
use unifi_netwatcher.Models.Values.{Fields, get, obj, end}
use unifi_netwatcher.Library.Url.{Url}
use unifi_netwatcher.Notifications.Values.{str_of, set_header, value_or}
use unifi_netwatcher.Notifications.Webhook.Headers.{IsPinned}

module _ (ip : IpLibrary) (net : Network) (out : Outbound) where
  -- No more than one request, and what holds of it.
  abbrev Sends : (HttpRequest → Type 0) → Sending → Type 0
  Sends P s = All P s.1 × (length s.1 ≤ 1)

  module _ (config : Fields) (target : ResolvedWebhookTarget)
      (resolved : resolve_webhook_target ip net
          (str_of out.show_json (get config (t "url")))
          (allow_private_of ip net out config)
        ≡ ok target) where
    abbrev Pinned : HttpRequest → Type 0
    Pinned = IsPinned ip net out config

    base_headers : List (Text × Text)
    base_headers =
        set_header (t "Host") target.hostname
          (sanitize_headers out.show_json (value_or (get config (t "headers")) (obj end)))

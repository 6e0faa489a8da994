-- ===== src/Notifications/Providers.antt =====
-- app/notifications/__init__.py: the providers by their types.
use unifi_netwatcher.Base.{if◌then◌else◌, Text, t, text_eq, Option, none, some}
use unifi_netwatcher.Notifications.Ssrf.{Network}
use unifi_netwatcher.Library.Ip.{IpLibrary}
use unifi_netwatcher.Notifications.Webhook.{webhook_provider}
use unifi_netwatcher.Notifications.Outbound.{Outbound}
use unifi_netwatcher.Notifications.Pushover.{FormClient, pushover_provider}
use unifi_netwatcher.Scanner.Alerts.{Provider}

module _ (ip : IpLibrary) (net : Network) (out : Outbound) (client : FormClient) where
  unfoldable pub providers : Text → Option Provider
  providers type =
      if text_eq type (t "pushover")
      then some (pushover_provider client)
      else if text_eq type (t "webhook")
      then some (webhook_provider ip net out)
      else none

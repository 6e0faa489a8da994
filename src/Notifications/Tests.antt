-- ===== src/Notifications/Tests.antt =====
-- A webhook by name, and the read of its response.
use unifi_netwatcher.Library.Samples.{ipv4}
use unifi_netwatcher.Library.Url.{Url}
use unifi_netwatcher.Base.{
  if◌then◌else◌, length, is_empty, filter, any, all, find, Text, t, text_eq, text_in, is_space,
  drop_while, rstrip_by, strip, lower_char, upper_char, lower, upper, starts_with, has_char,
  split_once, split, Result, ok, err, value_error, ℕ, ◌≤◌, ◌≡◌, refl, false, none, some, List, [],
  ◌∷◌,
}
use unifi_netwatcher.Notifications.Ssrf.{ResolvedWebhookTarget, resolve_webhook_target, Network}
use unifi_netwatcher.Notifications.Http.{
  Arrival, read_capped_response, all_bytes, chunk, read_capped_response_lem,
}
use unifi_netwatcher.Notifications.Webhook.{send, default_body_template}
use unifi_netwatcher.Notifications.Outbound.{HttpRequest, Outbound, HttpResponse}
use unifi_netwatcher.Models.Values.{Fields, field, str, end, obj}
use unifi_netwatcher.Notifications.Schemas.{
  Pydantic, webhook_fields, parse_notification_config, raw_dict,
}
use unifi_netwatcher.Notifications.Schemas.Accepted.{
  IsWebhookConfig, parse_notification_config-IsWebhookConfig,
}

abbrev hook_url : Text
hook_url = t "https://hook.test/x"

abbrev parsed_url : Url
parsed_url = record {
  scheme = t "https";
  netloc = t "hook.test";
  hostname = some (t "hook.test");
  port = ok none;
  path = t "/x";
  query = [];
}

abbrev network : Network
network = record {
  urlparse = λ s. ok parsed_url;
  getaddrinfo = λ host port. ok (t "8.8.4.4" ∷ []);
  webhook_allowed_hosts = [];
}

abbrev target : ResolvedWebhookTarget
target = record {
  original_url = hook_url;
  hostname = t "hook.test";
  port = 443;
  connect_host = t "8.8.4.4";
  allow_private_network = false;
}

abbrev body : List ℕ
body = 7 ∷ 8 ∷ 9 ∷ []

abbrev arrivals : List Arrival
arrivals = chunk 1 (7 ∷ 8 ∷ []) ∷ chunk 2 [] ∷ chunk 3 (9 ∷ []) ∷ []

read_all : read_capped_response 4 0 10 arrivals ≡ ok body
unfolding read_capped_response unifi_netwatcher.Notifications.Http.read_chunks
read_all = refl

read_capped_response_lem_example : (body ≡ all_bytes arrivals) × (length body ≤ 4)
read_capped_response_lem_example = read_capped_response_lem 4 0 10 arrivals body read_all

abbrev answered : HttpRequest → Result HttpResponse
answered request = ok (record { status_code = 204; opened = 0; body = [] })

abbrev outbound : Outbound
outbound = record {
  stream = answered;
  json = record { loads = λ s. err value_error; dumps = λ fs. [] };
  show_json = λ v. [];
  decode_body = λ bytes. bytes;
  describe = λ e. [];
}

abbrev get_config : Fields
get_config = field (t "url") (str hook_url) (field (t "method") (str (t "get")) end)

-- A `GET` with the message as its parameter.
get_sent :
    (send ipv4 network outbound (t "Hi") get_config).1
    ≡ record {
      method = t "GET";
      url = t "https://8.8.4.4:443/x";
      params = (t "text", t "Hi") ∷ [];
      headers = (t "Host", t "hook.test") ∷ [];
      content = [];
      sni_hostname = t "hook.test";
    }
      ∷ []
unfolding send unifi_netwatcher.Models.Values.truthy unifi_netwatcher.Models.Values.get text_eq
    resolve_webhook_target lower strip ipv4 unifi_netwatcher.Notifications.Ssrf.resolve_allowed_ips
    unifi_netwatcher.Notifications.Ssrf.collect_allowed
    unifi_netwatcher.Notifications.Ssrf.address_blocked
    unifi_netwatcher.Notifications.Ssrf.is_always_blocked_ip
    unifi_netwatcher.Notifications.Ssrf.is_metadata_ip
    unifi_netwatcher.Notifications.Ssrf.is_private_lan_ip text_in
    unifi_netwatcher.Notifications.Ssrf.choose find unifi_netwatcher.Base.Decimal.scan_digits
    unifi_netwatcher.Base.Decimal.show any unifi_netwatcher.Base.filter drop_while has_char is_space
    unifi_netwatcher.Base.lower_char rstrip_by unifi_netwatcher.Base.split
    unifi_netwatcher.Base.split_once unifi_netwatcher.Base.starts_with unifi_netwatcher.Base.upper
    unifi_netwatcher.Base.upper_char unifi_netwatcher.Base.Utf8.utf8_char
    unifi_netwatcher.Base.Utf8.utf8_encode unifi_netwatcher.Models.Values.has_key
    read_capped_response unifi_netwatcher.Notifications.Http.read_chunks
    unifi_netwatcher.Notifications.Ssrf.pinned_request_url
    unifi_netwatcher.Notifications.Values.get_default
    unifi_netwatcher.Notifications.Values.replace_fields
    unifi_netwatcher.Notifications.Values.replace_from
    unifi_netwatcher.Notifications.Values.set_header unifi_netwatcher.Notifications.Values.str_of
    unifi_netwatcher.Notifications.Values.value_or
    unifi_netwatcher.Notifications.Webhook.build_payload
    unifi_netwatcher.Notifications.Webhook.header_items
    unifi_netwatcher.Notifications.Webhook.is_dropped
    unifi_netwatcher.Notifications.Webhook.load_template
    unifi_netwatcher.Notifications.Webhook.perform
    unifi_netwatcher.Notifications.Webhook.sanitize_headers
get_sent = refl

-- A `json` that reads an object in every text but the empty one.
abbrev reading : Outbound
reading = record outbound {
  json = record {
    loads = λ s. if is_empty s then err value_error else ok (obj end);
    dumps = λ fs. [];
  };
}

abbrev pydantic : Pydantic
pydantic = record { http_url = λ v. ok (t "https", hook_url); to_bool = λ v. ok false }

abbrev accepted : Fields
accepted =
    webhook_fields hook_url (t "PUT") ((t "X-Key", t "k") ∷ []) default_body_template (t "text")
      false

parsed_config :
    parse_notification_config reading.json pydantic (t "webhook") (
      raw_dict (
        field (t "url") (str hook_url) (
          field
            (t "method")
            (str (t "PUT"))
            (field (t "headers") (obj (field (t "X-Key") (str (t "k")) end)) end))))
    ≡ ok accepted
unfolding parse_notification_config unifi_netwatcher.Notifications.Schemas.config_of_type text_eq
    unifi_netwatcher.Notifications.Schemas.webhook_config
    unifi_netwatcher.Notifications.Schemas.required unifi_netwatcher.Models.Values.has_key
    unifi_netwatcher.Notifications.Schemas.https_only unifi_netwatcher.Notifications.Schemas.checked
    unifi_netwatcher.Notifications.Schemas.webhook_method
    unifi_netwatcher.Notifications.Schemas.text_of unifi_netwatcher.Notifications.Values.get_default
    unifi_netwatcher.Models.Values.get text_in unifi_netwatcher.Notifications.Schemas.text_items
    unifi_netwatcher.Notifications.Schemas.header_limits unifi_netwatcher.Base.all
    unifi_netwatcher.Notifications.Schemas.header_fits any drop_while has_char is_space rstrip_by
    strip unifi_netwatcher.Notifications.Schemas.body_template
    unifi_netwatcher.Notifications.Schemas.pushover_config
    unifi_netwatcher.Notifications.Schemas.pushover_text
    unifi_netwatcher.Notifications.Schemas.template_is_json_object
    unifi_netwatcher.Notifications.Schemas.text_up_to webhook_fields
parsed_config = refl

parse_notification_config-IsWebhookConfig_example :
    IsWebhookConfig pydantic ipv4 network reading accepted
parse_notification_config-IsWebhookConfig_example =
    parse_notification_config-IsWebhookConfig pydantic ipv4 network reading refl
      (raw_dict (
        field (t "url") (str hook_url) (
          field (t "method") (str (t "PUT"))
            (field (t "headers") (obj (field (t "X-Key") (str (t "k")) end)) end))))
      accepted parsed_config

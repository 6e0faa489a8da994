-- ===== src/Notifications/Webhook.antt =====
-- app/notifications/webhook.py: the webhook provider.
pub mod Headers
pub mod Requests
use unifi_netwatcher.Models.Values.{
  Json, Items, Fields, null, infinity, nan, bool, int, float, str, arr, obj, nil, cons, end, field,
  truthy, get,
}
use unifi_netwatcher.Notifications.Ssrf.{
  Network, ResolvedWebhookTarget, resolve_webhook_target, pinned_request_url,
}
use unifi_netwatcher.Base.{
  ltb, ◌==◌, if◌then◌else◌, length, take, filter, Text, t, text_eq, text_in, upper, has_char,
  is_value_error, is_webhook_url_error, ◌>>=◌, Result, ok, err, value_error, type_error,
  webhook_url_error, ℕ, ◌*◌, Bool, true, false, not, ◌||◌, List, [], ◌∷◌, ◌++◌,
}
use unifi_netwatcher.Notifications.Http.{Arrival, read_capped_response}
use unifi_netwatcher.Security.Secrets.{JsonText}
use unifi_netwatcher.Scanner.Alerts.{SendResult, Provider}
use unifi_netwatcher.Library.Ip.{IpLibrary}
use unifi_netwatcher.Notifications.Values.{
  str_of, replace_from, value_or, get_default, set_header, replace_fields,
}
use unifi_netwatcher.Base.Utf8.{utf8_encode}
use unifi_netwatcher.Library.Url.{Url}
use unifi_netwatcher.Notifications.Outbound.{
  HttpRequest, Outbound, HttpResponse, max_response_bytes, read_deadline_seconds,
}

abbrev pub default_body_template : Text
default_body_template = t "{\"text\": \"{{message}}\"}"

abbrev pub allowed_methods : List Text
allowed_methods = t "GET" ∷ t "POST" ∷ t "PUT" ∷ []

abbrev pub max_json_body_bytes : ℕ
max_json_body_bytes = 64 * 1024

-- A header that is dropped.
unfoldable pub is_dropped : Text × Text → Bool
is_dropped (key, value) =
    ltb 128 (length key)
    || ltb 1024 (length value)
    || has_char 13 key
    || has_char 10 key
    || has_char 13 value
    || has_char 10 value

unfoldable pub header_items : (Json → Text) → Fields → List (Text × Text)
header_items show end = []
header_items show (field k v fs) = (k, str_of show v) ∷ header_items show fs

abbrev pub fields_or_empty : Json → Fields
fields_or_empty (obj fs) = fs
fields_or_empty _ = end

-- The first twenty entries, less those that are dropped; none of what is no `dict`.
unfoldable pub sanitize_headers : (Json → Text) → Json → List (Text × Text)
sanitize_headers show headers =
    filter (λ h. not (is_dropped h)) (take 20 (header_items show (fields_or_empty headers)))

abbrev pub is_object : Json → Bool
is_object (obj fs) = true
is_object _ = false

-- `s[:64] or "text"`
abbrev param_name : Text → Text
param_name [] = t "text"
param_name (c ∷ s) = take 64 (c ∷ s)

-- The result of `send`, and the requests that it has made.
abbrev pub Sending : Type 0
Sending = Result SendResult × List HttpRequest

abbrev pub not_sent : Text → SendResult
not_sent error = record { success = false; status_code = 0; response = []; error = error }

abbrev pub refused : Text → Sending
refused error = (ok (not_sent error), [])

module _ (ip : IpLibrary) (net : Network) (out : Outbound) where
  -- `json.loads` of the template, which raises a `TypeError` for what is no text.
  unfoldable pub load_template : Fields → Result Json
  load_template config =
      elim (value_or (get config (t "body_template")) (str default_body_template)) [
        | str s ↦ out.json.loads s
        | _ ↦ err type_error
      ]

  abbrev pub allow_private_of : Fields → Bool
  allow_private_of config = truthy (get config (t "allow_private_network"))

  -- `except WebhookURLError, json.JSONDecodeError, TypeError, ValueError`
  abbrev pub invalid_or_raise : Result Bool → Result Bool
  invalid_or_raise (err webhook_url_error) = ok false
  invalid_or_raise (err type_error) = ok false
  invalid_or_raise (err value_error) = ok false
  invalid_or_raise r = r

  unfoldable pub validate_config : Fields → Result Bool
  validate_config config =
      let url = get config (t "url") in
      if not (truthy url)
      then ok false
      else invalid_or_raise (do
        target ← resolve_webhook_target ip net (str_of out.show_json url) (allow_private_of config)
        parsed ← load_template config
        ok (is_object parsed))

  abbrev replaced : Text → Json → Result Fields
  replaced message (obj fs) = ok (replace_fields message fs)
  replaced message _ = err value_error

  unfoldable pub build_payload : Text → Fields → Result Fields
  build_payload message config = do parsed ← load_template config; replaced message parsed

  abbrev is_success : ℕ → Bool
  is_success code = code == 200 || code == 201 || code == 202 || code == 204

  abbrev pub outcome : Result HttpResponse → Result SendResult
  outcome answer = do
    r ← answer
    body ← read_capped_response max_response_bytes r.opened read_deadline_seconds r.body
    ok (record {
      success = is_success r.status_code;
      status_code = r.status_code;
      response = out.decode_body body;
      error = [];
    })

  -- `except Exception` behind the two `except` clauses of the read.
  abbrev pub or_not_sent : Result SendResult → SendResult
  or_not_sent (ok r) = r
  or_not_sent (err e) = not_sent (out.describe e)

  unfoldable pub perform : HttpRequest → Sending
  perform request = (ok (or_not_sent (outcome (out.stream request))), request ∷ [])

  abbrev pub get_request : Text → Fields → Text → List (Text × Text) → Text → HttpRequest
  get_request message config url headers sni = record {
    method = t "GET";
    url = url;
    params =
        (
          param_name (str_of out.show_json (get_default config (t "query_param") (str (t "text")))),
          message,
        )
        ∷ [];
    headers = headers;
    content = [];
    sni_hostname = sni;
  }

  -- The request with a body; a broken template is caught by the inner `except`, any other exception
  -- by the outer one.
  abbrev send_body : Text → Text → List (Text × Text) → Text → Result Fields → Sending
  send_body method url headers sni (err e) = refused (
      if is_value_error e
      then t "Invalid body template JSON: " ++ out.describe e
      else out.describe e)
  send_body method url headers sni (ok payload) =
      let encoded = utf8_encode (out.json.dumps payload) in
      if ltb max_json_body_bytes (length encoded)
      then refused (t "Request body exceeds size limit")
      else perform (record {
        method = method;
        url = url;
        params = [];
        headers = set_header (t "Content-Type") (t "application/json") headers;
        content = encoded;
        sni_hostname = sni;
      })

  abbrev send_to : Text → Fields → Text → ResolvedWebhookTarget → Result Url → Sending
  send_to message config method target (err e) = (err e, [])
  send_to message config method target (ok parsed) =
      let headers =
        set_header (t "Host") target.hostname
          (sanitize_headers out.show_json (value_or (get config (t "headers")) (obj end))) in
      let url = pinned_request_url target parsed in
      if text_eq method (t "GET")
      then perform (get_request message config url headers target.hostname)
      else send_body method url headers target.hostname (build_payload message config)

  abbrev pub method_of : Fields → Text
  method_of config = upper (str_of out.show_json (get_default config (t "method") (str (t "POST"))))

  abbrev send_resolved : Text → Fields → Result ResolvedWebhookTarget → Sending
  send_resolved message config (err e) =
      if is_webhook_url_error e then refused (out.describe e) else (err e, [])
  send_resolved message config (ok target) =
      if not (text_in (method_of config) allowed_methods)
      then refused (t "Unsupported method: " ++ method_of config)
      else send_to message config (method_of config) target
          (net.urlparse (str_of out.show_json (get config (t "url"))))

  unfoldable pub send : Text → Fields → Sending
  send message config =
      let url = get config (t "url") in
      if not (truthy url)
      then refused (t "Missing webhook URL")
      else send_resolved message config
          (resolve_webhook_target ip net (str_of out.show_json url) (allow_private_of config))

  -- The provider as the scanner uses it.
  unfoldable pub webhook_provider : Provider
  webhook_provider = record {
    validate_config = λ config. validate_config config;
    send = λ message config. (send message config).0;
  }

-- ===== src/Notifications/Schemas/Accepted.antt =====
-- A webhook configuration that is accepted is sent as it stands.
use unifi_netwatcher.Base.{
  length, all, All, Text, t, text_eq, text_in, upper, bind-eq-ok, ok-injective, ok, err,
  value_error, ◌≤◌, ◌≡◌, refl, sym, ap, ◌∙◌, Bool, true, List, [], ◌∷◌, arith,
}
use unifi_netwatcher.Notifications.Ssrf.{Network}
use unifi_netwatcher.Models.Values.{Json, Fields, get, str, obj, end, truthy, has_key}
use unifi_netwatcher.Notifications.Schemas.{
  header_fits, header_limits, header_fields, webhook_method, https_only, Pydantic, body_template,
  max_template, template_is_json_object, text_up_to, webhook_fields, webhook_config,
  parse_notification_config, required, config_of_type, text_dict, RawConfig, payload_of,
}
use unifi_netwatcher.Notifications.Webhook.{
  sanitize_headers, allowed_methods, is_object, load_template, method_of,
}
use unifi_netwatcher.Notifications.Outbound.{Outbound}
use unifi_netwatcher.Notifications.Values.{value_or, str_of, get_default}
use unifi_netwatcher.Notifications.Webhook.Headers.{IsCleanHeader}
use mathlib.Core.Path.{subst}
use unifi_netwatcher.Library.Ip.{IpLibrary}
use unifi_netwatcher.Notifications.Schemas.Checks.{
  checked-ok, upper-allowed, header_limits-ok, object-is, sanitize-accepted, https_only-ok,
  All-of_all, webhook_method-ok, fits-clean,
}

module _ (out : Outbound) where
  body_template-ok :
      (v : Json) (s : Text)
      → body_template out.json v ≡ ok s
      → (fs : Fields) × (out.json.loads s ≡ ok (obj fs))
  unfolding body_template template_is_json_object
  body_template-ok v s h =
      let (x, up, read) =
        bind-eq-ok (text_up_to max_template v) (template_is_json_object out.json) h in
      let (parsed, loaded, fits) = bind-eq-ok (out.json.loads x) _ read in
      let (object, same) = checked-ok (is_object parsed) x s fits in
      let (fs, is) = object-is parsed object in
      (fs, subst (λ y. out.json.loads y ≡ ok (obj fs)) same (loaded ∙ ap ok is))

module _ (p : Pydantic) (ip : IpLibrary) (net : Network) (out : Outbound) where
  -- What a stored webhook configuration says, and how `send` reads it.
  pub record IsWebhookConfig (config : Fields) : Type 0 where
    pub address : Json
    pub url : Text
    pub https : p.http_url address ≡ ok (t "https", url)
    pub url_field : get config (t "url") ≡ str url
    pub method : text_in (method_of ip net out config) allowed_methods ≡ true
    pub method_field : get config (t "method") ≡ str (method_of ip net out config)
    pub headers : List (Text × Text)
    pub headers_field : get config (t "headers") ≡ obj (header_fields headers)
    pub headers_sent :
        sanitize_headers out.show_json (value_or (get config (t "headers")) (obj end)) ≡ headers
    pub few_headers : length headers ≤ 20
    pub clean_headers : All IsCleanHeader headers
    pub template : Fields
    pub template_read : load_template ip net out config ≡ ok (obj template)

  module _ (no_text : out.json.loads [] ≡ err value_error) where
    load_template-fields :
        (url method : Text) (headers : List (Text × Text)) (s param : Text) (allow : Bool)
        (template : Fields)
        → out.json.loads s ≡ ok (obj template)
        → load_template ip net out (webhook_fields url method headers s param allow)
          ≡ ok (obj template)
    unfolding load_template webhook_fields get text_eq value_or truthy
    load_template-fields url method headers [] param allow template h =
        absurd (ground (arith, no_text, h))
    load_template-fields url method headers (c ∷ s) param allow template h = h

    method_of-fields :
        (url method : Text) (headers : List (Text × Text)) (s param : Text) (allow : Bool)
        → method_of ip net out (webhook_fields url method headers s param allow) ≡ upper method
    unfolding webhook_fields get get_default has_key text_eq str_of
    method_of-fields url method headers s param allow = refl

    webhook_fields-Config :
        (address : Json) (url method : Text) (headers : List (Text × Text)) (s param : Text)
        (allow : Bool) (template : Fields)
        → p.http_url address ≡ ok (t "https", url)
        → text_in method allowed_methods ≡ true
        → length headers ≤ 20
        → all header_fits headers ≡ true
        → out.json.loads s ≡ ok (obj template)
        → IsWebhookConfig (webhook_fields url method headers s param allow)
    unfolding webhook_fields get text_eq
    webhook_fields-Config address url method headers s param allow template a m few fit loaded =
        let named = method_of-fields url method headers s param allow ∙ upper-allowed method m in
        record {
          address = address;
          url = url;
          https = a;
          url_field = refl;
          method = subst (λ x. text_in x allowed_methods ≡ true) (sym named) m;
          method_field = ap str (sym named);
          headers = headers;
          headers_field = refl;
          headers_sent = sanitize-accepted out.show_json headers few fit;
          few_headers = few;
          clean_headers = All-of_all header_fits headers fits-clean fit;
          template = template;
          template_read = load_template-fields url method headers s param allow template loaded;
        }

    webhook_config-Config :
        (payload config : Fields)
        → webhook_config out.json p payload ≡ ok config
        → IsWebhookConfig config
    unfolding webhook_config
    webhook_config-Config payload config h =
        let (address, _, h) = bind-eq-ok (required payload (t "url")) _ h in
        let (parsed, read, h) = bind-eq-ok (p.http_url address) _ h in
        let (url, https, h) = bind-eq-ok (https_only parsed) _ h in
        let (method, allowed, h) = bind-eq-ok (webhook_method _) _ h in
        let (all_headers, _, h) = bind-eq-ok (text_dict _) _ h in
        let (headers, limits, h) = bind-eq-ok (header_limits all_headers) _ h in
        let (template, loads, h) = bind-eq-ok (body_template out.json _) _ h in
        let (param, _, h) = bind-eq-ok (text_up_to 64 _) _ h in
        let (allow, _, h) = bind-eq-ok (p.to_bool _) _ h in
        let (few, fit) = header_limits-ok all_headers headers limits in
        let (fs, loaded) = body_template-ok out _ template loads in
        subst IsWebhookConfig (ok-injective h) (
          webhook_fields-Config address url method headers template param allow fs
            (read ∙ ap ok (https_only-ok parsed url https)) (webhook_method-ok _ method allowed) few
            fit loaded)

    -- A webhook configuration that is accepted has an HTTPS URL and an allowed method, no more than
    -- 20 headers, all within their limits and with no line break, and a template that is a JSON
    -- object; and sending reads that method, sends just those headers and reads that template. That
    -- holds where the empty text is no JSON.
    pub parse_notification_config-IsWebhookConfig :
        (raw : RawConfig) (config : Fields)
        → parse_notification_config out.json p (t "webhook") raw ≡ ok config
        → IsWebhookConfig config
    unfolding parse_notification_config config_of_type text_eq
    parse_notification_config-IsWebhookConfig raw config h =
        let (payload, _, h) = bind-eq-ok (payload_of out.json p raw) _ h in
        webhook_config-Config payload config h

-- ===== src/Notifications/Schemas.antt =====
-- app/notifications/schemas.py: what a channel's configuration may be.
pub mod Checks
pub mod Accepted
use unifi_netwatcher.Base.{
  ltb, leb, if◌then◌else◌, length, all, Text, t, text_eq, text_in, strip, has_char, ◌>>=◌, Result,
  ok, err, value_error, type_error, ℕ, Bool, false, not, ◌&&◌, ◌||◌, List, [], ◌∷◌,
}
use unifi_netwatcher.Models.Values.{
  Json, Items, Fields, null, infinity, nan, bool, int, float, str, arr, obj, nil, cons, end, field,
  has_key, get,
}
use unifi_netwatcher.Notifications.Webhook.{allowed_methods, is_object, default_body_template}
use unifi_netwatcher.Security.Secrets.{JsonText}
use unifi_netwatcher.Notifications.Values.{get_default}

-- What the library `pydantic` reads: an `HttpUrl`, as its scheme and its text, and a Boolean.
pub record Pydantic : Type 0 where
  pub http_url : Json → Result (Text × Text)
  pub to_bool : Json → Result Bool

abbrev pub max_template : ℕ
max_template = 8000

-- A field that must be there.
unfoldable pub required : Fields → Text → Result Json
required payload key = if has_key payload key then ok (get payload key) else err value_error

unfoldable pub text_of : Json → Result Text
text_of (str s) = ok s
text_of _ = err value_error

unfoldable pub checked {ℓ} : {A : Type ℓ} → Bool → A → Result A
checked fits value = if fits then ok value else err value_error

-- `dict[str, str]`
unfoldable pub text_items : Fields → Result (List (Text × Text))
text_items end = ok []
text_items (field k v rest) = do
  value ← text_of v
  others ← text_items rest
  ok ((k, value) ∷ others)

abbrev pub text_dict : Json → Result (List (Text × Text))
text_dict (obj fs) = text_items fs
text_dict _ = err value_error

-- A header that the validator takes.
unfoldable pub header_fits : Text × Text → Bool
header_fits (key, value) =
    not (ltb 128 (length key) || ltb 1024 (length value))
    && not (has_char 10 key || has_char 13 key || has_char 10 value || has_char 13 value)

unfoldable pub header_limits : List (Text × Text) → Result (List (Text × Text))
header_limits headers =
    if ltb 20 (length headers) then err value_error else checked (all header_fits headers) headers

unfoldable pub https_only : Text × Text → Result Text
https_only (scheme, url) = checked (text_eq scheme (t "https")) url

-- The text of a field with a greatest length.
unfoldable pub text_up_to : ℕ → Json → Result Text
text_up_to limit v = do s ← text_of v; checked (leb (length s) limit) s

unfoldable pub webhook_method : Json → Result Text
webhook_method v = do s ← text_of v; checked (text_in s allowed_methods) s

abbrev pub header_fields : List (Text × Text) → Fields
header_fields [] = end
header_fields ((k, v) ∷ rest) = field k (str v) (header_fields rest)

-- `model_dump(mode="json")`, less the type.
unfoldable pub webhook_fields : Text → Text → List (Text × Text) → Text → Text → Bool → Fields
webhook_fields url method headers template param allow = field (t "url") (str url) (
    field (t "method") (str method) (
      field (t "headers") (obj (header_fields headers)) (
        field (t "body_template") (str template) (
          field (t "query_param") (str param)
            (field (t "allow_private_network") (bool allow) end)))))

-- The fields of a Pushover configuration: a text is stripped before its length is checked.
unfoldable pub pushover_text : Json → Result Text
pushover_text v = do
  s ← text_of v
  checked (leb 8 (length (strip s)) && leb (length (strip s)) 128) (strip s)

unfoldable pub pushover_config : Fields → Result Fields
pushover_config payload = do
  token_value ← required payload (t "token")
  token ← pushover_text token_value
  user_value ← required payload (t "user")
  user ← pushover_text user_value
  ok (field (t "token") (str token) (field (t "user") (str user) end))

-- What `parse_notification_config` is given.
pub data RawConfig : Type 0 where
  raw_text : Text → RawConfig
  raw_dict : Fields → RawConfig

-- `{**payload}` raises a `TypeError` for what is no `dict`.
abbrev pub as_dict : Json → Result Fields
as_dict (obj fs) = ok fs
as_dict _ = err type_error

module _ (json : JsonText) where
  unfoldable pub template_is_json_object : Text → Result Text
  template_is_json_object s = do parsed ← json.loads s; checked (is_object parsed) s

  unfoldable pub body_template : Json → Result Text
  body_template v = do s ← text_up_to max_template v; template_is_json_object s

module _ (json : JsonText) (p : Pydantic) where
  -- A class of `pydantic` reports every failure of a field as a `ValidationError`, a `ValueError`.
  unfoldable pub webhook_config : Fields → Result Fields
  webhook_config payload = do
    url_value ← required payload (t "url")
    address ← p.http_url url_value
    url ← https_only address
    method ← webhook_method (get_default payload (t "method") (str (t "POST")))
    all_headers ← text_dict (get_default payload (t "headers") (obj end))
    headers ← header_limits all_headers
    template ←
        body_template json (get_default payload (t "body_template") (str default_body_template))
    param ← text_up_to 64 (get_default payload (t "query_param") (str (t "text")))
    allow ← p.to_bool (get_default payload (t "allow_private_network") (bool false))
    ok (webhook_fields url method headers template param allow)

  abbrev pub payload_of : RawConfig → Result Fields
  payload_of (raw_text s) = json.loads s >>= as_dict
  payload_of (raw_dict fs) = ok fs

  -- The type that is put into the payload is the one that the class of the branch asks for.
  unfoldable pub config_of_type : Text → Fields → Result Fields
  config_of_type channel_type payload =
      if text_eq channel_type (t "webhook")
      then webhook_config payload
      else if text_eq channel_type (t "pushover")
      then pushover_config payload
      else err value_error

  unfoldable pub parse_notification_config : Text → RawConfig → Result Fields
  parse_notification_config channel_type raw = payload_of raw >>= config_of_type channel_type

-- ===== src/Api/Channels.antt =====
-- app/api/routes_notifications.py: alert channels are made, deleted and tested.
pub mod Made
pub mod Deleted
pub mod Tested
pub mod NoObject
use unifi_netwatcher.Base.{
  ltb, ◌==◌, if◌then◌else◌, length, is_empty, filter, find, Text, t, strip, is_value_error,
  is_secret_key_error, map_ok, ◌>>=◌, Exception, Result, ok, err, ℕ, Bool, true, false, not, ◌||◌,
  Option, none, some, List, [], ◌∷◌, ◌++◌, map,
}
use unifi_netwatcher.Models.{NotificationChannel, NotificationDelivery, Db, info, warning}
use unifi_netwatcher.Models.Values.{Json, Fields, fields, null, int, obj}
use unifi_netwatcher.Scanner.Alerts.{SendResult, Provider}
use unifi_netwatcher.Security.Secrets.{JsonText, Fernet, decrypt_config, encrypt_config}
use unifi_netwatcher.Base.Decimal.{show}
use unifi_netwatcher.Notifications.Schemas.{Pydantic, parse_notification_config, raw_text}
use unifi_netwatcher.Models.Tables.{add_event}
use unifi_netwatcher.Base.Ints.{pos}

-- What a route answers: a piece of HTML with its status, or the page of the new channel.
pub data Response : Type 0 where
  html : ℕ → Text → Response
  channel_page : NotificationChannel → Bool → Response

unfoldable pub escape_char : ℕ → Text
escape_char c =
    if c == 38
    then t "&amp;"
    else if c == 60
    then t "&lt;"
    else if c == 62
    then t "&gt;"
    else if c == 34
    then t "&quot;"
    else if c == 39
    then t "&#x27;"
    else c ∷ []

unfoldable pub escape : Text → Text
escape [] = []
escape (c ∷ s) = escape_char c ++ escape s

unfoldable pub error_html : Text → ℕ → Response
error_html message status_code =
    html status_code (t "<span class='text-red-500'>" ++ escape message ++ t "</span>")

-- `db.query(NotificationChannel).filter(NotificationChannel.id == channel_id).first()`
unfoldable pub find_channel : ℕ → List NotificationChannel → Option NotificationChannel
unfolding find
find_channel i channels = find (λ c. c.id == i) channels

abbrev pub channel_ids : List NotificationChannel → List ℕ
channel_ids channels = map (λ c. c.id) channels

abbrev pub is_to : ℕ → Option ℕ → Bool
is_to i none = false
is_to i (some j) = j == i

-- `db.delete(channel)`, which takes the channel's deliveries along.
unfoldable pub remove_channel : ℕ → Db → Db
unfolding filter
remove_channel i db = record db {
  channels = filter (λ (c : NotificationChannel). not (c.id == i)) db.channels;
  deliveries = filter (λ (x : NotificationDelivery). not (is_to i x.channel_id)) db.deliveries;
}

abbrev pub name_fits : Text → Bool
name_fits name = not (is_empty name || ltb 128 (length name))

-- `err or sc`
abbrev pub error_or_status : SendResult → Text
error_or_status r = if is_empty r.error then show r.status_code else r.error

abbrev refusal : Text → Db → Result (Response × Db)
refusal message db = ok (error_html message 400, db)

-- `f` is the key of the application, which the start of the program has loaded; `fresh` gives the key
-- of a new row, and `at` is the time.
module _ (fresh : List ℕ → ℕ) (json : JsonText) (p : Pydantic) (f : Fernet)
    (provider : Text → Option Provider) (at : ℕ) where
  unfoldable pub load_channel_config : NotificationChannel → Result Fields
  load_channel_config channel = decrypt_config json f channel.config_json

  -- The row as the flush leaves it.
  unfoldable pub new_channel : Text → Text → Fields → List NotificationChannel → NotificationChannel
  new_channel name type config channels = record {
    id = fresh (channel_ids channels);
    type = type;
    name = name;
    enabled = true;
    config_json = encrypt_config json f config;
    created_at = at;
    updated_at = at;
  }

  unfoldable pub store_new : Text → Text → Fields → Db → Response × Db
  store_new name type config db =
      let channel = new_channel name type config db.channels in
      (
        channel_page channel (is_empty db.channels),
        add_event fresh at none (t "notification_created") info
            (t "Created alert channel: " ++ name ++ t " (" ++ type ++ t ")") null
            (record db { channels = db.channels ++ channel ∷ [] }),
      )

  -- What the provider says of the configuration.
  abbrev create_valid : Text → Text → Fields → Db → Result Bool → Result (Response × Db)
  create_valid name type config db (err e) = err e
  create_valid name type config db (ok valid) =
      if not valid
      then refusal (t "Channel configuration failed provider validation") db
      else ok (store_new name type config db)

  -- `except (ValidationError, ValueError)`
  abbrev create_parsed : Text → Text → Provider → Db → Result Fields → Result (Response × Db)
  create_parsed name type provider db (err e) =
      if is_value_error e then refusal (t "Invalid channel configuration") db else err e
  create_parsed name type provider db (ok config) =
      create_valid name type config db (provider.validate_config config)

  abbrev create_with : Text → Text → Text → Db → Option Provider → Result (Response × Db)
  create_with name type config_json db none = refusal (t "Invalid provider type") db
  create_with name type config_json db (some found) =
      create_parsed name type found db
        (parse_notification_config json p type (raw_text config_json))

  unfoldable pub create_channel : Text → Text → Text → Db → Result (Response × Db)
  create_channel name type config_json db =
      if not (name_fits (strip name))
      then refusal (t "Channel name must be 1–128 characters") db
      else create_with (strip name) type config_json db (provider type)

  abbrev pub delete_found : ℕ → Db → Option NotificationChannel → Response × Db
  delete_found channel_id db none = (html 200 [], db)
  delete_found channel_id db (some channel) = (
    html 200 [],
    remove_channel channel_id (
        add_event fresh at none (t "notification_deleted") info
          (t "Deleted alert channel: " ++ channel.name) null db),
  )

  unfoldable pub delete_channel : ℕ → Db → Response × Db
  delete_channel channel_id db = delete_found channel_id db (find_channel channel_id db.channels)

  unfoldable pub test_page : SendResult → Response
  test_page r =
      if r.success
      then html 200 (t "<span class='text-secondary text-xs font-bold'>Test OK!</span>")
      else html 200 (
          t "<span class='text-error text-xs font-bold'>Failed: "
          ++ escape (error_or_status r)
          ++ t "</span>")

  unfoldable pub record_test : NotificationChannel → SendResult → Db → Db
  record_test channel r db =
      add_event fresh at none (t "notification_test") (if r.success then info else warning)
        (t "Test alert for channel "
          ++ channel.name
          ++ t ": "
          ++ (if r.success then t "OK" else error_or_status r))
        (obj (
          fields (
            (t "channel_id", int (pos channel.id))
            ∷ (t "status_code", int (pos r.status_code))
            ∷ [])))
        db

  abbrev pub is_unreadable : Exception → Bool
  is_unreadable e = is_secret_key_error e || is_value_error e

  abbrev test_valid : NotificationChannel → Provider → Fields → Db → Bool → Result (Response × Db)
  test_valid channel provider config db false =
      refusal (t "Stored channel config failed validation") db
  test_valid channel provider config db true =
      map_ok (λ r. (test_page r, record_test channel r db))
        (provider.send (t "NetWatcher Test Message!") config)

  abbrev test_loaded : NotificationChannel → Provider → Db → Result Fields → Result (Response × Db)
  test_loaded channel provider db (err e) =
      if is_unreadable e
      then refusal (t "Stored channel config is invalid or the encryption key has changed") db
      else err e
  test_loaded channel provider db (ok config) =
      provider.validate_config config >>= test_valid channel provider config db

  abbrev test_with : NotificationChannel → Db → Option Provider → Result (Response × Db)
  test_with channel db none = refusal (t "Unknown provider") db
  test_with channel db (some found) = test_loaded channel found db (load_channel_config channel)

  abbrev pub test_found : Db → Option NotificationChannel → Result (Response × Db)
  test_found db none = ok (html 404 (t "Not found"), db)
  test_found db (some channel) = test_with channel db (provider channel.type)

  unfoldable pub test_channel : ℕ → Db → Result (Response × Db)
  test_channel channel_id db = test_found db (find_channel channel_id db.channels)

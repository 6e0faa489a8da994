-- ===== src/Api/Tests/Channels.antt =====
-- Runs of the routes on channels.
use unifi_netwatcher.Base.{
  if◌then◌else◌, Text, t, text_eq, strip, starts_with, map_ok, ok-injective, ok, err, value_error,
  ◌≡◌, refl, sym, ◌∙◌, ◌⊎◌, false, Option, none, some, [], reverse, arith,
}
use unifi_netwatcher.Models.{Db, empty_db, NotificationChannel}
use unifi_netwatcher.Models.Values.{Fields, str, arr, obj, nil, end, field}
use unifi_netwatcher.Api.Channels.Made.{IsMade, IsRefused, create_channel-Outcome}
use unifi_netwatcher.Notifications.Schemas.{Pydantic, parse_notification_config, raw_text}
use unifi_netwatcher.Security.Secrets.{JsonText, Fernet}
use unifi_netwatcher.Notifications.Pushover.{FormClient, pushover_provider}
use unifi_netwatcher.Scanner.Alerts.{Provider}
use unifi_netwatcher.Api.Channels.{
  create_channel, Response, store_new, new_channel, test_channel, find_channel, test_page,
  delete_channel, record_test,
}
use unifi_netwatcher.Library.Keys.{next_key}
use unifi_netwatcher.Security.Secrets.Migration.{Reliable}
use mathlib.Core.Path.{subst}
use unifi_netwatcher.Api.Channels.Tested.{test_channel-created}
use unifi_netwatcher.Api.Channels.Deleted.{IsDeleted, delete_channel-IsDeleted}

abbrev config : Fields
config = field (t "token") (str (t "12345678")) (field (t "user") (str (t "abcdefgh")) end)

-- A `json` that knows one configuration, and reads a list in `[]`.
abbrev json : JsonText
json = record {
  dumps = λ fs. t "{}";
  loads = λ s. if text_eq s (t "[]") then ok (arr nil) else ok (obj config);
}

abbrev pydantic : Pydantic
pydantic = record { http_url = λ v. err value_error; to_bool = λ v. ok false }

abbrev key : Fernet
key = record { encrypt = λ s. reverse s; decrypt = λ s. some (reverse s) }

abbrev client : FormClient
client = record { post = λ url form. ok (200, t "ok"); describe = λ e. [] }

abbrev provider : Text → Option Provider
provider type = some (pushover_provider client)

accepted : parse_notification_config json pydantic (t "pushover") (raw_text (t "{}")) ≡ ok config
unfolding parse_notification_config text_eq unifi_netwatcher.Notifications.Schemas.config_of_type
    unifi_netwatcher.Notifications.Schemas.pushover_config
    unifi_netwatcher.Notifications.Schemas.required unifi_netwatcher.Models.Values.has_key
    unifi_netwatcher.Notifications.Schemas.pushover_text
    unifi_netwatcher.Notifications.Schemas.text_of unifi_netwatcher.Models.Values.get
    unifi_netwatcher.Notifications.Schemas.checked unifi_netwatcher.Base.strip
accepted = refl

accepted-Reliable :
    (c : Fields)
    → parse_notification_config json pydantic (t "pushover") (raw_text (t "{}")) ≡ ok c
    → Reliable json key c
unfolding unifi_netwatcher.Security.Secrets.is_ascii text_eq
accepted-Reliable c h =
    subst (Reliable json key) (ok-injective (sym accepted ∙ h))
      (record { decrypts = refl; ascii = refl; round_trip = refl })

abbrev made_db : Response × Db
made_db = store_new next_key json pydantic key provider 5 (t "home") (t "pushover") config empty_db

created :
    create_channel next_key json pydantic key provider 5
      (t " home ")
      (t "pushover")
      (t "{}")
      empty_db
    ≡ ok made_db
unfolding create_channel unifi_netwatcher.Base.strip parse_notification_config text_eq
    unifi_netwatcher.Notifications.Schemas.config_of_type
    unifi_netwatcher.Notifications.Schemas.pushover_config
    unifi_netwatcher.Notifications.Schemas.required unifi_netwatcher.Models.Values.has_key
    unifi_netwatcher.Notifications.Schemas.pushover_text
    unifi_netwatcher.Notifications.Schemas.text_of unifi_netwatcher.Models.Values.get
    unifi_netwatcher.Notifications.Schemas.checked pushover_provider
    unifi_netwatcher.Notifications.Pushover.validate_config
created = refl

create_channel-Outcome_example :
    (IsRefused made_db.0 × (made_db.1 ≡ empty_db))
    ⊎ IsMade next_key json pydantic key provider 5
        (t " home ")
        (t "pushover")
        (t "{}")
        empty_db
        made_db.0
        made_db.1
create_channel-Outcome_example =
    create_channel-Outcome next_key json pydantic key provider 5 (t " home ") (t "pushover")
      (t "{}") empty_db accepted-Reliable made_db.0 made_db.1 created

-- The channel that was made.
made :
    IsMade next_key json pydantic key provider 5
      (t " home ")
      (t "pushover")
      (t "{}")
      empty_db
      made_db.0
      made_db.1
unfolding store_new new_channel strip pushover_provider
    unifi_netwatcher.Notifications.Pushover.validate_config unifi_netwatcher.Models.Values.has_key
    text_eq unifi_netwatcher.Security.Secrets.is_encrypted_config
    unifi_netwatcher.Security.Secrets.encrypt_config unifi_netwatcher.Base.starts_with
    unifi_netwatcher.Api.Channels.load_channel_config
    unifi_netwatcher.Security.Secrets.decrypt_config unifi_netwatcher.Security.Secrets.is_ascii
made = record {
  channel = new_channel next_key json pydantic key provider 5 (t "home") (t "pushover") config [];
  shown = refl;
  key = refl;
  named = refl;
  name_bounds = (omega arith, omega arith);
  typed = refl;
  enabled = refl;
  found = pushover_provider client;
  known = refl;
  config = config;
  parsed = accepted;
  valid = refl;
  encrypted = refl;
  loads = refl;
  stored = refl;
}

test_channel-created_example :
    test_channel next_key json pydantic key provider 5 1 made_db.1
    ≡ map_ok
        (λ r. (
          test_page next_key json pydantic key provider 5 r,
          record_test next_key json pydantic key provider 5 made.channel r made_db.1,
        ))
        (made.found.send (t "NetWatcher Test Message!") made.config)
unfolding made
test_channel-created_example =
    test_channel-created next_key json pydantic key provider 5 (t " home ") (t "pushover") (t "{}")
      empty_db made_db.0 made_db.1 made tt

delete_channel-IsDeleted_example :
    ((find_channel 1 made_db.1.channels ≡ none)
      × ((delete_channel next_key json pydantic key provider 6 1 made_db.1).1 ≡ made_db.1))
    ⊎ ((c : NotificationChannel) × IsDeleted next_key 6 1 made_db.1 c
          (delete_channel next_key json pydantic key provider 6 1 made_db.1).1)
delete_channel-IsDeleted_example =
    delete_channel-IsDeleted next_key json pydantic key provider 6 1 made_db.1

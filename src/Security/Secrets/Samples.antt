-- ===== src/Security/Secrets/Samples.antt =====
-- A key and a configuration for the tests.
use unifi_netwatcher.Base.{t, ok, refl, true, some, reverse}
use unifi_netwatcher.Security.Secrets.Migration.{Reliable}
use unifi_netwatcher.Security.Secrets.{Fernet, JsonText}
use unifi_netwatcher.Models.Values.{Fields, field, obj, str, end}
use unifi_netwatcher.Models.{NotificationChannel}

-- A key that turns a text round, and a `json` that knows one configuration.
abbrev pub key : Fernet
key = record { encrypt = λ s. reverse s; decrypt = λ s. some (reverse s) }

abbrev pub config : Fields
config = field (t "token") (str (t "s")) end

abbrev pub json : JsonText
json = record { dumps = λ fs. t "{token:s}"; loads = λ s. ok (obj config) }

abbrev pub channel : NotificationChannel
channel = record {
  id = 1;
  type = t "gotify";
  name = t "home";
  enabled = true;
  config_json = obj config;
  created_at = 1;
  updated_at = 1;
}

pub key-Reliable : Reliable json key config
unfolding unifi_netwatcher.Security.Secrets.is_ascii
key-Reliable = record { decrypts = refl; ascii = refl; round_trip = refl }

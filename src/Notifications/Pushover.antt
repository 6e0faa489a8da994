-- ===== src/Notifications/Pushover.antt =====
-- app/notifications/pushover.py: the Pushover provider.
use unifi_netwatcher.Base.{◌==◌, Text, t, Exception, Result, ok, err, ℕ, Bool, false, ◌&&◌, []}
use unifi_netwatcher.Models.Values.{Json, Fields, has_key, get, int}
use unifi_netwatcher.Scanner.Alerts.{SendResult, Provider}
use unifi_netwatcher.Notifications.Values.{get_default}
use unifi_netwatcher.Base.Ints.{pos}

abbrev pub pushover_url : Text
pushover_url = t "https://api.pushover.net/1/messages.json"

-- The form, a value of which may be any value of the configuration.
pub record PushoverForm : Type 0 where
  pub token : Json
  pub user : Json
  pub message : Text
  pub title : Text
  pub priority : Json

-- What comes back, with its text, or the exception of the client.
pub record FormClient : Type 0 where
  pub post : Text → PushoverForm → Result (ℕ × Text)
  pub describe : Exception → Text

unfoldable pub validate_config : Fields → Bool
validate_config config = has_key config (t "token") && has_key config (t "user")

unfoldable pub payload : Text → Fields → PushoverForm
payload message config = record {
  token = get config (t "token");
  user = get config (t "user");
  message = message;
  title = t "NetWatcher Alert";
  priority = get_default config (t "priority") (int (pos 0));
}

module _ (client : FormClient) where
  abbrev sent_or_failed : Result (ℕ × Text) → SendResult
  sent_or_failed (err e) = record {
    success = false;
    status_code = 0;
    response = [];
    error = client.describe e;
  }
  sent_or_failed (ok (code, text)) = record {
    success = code == 200;
    status_code = code;
    response = text;
    error = [];
  }

  unfoldable pub send : Text → Fields → SendResult
  send message config = sent_or_failed (client.post pushover_url (payload message config))

  unfoldable pub pushover_provider : Provider
  pushover_provider = record {
    validate_config = λ config. ok (validate_config config);
    send = λ message config. ok (send message config);
  }

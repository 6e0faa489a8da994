-- ===== src/Notifications/Outbound.antt =====
-- app/notifications/http.py: the HTTP client of the providers, and the limits of what it reads.
use unifi_netwatcher.Base.{Text, Exception, Result, ℕ, ◌*◌, List}
use unifi_netwatcher.Notifications.Http.{Arrival}
use unifi_netwatcher.Security.Secrets.{JsonText}
use unifi_netwatcher.Models.Values.{Json}

pub record HttpRequest : Type 0 where
  pub method : Text
  pub url : Text
  pub params : List (Text × Text)
  pub headers : List (Text × Text)
  pub content : List ℕ
  pub sni_hostname : Text

-- A response: its status, and its body as it arrives behind the time `opened`.
pub record HttpResponse : Type 0 where
  pub status_code : ℕ
  pub opened : ℕ
  pub body : List Arrival

-- The HTTP client, `json`, `str` of a value that is no text, the decoding of a body with replacement
-- characters, and the text of an exception.
pub record Outbound : Type 0 where
  pub stream : HttpRequest → Result HttpResponse
  pub json : JsonText
  pub show_json : Json → Text
  pub decode_body : List ℕ → Text
  pub describe : Exception → Text

abbrev pub max_response_bytes : ℕ
max_response_bytes = 64 * 1024

abbrev pub read_deadline_seconds : ℕ
read_deadline_seconds = 10

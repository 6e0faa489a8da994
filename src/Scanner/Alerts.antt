-- ===== src/Scanner/Alerts.antt =====
-- app/scanner.py: which unknown devices are alerted, and the delivery of the alerts.
-- A `Provider` is what app/notifications/base.py declares.
use unifi_netwatcher.Base.{
  ltb, leb, ◌==◌, if◌then◌else◌, length, take, is_empty, filter, any, Text, t, text_eq, concat,
  ◌>>=◌, Exception, Result, ok, err, value_error, ℕ, suc, ◌+◌, Bool, false, ◌&&◌, ◌||◌, Option,
  none, some, List, [], ◌∷◌, ◌++◌, map,
}
use unifi_netwatcher.Base.Decimal.{show}
use unifi_netwatcher.Models.{Device, info, Event, NotificationChannel, NotificationDelivery, Db}
use unifi_netwatcher.Models.Values.{Fields, null}
use unifi_netwatcher.Models.Tables.{find_device, add_event, event_ids}

pub record SendResult : Type 0 where
  pub success : Bool
  pub status_code : ℕ
  pub response : Text
  pub error : Text

pub record Provider : Type 0 where
  pub validate_config : Fields → Result Bool
  pub send : Text → Fields → Result SendResult

pub record AlertIntent : Type 0 where
  pub device_id : ℕ
  pub mac : Text
  pub message : Text

-- `x or 'N/A'`
unfoldable pub or_na : Option Text → Text
or_na (some (c ∷ s)) = c ∷ s
or_na _ = t "N/A"

unfoldable pub alert_message : Device → Text
alert_message d = concat (
    t "Unknown device detected!\n"
    ∷ t "MAC: "
    ∷ d.mac
    ∷ t "\n"
    ∷ t "IP: "
    ∷ or_na d.ip
    ∷ t "\n"
    ∷ t "Name: "
    ∷ or_na d.hostname
    ∷ t "\n"
    ∷ t "Vendor: "
    ∷ or_na d.vendor
    ∷ [])

abbrev pub elem : ℕ → List ℕ → Bool
elem i ids = any (λ j. i == j) ids

-- The keys of the devices among `ids` with an alert sent in the last `cooldown`: `created_at >= now
-- - cooldown`, without the subtraction.
abbrev pub is_recent_alert : ℕ → ℕ → Event → Bool
is_recent_alert cooldown now e =
    text_eq e.event_type (t "alert_sent") && leb now (e.created_at + cooldown)

abbrev device_key : Event → List ℕ
device_key e = elim e.device_id [ none ↦ [] | some i ↦ i ∷ [] ]

unfoldable pub recent_alert_ids : ℕ → ℕ → List Event → List ℕ
recent_alert_ids cooldown now [] = []
recent_alert_ids cooldown now (e ∷ es) =
    let rest = recent_alert_ids cooldown now es in
    if is_recent_alert cooldown now e then device_key e ++ rest else rest

unfoldable pub devices_in_alert_cooldown : ℕ → ℕ → Db → List ℕ → List ℕ
devices_in_alert_cooldown cooldown now db ids =
    filter (λ i. elem i ids) (recent_alert_ids cooldown now db.events)

unfoldable pub intent_of : Device → AlertIntent
intent_of d = record { device_id = d.id; mac = d.mac; message = alert_message d }

abbrev pub intent_if : Option Device → List AlertIntent → List AlertIntent
intent_if none rest = rest
intent_if (some d) rest = intent_of d ∷ rest

-- `cooling` is `cooldown_ids`; a candidate is a loaded device, given by its key.
unfoldable pub collect_intents : List Device → List ℕ → List ℕ → List AlertIntent
collect_intents devices cooling [] = []
collect_intents devices cooling (i ∷ ids) =
    let skip = collect_intents devices cooling ids in
    let take = intent_if (find_device i devices) (collect_intents devices (i ∷ cooling) ids) in
    if elem i cooling then skip else take

-- What the delivery takes from outside: the keys of new rows, `PROVIDERS`, `load_channel_config`,
-- and the text of an exception.
pub record Outside : Type 0 where
  pub fresh : List ℕ → ℕ
  pub provider : Text → Option Provider
  pub load_config : NotificationChannel → Result Fields
  pub describe : Exception → Text

pub record Attempt : Type 0 where
  pub sent : Bool
  pub status : Option ℕ
  pub body : Option Text
  pub failure : Text

-- `response[:250] if response else None`
unfoldable pub clip : Text → Option Text
clip [] = none
clip (c ∷ s) = some (take 250 (c ∷ s))

module _ (o : Outside) where
  -- The body of the `try`: every way to raise ends in its `except Exception`.
  unfoldable pub try_send : Provider → Text → NotificationChannel → Result SendResult
  try_send p message channel = do
    config ← o.load_config channel
    valid ← p.validate_config config
    if valid then p.send message config else err value_error

  abbrev attempt_of : Result SendResult → Attempt
  attempt_of (ok r) = record {
    sent = r.success;
    status = some r.status_code;
    body = clip r.response;
    failure = r.error;
  }
  attempt_of (err e) = record { sent = false; status = some 0; body = none; failure = o.describe e }

  abbrev attempt_with : Option Provider → Text → NotificationChannel → Attempt
  attempt_with none message channel = record {
    sent = false;
    status = none;
    body = none;
    failure = t "Unknown provider type: " ++ channel.type;
  }
  attempt_with (some p) message channel = attempt_of (try_send p message channel)

  unfoldable pub attempt : Text → NotificationChannel → Attempt
  attempt message channel = attempt_with (o.provider channel.type) message channel

  unfoldable pub new_delivery :
      ℕ → ℕ → NotificationChannel → Attempt → List NotificationDelivery → NotificationDelivery
  new_delivery at event_id channel a deliveries = record {
    id = o.fresh (map (λ (d : NotificationDelivery). d.id) deliveries);
    event_id = some event_id;
    channel_id = some channel.id;
    success = a.sent;
    status_code = a.status;
    response = a.body;
    error = some a.failure;
    created_at = at;
  }

  unfoldable pub add_delivery : ℕ → ℕ → NotificationChannel → Attempt → Db → Db
  add_delivery at event_id channel a db = record db {
    deliveries = db.deliveries ++ new_delivery at event_id channel a db.deliveries ∷ [];
  }

  -- The loop over the channels; the number is `sent_count`.
  unfoldable pub deliver_channels : ℕ → ℕ → Text → List NotificationChannel → ℕ → Db → ℕ × Db
  deliver_channels at event_id message [] sent db = (sent, db)
  deliver_channels at event_id message (c ∷ cs) sent db =
      let a = attempt message c in
      deliver_channels at event_id message cs (if a.sent then suc sent else sent)
        (add_delivery at event_id c a db)

  unfoldable pub close_intent : ℕ → AlertIntent → ℕ → Db → Db
  close_intent at intent sent db =
      if ltb 0 sent
      then add_event o.fresh at (some intent.device_id) (t "alert_sent") info
          (t "Sent " ++ (show sent ++ t " alerts")) null db
      else add_event o.fresh at (some intent.device_id) (t "alert_failed") info
          (t "All alerts failed") null db

  unfoldable pub deliver_intent : ℕ → List NotificationChannel → AlertIntent → Db → Db
  deliver_intent at channels intent db =
      let queued =
        add_event o.fresh at (some intent.device_id) (t "alert_queued") info
          (t "Queued alerts for " ++ (show (length channels) ++ t " channels")) null db in
      let (sent, db') =
        deliver_channels at (o.fresh (event_ids db.events)) intent.message channels 0 queued in
      close_intent at intent sent db'

  unfoldable pub deliver_each :
      (AlertIntent → ℕ) → List NotificationChannel → List AlertIntent → Db → Db
  deliver_each at channels [] db = db
  deliver_each at channels (i ∷ is) db =
      deliver_each at channels is (deliver_intent (at i) channels i db)

  -- `at` is the time at which the rows of an alert are written.
  unfoldable pub deliver_queued_alerts : (AlertIntent → ℕ) → List AlertIntent → Db → Db
  deliver_queued_alerts at intents db =
      let channels = filter (λ (c : NotificationChannel). c.enabled) db.channels in
      if is_empty intents || is_empty channels then db else deliver_each at channels intents db

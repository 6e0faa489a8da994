-- ===== src/Scanner/Deliveries.antt =====
-- What the delivery of alerts records, and what it leaves alone.
use unifi_netwatcher.Base.{
  ltb, if◌then◌else◌, Bool-cases, length, filter, All, Text, t, ℕ, suc, ◌+◌, ◌≡◌, refl, sym, ap,
  ◌∙◌, inl, inr, some, List, [], ◌∷◌, ◌++◌, map, arith,
}
use mathlib.Core.List.{append-nil, append_assoc}
use unifi_netwatcher.Models.{NotificationChannel, NotificationDelivery, Db, Event, info}
use unifi_netwatcher.Scanner.Alerts.{
  Outside, attempt, add_delivery, deliver_channels, AlertIntent, close_intent, deliver_intent,
  new_delivery,
}
use unifi_netwatcher.Models.Tables.{add_event, event_ids, new_event}
use unifi_netwatcher.Base.Decimal.{show}
use unifi_netwatcher.Models.Values.{null}

-- The channels that took the alert.
abbrev pub takers : Outside → Text → List NotificationChannel → List NotificationChannel
takers o message channels = filter (λ c. (attempt o message c).sent) channels

module _ (o : Outside) where
  -- The rows that the loop over the channels adds, and its count.
  pub record Tried (event_id : ℕ) (message : Text) (channels : List NotificationChannel) (sent : ℕ)
      (db : Db) (r : ℕ × Db) : Type 0 where
    pub rows : List NotificationDelivery
    pub deliveries : r.1.deliveries ≡ db.deliveries ++ rows
    pub to : map (λ d. d.channel_id) rows ≡ map (λ c. some c.id) channels
    pub success : map (λ d. d.success) rows ≡ map (λ c. (attempt o message c).sent) channels
    pub of_event : All (λ d. d.event_id ≡ some event_id) rows
    pub count : r.0 ≡ sent + length (takers o message channels)
    pub events : r.1.events ≡ db.events
    pub devices : r.1.devices ≡ db.devices

  deliver_channels-Tried :
      (at event_id : ℕ) (message : Text) (channels : List NotificationChannel) (sent : ℕ) (db : Db)
      → Tried event_id message channels sent db
          (deliver_channels o at event_id message channels sent db)
  unfolding deliver_channels filter add_delivery new_delivery
  deliver_channels-Tried at event_id message [] sent db = record {
    rows = [];
    deliveries = sym (append-nil _);
    to = refl;
    success = refl;
    of_event = tt;
    count = omega arith;
    events = refl;
    devices = refl;
  }
  deliver_channels-Tried at event_id message (c ∷ cs) sent db =
      let a = attempt o message c in
      let row = new_delivery o at event_id c a db.deliveries in
      let db' = add_delivery o at event_id c a db in
      let r =
        deliver_channels-Tried at event_id message cs (if a.sent then suc sent else sent) db' in
      record {
        rows = row ∷ r.rows;
        deliveries = r.deliveries ∙ append_assoc db.deliveries (row ∷ []) r.rows;
        to = ap (λ l. some c.id ∷ l) r.to;
        success = ap (λ l. a.sent ∷ l) r.success;
        of_event = (refl, r.of_event);
        count = ground (arith, r.count);
        events = r.events;
        devices = r.devices;
      }

  -- What one alert adds: an event that queues it, a delivery for each channel, and a last event that
  -- says whether some channel took it.
  pub record Delivered (at : ℕ) (channels : List NotificationChannel) (i : AlertIntent)
      (db db' : Db) : Type 0 where
    pub queued : Event
    pub closing : Event
    pub rows : List NotificationDelivery
    pub events : db'.events ≡ db.events ++ queued ∷ closing ∷ []
    pub queued_type : queued.event_type ≡ t "alert_queued"
    pub closing_type : closing.event_type ≡ (
        if ltb 0 (length (takers o i.message channels)) then t "alert_sent" else t "alert_failed")
    pub closing_device : closing.device_id ≡ some i.device_id
    pub closing_time : closing.created_at ≡ at
    pub deliveries : db'.deliveries ≡ db.deliveries ++ rows
    pub to : map (λ d. d.channel_id) rows ≡ map (λ c. some c.id) channels
    pub success : map (λ d. d.success) rows ≡ map (λ c. (attempt o i.message c).sent) channels
    pub of_event : All (λ d. d.event_id ≡ some queued.id) rows
    pub devices : db'.devices ≡ db.devices

  -- The last event of an alert.
  record Closed (at : ℕ) (i : AlertIntent) (sent : ℕ) (db db' : Db) : Type 0 where
    event : Event
    events : db'.events ≡ db.events ++ event ∷ []
    type : event.event_type ≡ (if ltb 0 sent then t "alert_sent" else t "alert_failed")
    device : event.device_id ≡ some i.device_id
    time : event.created_at ≡ at
    deliveries : db'.deliveries ≡ db.deliveries
    devices : db'.devices ≡ db.devices

  close_intent-Closed :
      (at : ℕ) (i : AlertIntent) (sent : ℕ) (db : Db)
      → Closed at i sent db (close_intent o at i sent db)
  unfolding close_intent add_event new_event
  close_intent-Closed at i sent db = elim (Bool-cases (ltb 0 sent)) [
    | inl e ↦ rw e (record {
      event =
          new_event o.fresh at (some i.device_id) (t "alert_sent") info
            (t "Sent " ++ (show sent ++ t " alerts")) null db.events;
      events = refl;
      type = rw e;
      device = refl;
      time = refl;
      deliveries = refl;
      devices = refl;
    })
    | inr e ↦ rw e (record {
      event =
          new_event o.fresh at (some i.device_id) (t "alert_failed") info (t "All alerts failed")
            null db.events;
      events = refl;
      type = rw e;
      device = refl;
      time = refl;
      deliveries = refl;
      devices = refl;
    })
  ]

  -- The delivery of one alert adds two events and nothing else to the events: that it is queued, and
  -- then, for its device, that it is sent if some channel took it, and that it failed if none did. It
  -- adds one delivery for each channel, in their order, of the first event and with the success of
  -- that channel, and leaves the devices as they are.
  pub deliver_intent-Delivered :
      (at : ℕ) (channels : List NotificationChannel) (i : AlertIntent) (db : Db)
      → Delivered at channels i db (deliver_intent o at channels i db)
  unfolding deliver_intent add_event new_event
  deliver_intent-Delivered at channels i db =
      let message = t "Queued alerts for " ++ (show (length channels) ++ t " channels") in
      let queued =
        new_event o.fresh at (some i.device_id) (t "alert_queued") info message null db.events in
      let db1 = record db { events = db.events ++ queued ∷ [] } in
      let id = o.fresh (event_ids db.events) in
      let step = deliver_channels o at id i.message channels 0 db1 in
      let r = deliver_channels-Tried at id i.message channels 0 db1 in
      let c = close_intent-Closed at i step.0 step.1 in
      record {
        queued = queued;
        closing = c.event;
        rows = r.rows;
        events =
            c.events
            ∙ ap (λ l. l ++ c.event ∷ []) r.events
            ∙ append_assoc db.events (queued ∷ []) (c.event ∷ []);
        queued_type = refl;
        closing_type =
            c.type
            ∙ ap (λ n. if ltb 0 n then t "alert_sent" else t "alert_failed")
                (r.count ∙ omega arith);
        closing_device = c.device;
        closing_time = c.time;
        deliveries = c.deliveries ∙ r.deliveries;
        to = r.to;
        success = r.success;
        of_event = r.of_event;
        devices = c.devices ∙ r.devices;
      }

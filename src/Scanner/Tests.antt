-- ===== src/Scanner/Tests.antt =====
-- Scans of one client that is a known, still unknown device.
use unifi_netwatcher.Models.{Db, Device, NotificationChannel, unknown, empty_db}
use unifi_netwatcher.Models.Values.{obj, end, null}
use unifi_netwatcher.Scanner.Telemetry.{StaClient, keep}
use unifi_netwatcher.Scanner.Run.{intents_of, ScanInput, Scanner, run_scan, finish_scan, first_pass}
use unifi_netwatcher.Base.{
  length, filter, any, find, dict_get, In, t, text_eq, text_in, is_space, drop_while, rstrip_by,
  strip, lower_char, lower, join, concat, Result, ok, err, ◌<◌, ◌≡◌, refl, ◌↔◌, inl, true, false,
  none, some, [], ◌∷◌, arith,
}
use unifi_netwatcher.Scanner.Alerts.{Provider, Outside, AlertIntent, deliver_intent, intent_of}
use unifi_netwatcher.Scanner.Kept.{Keeps}
use unifi_netwatcher.Scanner.Upsert.{Pass}
use unifi_netwatcher.Scanner.Selection.{intent_ids, intents_of_iff}
use unifi_netwatcher.Scanner.Cooldown.{IsAlerted}
use unifi_netwatcher.Scanner.Deliveries.{Delivered, takers, deliver_intent-Delivered}
use unifi_netwatcher.Models.Tables.{find_device}
use unifi_netwatcher.Scanner.Outcome.{run_scan-Keeps, alert_cooldown, enabled_channels}
use unifi_netwatcher.Scanner.Growth.{Extends-refl}
use unifi_netwatcher.Library.Keys.{next_key, next_key-new}

abbrev device : Device
device = record {
  id = 4;
  mac = t "aa:bb:cc:00:11:2f";
  hostname = none;
  display_name = some (t "lamp");
  ip = none;
  vendor = none;
  status = unknown;
  first_seen_at = some 1;
  last_seen_at = none;
  last_site = none;
  last_ssid = none;
  last_ap_mac = none;
  name = none;
  is_wired = none;
  radio_proto = none;
  channel = none;
  rssi = none;
  satisfaction = none;
  tx_rate_bps = none;
  rx_rate_bps = none;
  tx_bytes_r = none;
  rx_bytes_r = none;
  sw_port = none;
  dev_cat = none;
  dev_family = none;
  dev_vendor = none;
  os_name = none;
  notes = none;
  created_at = 1;
  updated_at = 1;
}

abbrev channel : NotificationChannel
channel = record {
  id = 1;
  type = t "gotify";
  name = t "home";
  enabled = true;
  config_json = obj end;
  created_at = 1;
  updated_at = 1;
}

abbrev db : Db
db = record empty_db { devices = device ∷ []; channels = channel ∷ [] }

abbrev provider : Provider
provider = record {
  validate_config = λ config. ok true;
  send = λ message config.
      ok (record { success = true; status_code = 200; response = []; error = [] });
}

abbrev outside : Outside
outside = record {
  fresh = next_key;
  provider = λ type. some provider;
  load_config = λ c. ok end;
  describe = λ e. [];
}

abbrev client : StaClient
client = record {
  mac = some (t "AA-BB-CC-00-11-2F");
  ip = none;
  hostname = none;
  oui = none;
  site_id = none;
  essid = none;
  ap_mac = none;
  name = none;
  is_wired = null;
  radio_proto = none;
  channel = null;
  rssi = null;
  signal = null;
  satisfaction = null;
  tx_rate = null;
  rx_rate = null;
  tx_bytes_r = null;
  rx_bytes_r = null;
  sw_port = null;
  dev_cat = none;
  dev_family = none;
  dev_vendor = none;
  os_name = none;
  raw = null;
}

abbrev input : ScanInput
input = record {
  source = t "manual";
  clients = client ∷ [];
  mock_mode = false;
  cooldown = 100;
  started = 10;
  now = 11;
  written = 12;
  delivered = λ a. 13;
}

abbrev quiet : ScanInput
quiet = record {
  source = t "manual";
  clients = [];
  mock_mode = true;
  cooldown = 100;
  started = 20;
  now = 21;
  written = 22;
  delivered = λ a. 23;
}

abbrev scanner : Scanner
scanner = record { locked = false; db = db }

run_scan-Keeps_example : Keeps db.devices (run_scan outside input scanner).1.db.devices
run_scan-Keeps_example = run_scan-Keeps outside input next_key-new scanner

-- Where a pass may stand: one candidate.
abbrev pass : Pass
pass = record { db = db; by_mac = (device.mac, 4) ∷ []; candidates = 4 ∷ [] }

intents_of_iff_example :
    In 4 (intent_ids (intents_of outside input pass))
    ↔ In 4 pass.candidates
      × ((d : Device) × (find_device 4 pass.db.devices ≡ some d))
      × (¬ IsAlerted input.cooldown input.now 4 pass.db.events)
intents_of_iff_example = intents_of_iff outside input pass 4

abbrev intent : AlertIntent
intent = record { device_id = 4; mac = device.mac; message = t "Unknown device" }

deliver_intent-Delivered_example :
    Delivered outside 13
      (channel ∷ [])
      intent
      db
      (deliver_intent outside 13 (channel ∷ []) intent db)
deliver_intent-Delivered_example = deliver_intent-Delivered outside 13 (channel ∷ []) intent db

abbrev after : Db
after = (finish_scan outside input pass).1

abbrev quiet_pass : Pass
quiet_pass = record { db = after; by_mac = []; candidates = [] }

quiet_result : first_pass outside quiet after ≡ ok quiet_pass
unfolding unifi_netwatcher.Scanner.Upsert.process_clients unifi_netwatcher.Scanner.Upsert.prepare
    unifi_netwatcher.Scanner.Upsert.batch_load_devices unifi_netwatcher.Base.filter finish_scan
    unifi_netwatcher.Scanner.Alerts.deliver_queued_alerts
    unifi_netwatcher.Scanner.Alerts.collect_intents unifi_netwatcher.Base.any
    unifi_netwatcher.Scanner.Alerts.devices_in_alert_cooldown
    unifi_netwatcher.Scanner.Alerts.recent_alert_ids find_device
    unifi_netwatcher.Models.Tables.add_event unifi_netwatcher.Scanner.Alerts.deliver_each
    deliver_intent unifi_netwatcher.Scanner.Alerts.close_intent
    unifi_netwatcher.Scanner.Alerts.deliver_channels unifi_netwatcher.Scanner.Alerts.attempt
    unifi_netwatcher.Base.Decimal.int_of_text unifi_netwatcher.Base.Decimal.scan_digits
    unifi_netwatcher.Base.Decimal.show unifi_netwatcher.Base.dict_get unifi_netwatcher.Base.find
    unifi_netwatcher.Base.concat unifi_netwatcher.Base.drop_while unifi_netwatcher.Base.is_space
    unifi_netwatcher.Base.join unifi_netwatcher.Base.lower unifi_netwatcher.Base.lower_char
    unifi_netwatcher.Base.rstrip_by unifi_netwatcher.Base.strip unifi_netwatcher.Base.text_eq
    unifi_netwatcher.Base.text_in unifi_netwatcher.Mac.chunk_pairs unifi_netwatcher.Mac.cleaned
    unifi_netwatcher.Mac.is_hex unifi_netwatcher.Mac.normalize_mac
    unifi_netwatcher.Models.Tables.new_event unifi_netwatcher.Models.Tables.save_device
    unifi_netwatcher.Models.Values.truthy unifi_netwatcher.Scanner.Alerts.add_delivery
    unifi_netwatcher.Scanner.Alerts.alert_message unifi_netwatcher.Scanner.Alerts.clip intent_of
    unifi_netwatcher.Scanner.Alerts.new_delivery unifi_netwatcher.Scanner.Alerts.or_na
    unifi_netwatcher.Scanner.Alerts.try_send unifi_netwatcher.Scanner.Telemetry.apply_telemetry
    unifi_netwatcher.Scanner.Telemetry.as_bool unifi_netwatcher.Scanner.Telemetry.as_int
    unifi_netwatcher.Scanner.Telemetry.client_telemetry
    unifi_netwatcher.Scanner.Telemetry.rssi_or_signal
    unifi_netwatcher.Scanner.Upsert.add_observation unifi_netwatcher.Scanner.Upsert.loaded
    unifi_netwatcher.Scanner.Upsert.mac_prefix unifi_netwatcher.Scanner.Upsert.new_device
    unifi_netwatcher.Scanner.Upsert.note_candidate unifi_netwatcher.Scanner.Upsert.process_client
    unifi_netwatcher.Scanner.Upsert.refresh_device unifi_netwatcher.Scanner.Upsert.upsert
    unifi_netwatcher.Scanner.Upsert.upsert_known unifi_netwatcher.Scanner.Upsert.upsert_new
    unifi_netwatcher.Scanner.Upsert.vendor_of
quiet_result = refl

alerted : AlertIntent
alerted = intent_of device

alerted_once : In alerted (intents_of outside input pass)
unfolding unifi_netwatcher.Scanner.Alerts.collect_intents unifi_netwatcher.Base.any
    unifi_netwatcher.Scanner.Alerts.devices_in_alert_cooldown unifi_netwatcher.Base.filter
    unifi_netwatcher.Scanner.Alerts.recent_alert_ids find_device intent_of alerted
alerted_once = inl refl

taken : 0 < length (takers outside alerted.message (enabled_channels pass.db))
unfolding filter unifi_netwatcher.Scanner.Alerts.attempt unifi_netwatcher.Scanner.Alerts.try_send
taken = omega arith

alert_cooldown_example : ¬ In alerted.device_id (intent_ids (intents_of outside quiet quiet_pass))
alert_cooldown_example =
    alert_cooldown outside outside input quiet pass quiet_pass after alerted alerted_once taken
      (Extends-refl after.events) quiet_result (omega arith)

abbrev first_or : Pass → Result Pass → Pass
first_or other (ok st) = st
first_or other (err e) = other

abbrev found_pass : Pass
found_pass = first_or pass (first_pass outside input db)

found : first_pass outside input db ≡ ok found_pass
unfolding unifi_netwatcher.Scanner.Upsert.process_clients unifi_netwatcher.Scanner.Upsert.prepare
    unifi_netwatcher.Mac.normalize_mac unifi_netwatcher.Mac.cleaned
    unifi_netwatcher.Scanner.Upsert.process_client
    unifi_netwatcher.Scanner.Telemetry.client_telemetry unifi_netwatcher.Scanner.Telemetry.as_int
    unifi_netwatcher.Scanner.Telemetry.rssi_or_signal
found = refl

one_intent : In 4 (intent_ids (intents_of outside input found_pass))
unfolding unifi_netwatcher.Scanner.Upsert.process_clients unifi_netwatcher.Scanner.Upsert.prepare
    unifi_netwatcher.Mac.normalize_mac unifi_netwatcher.Mac.cleaned
    unifi_netwatcher.Scanner.Upsert.process_client
    unifi_netwatcher.Scanner.Telemetry.client_telemetry unifi_netwatcher.Scanner.Telemetry.as_int
    unifi_netwatcher.Scanner.Telemetry.rssi_or_signal
    unifi_netwatcher.Scanner.Alerts.collect_intents unifi_netwatcher.Base.any
    unifi_netwatcher.Scanner.Alerts.devices_in_alert_cooldown unifi_netwatcher.Base.filter
    unifi_netwatcher.Scanner.Alerts.recent_alert_ids find_device intent_of alerted
    unifi_netwatcher.Scanner.Upsert.upsert unifi_netwatcher.Scanner.Upsert.loaded dict_get
    unifi_netwatcher.Scanner.Upsert.batch_load_devices text_in text_eq join
    unifi_netwatcher.Mac.chunk_pairs unifi_netwatcher.Scanner.Upsert.upsert_known
    unifi_netwatcher.Scanner.Upsert.note_candidate unifi_netwatcher.Scanner.Upsert.refresh_device
    unifi_netwatcher.Scanner.Telemetry.apply_telemetry
    unifi_netwatcher.Scanner.Upsert.add_observation unifi_netwatcher.Models.Tables.save_device
one_intent = inl refl

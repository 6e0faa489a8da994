-- ===== src/Scanner/Upsert.antt =====
-- app/scanner.py: the first pass of a scan, which writes devices, observations and events.
use unifi_netwatcher.Base.{
  leb, if◌then◌else◌, length, take, filter, dict_get, Text, t, text_eq, text_in, ◌>>=◌, Result, ok,
  ℕ, Bool, true, false, Option, none, some, List, [], ◌∷◌, ◌++◌, map, reverse,
}
use unifi_netwatcher.Mac.{normalize_mac}
use unifi_netwatcher.Models.{Device, DeviceStatus, unknown, info, Observation, OuiEntry, Db}
use unifi_netwatcher.Models.Values.{null}
use unifi_netwatcher.Models.Tables.{find_device, save_device, device_ids, add_event}
use unifi_netwatcher.Scanner.Telemetry.{StaClient, Telemetry, client_telemetry, apply_telemetry}

unfoldable pub mac_prefix : Text → Option Text
mac_prefix mac = if leb 8 (length mac) then some (take 8 mac) else none

abbrev prepend : Option Text → StaClient → List (Text × StaClient) → List (Text × StaClient)
prepend none c rest = rest
prepend (some mac) c rest = (mac, c) ∷ rest

-- The clients with a valid MAC, each with its canonical form.
unfoldable pub prepare : List StaClient → List (Text × StaClient)
prepare [] = []
prepare (c ∷ cs) = prepend (normalize_mac c.mac) c (prepare cs)

-- Each mac with the key of its device.
unfoldable pub batch_load_devices : Db → List Text → List (Text × ℕ)
batch_load_devices db macs =
    reverse (map (λ d. (d.mac, d.id)) (filter (λ (d : Device). text_in d.mac macs) db.devices))

unfoldable pub batch_load_oui_vendors : Db → List Text → List (Text × Text)
batch_load_oui_vendors db prefixes = reverse (
    map (λ e. (e.mac_prefix, e.vendor))
      (filter (λ (e : OuiEntry). text_in e.mac_prefix prefixes) db.oui_entries))

abbrev prefix_vendor : List (Text × Text) → Option Text → Option Text
prefix_vendor oui none = none
prefix_vendor oui (some prefix) = dict_get text_eq prefix oui

-- `if x:` at an optional text
abbrev pub or_text : Option Text → Option Text → Option Text
or_text (some (c ∷ s)) other = some (c ∷ s)
or_text _ other = other

unfoldable pub vendor_of : List (Text × Text) → Text → StaClient → Option Text
vendor_of oui mac c = or_text (prefix_vendor oui (mac_prefix mac)) c.oui

unfoldable pub new_device :
    ℕ → ℕ → ℕ → Text → StaClient → Option Text → Option Text → Telemetry → Device
new_device id now written mac c vendor ap_mac m = record {
  id = id;
  mac = mac;
  hostname = c.hostname;
  display_name = none;
  ip = c.ip;
  vendor = vendor;
  status = unknown;
  first_seen_at = some now;
  last_seen_at = some now;
  last_site = c.site_id;
  last_ssid = c.essid;
  last_ap_mac = ap_mac;
  name = m.name;
  is_wired = m.is_wired;
  radio_proto = m.radio_proto;
  channel = m.channel;
  rssi = m.rssi;
  satisfaction = m.satisfaction;
  tx_rate_bps = m.tx_rate_bps;
  rx_rate_bps = m.rx_rate_bps;
  tx_bytes_r = m.tx_bytes_r;
  rx_bytes_r = m.rx_bytes_r;
  sw_port = m.sw_port;
  dev_cat = m.dev_cat;
  dev_family = m.dev_family;
  dev_vendor = m.dev_vendor;
  os_name = m.os_name;
  notes = none;
  created_at = written;
  updated_at = written;
}

-- `updated_at` is set by the column's `onupdate` when the change is written.
unfoldable pub refresh_device :
    ℕ → ℕ → StaClient → Option Text → Option Text → Telemetry → Device → Device
refresh_device now written c vendor ap_mac m d =
    apply_telemetry
      (record d {
        last_seen_at = some now;
        hostname = or_text c.hostname d.hostname;
        ip = or_text c.ip d.ip;
        vendor = or_text vendor d.vendor;
        last_site = or_text c.site_id d.last_site;
        last_ssid = or_text c.essid d.last_ssid;
        last_ap_mac = or_text ap_mac d.last_ap_mac;
        updated_at = written;
      })
      m

-- What the loop carries: the database, the devices by mac, and `unknown_candidates` by key.
pub record Pass : Type 0 where
  pub db : Db
  pub by_mac : List (Text × ℕ)
  pub candidates : List ℕ

abbrev pub is_unknown : DeviceStatus → Bool
is_unknown unknown = true
is_unknown _ = false

abbrev find_loaded : List Device → Option ℕ → Option Device
find_loaded devices none = none
find_loaded devices (some i) = find_device i devices

-- `devices_by_mac.get(mac)`
unfoldable pub loaded : Text → Pass → Option Device
loaded mac st = find_loaded st.db.devices (dict_get text_eq mac st.by_mac)

-- The end of a round, once the row of the device is written.
unfoldable pub note_candidate : Device → Pass → Pass
note_candidate d st =
    if is_unknown d.status then record st { candidates = st.candidates ++ d.id ∷ [] } else st

module _ (fresh : List ℕ → ℕ) (now written : ℕ) (oui : List (Text × Text)) where
  unfoldable pub add_observation : Device → Text → StaClient → Db → Db
  add_observation d mac c db = record db {
    observations =
        db.observations
        ++ record {
          id = fresh (map (λ (o : Observation). o.id) db.observations);
          device_id = some d.id;
          mac = mac;
          ip = c.ip;
          hostname = c.hostname;
          site = c.site_id;
          ssid = c.essid;
          ap_mac = normalize_mac c.ap_mac;
          raw_json = c.raw;
          seen_at = now;
        }
          ∷ [];
  }

  unfoldable pub upsert_new : Text → StaClient → Telemetry → Pass → Pass
  upsert_new mac c m st =
      let id = fresh (device_ids st.db.devices) in
      let d = new_device id now written mac c (vendor_of oui mac c) (normalize_mac c.ap_mac) m in
      let stored = record st.db { devices = st.db.devices ++ d ∷ [] } in
      let observed = add_observation d mac c stored in
      let noted =
        add_event fresh written (some id) (t "discovered") info (t "New device discovered: " ++ mac)
          null observed in
      note_candidate d
        (record { db = noted; by_mac = (mac, id) ∷ st.by_mac; candidates = st.candidates })

  unfoldable pub upsert_known : Device → Text → StaClient → Telemetry → Pass → Pass
  upsert_known known mac c m st =
      let d = refresh_device now written c (vendor_of oui mac c) (normalize_mac c.ap_mac) m known in
      let stored = record st.db { devices = save_device d st.db.devices } in
      note_candidate d (record st { db = add_observation d mac c stored })

  unfoldable pub upsert : Option Device → Text → StaClient → Telemetry → Pass → Pass
  upsert none mac c m st = upsert_new mac c m st
  upsert (some known) mac c m st = upsert_known known mac c m st

  unfoldable pub process_client : Text × StaClient → Pass → Result Pass
  process_client (mac, c) st = do
    telemetry ← client_telemetry c
    ok (upsert (loaded mac st) mac c telemetry st)

  unfoldable pub process_clients : List (Text × StaClient) → Pass → Result Pass
  process_clients [] st = ok st
  process_clients (p ∷ ps) st = process_client p st >>= process_clients ps

-- ===== src/Services/Tests.antt =====
-- Runs of the device operations.
use unifi_netwatcher.Models.{Db, Device, unknown, empty_db, blocked}
use unifi_netwatcher.Services.Log.{RequestContext}
use unifi_netwatcher.Base.{
  ◌==◌, if◌then◌else◌, length, t, ok, err, device_not_found, ℕ, suc, ◌≡◌, ◌⊎◌, true, false, none,
  some, List, [], ◌∷◌,
}
use mathlib.Core.Option
use unifi_netwatcher.Services.Devices.Bulk.{bulk_lem}
use unifi_netwatcher.Unifi.Client.{Session}
use unifi_netwatcher.Services.Devices.Edits.{
  run_edit, resetting, edited, IsLogged, find-run_edit, trusting, action_of, run_edit-IsLogged,
  ignoring,
}
use unifi_netwatcher.Models.Tables.{find_device}
use unifi_netwatcher.Services.Devices.Blocking.{Follows, block-Follows}
use unifi_netwatcher.Services.Devices.{bulk_trust, delete, block, unblock, bulk_ignore}
use unifi_netwatcher.Scanner.Alerts.{elem}
use unifi_netwatcher.Services.Devices.Removal.{IsRemoved, delete-IsRemoved}
use unifi_netwatcher.Services.Devices.Bulk.{count_present}

abbrev device : Device
device = record {
  id = 4;
  mac = t "aa:bb:cc:00:11:2f";
  hostname = none;
  display_name = none;
  ip = none;
  vendor = none;
  status = unknown;
  first_seen_at = none;
  last_seen_at = none;
  last_site = none;
  last_ssid = none;
  last_ap_mac = none;
  name = none;
  is_wired = none;
  radio_proto = none;
  channel = none;
  rssi = none;
  satisfaction = none;
  tx_rate_bps = none;
  rx_rate_bps = none;
  tx_bytes_r = none;
  rx_bytes_r = none;
  sw_port = none;
  dev_cat = none;
  dev_family = none;
  dev_vendor = none;
  os_name = none;
  notes = none;
  created_at = 1;
  updated_at = 1;
}

abbrev db : Db
db = record empty_db { devices = device ∷ [] }

abbrev fresh : List ℕ → ℕ
fresh ids = suc (length ids)

abbrev ctx : RequestContext
ctx = record { actor = t "bob"; client_ip = t "10.0.0.9"; request_id = t "r1" }

abbrev session : Session
session = record {
  mock_mode = false;
  dry_run_blocks = false;
  logged_in = true;
  replies = some (record { status_code = 200; json = none }) ∷ [];
  sent = [];
}

run_edit-IsLogged_example :
    ((run_edit fresh ctx 8 9 resetting 4 db ≡ (err device_not_found, db))
      × (find_device 4 db.devices ≡ none))
    ⊎ ((d : Device) × ((find_device 4 db.devices ≡ some d)
          × ((run_edit fresh ctx 8 9 resetting 4 db).0 ≡ ok (edited 8 resetting d))
          × IsLogged ctx
              (edited 8 resetting d)
              (action_of resetting)
              db
              (run_edit fresh ctx 8 9 resetting 4 db).1))
run_edit-IsLogged_example = run_edit-IsLogged fresh ctx 8 9 resetting 4 db

find-run_edit_example : find_device 4 (run_edit fresh ctx 8 9 resetting 4 db).1.devices ≡ (
    if 4 == 4
    then Option.map (edited 8 resetting) (find_device 4 db.devices)
    else find_device 4 db.devices)
find-run_edit_example = find-run_edit fresh ctx 8 9 resetting 4 4 db

abbrev listed_keys : List ℕ
listed_keys = 4 ∷ 7 ∷ 4 ∷ []

bulk_lem_example :
    (find_device 4 (bulk_trust fresh ctx 8 9 listed_keys db).1.devices ≡ (
      if elem 4 listed_keys
      then Option.map (edited 8 (trusting true)) (find_device 4 db.devices)
      else find_device 4 db.devices))
    × ((bulk_trust fresh ctx 8 9 listed_keys db).0 ≡ count_present fresh ctx 8 9 listed_keys db)
    × (find_device 4 (bulk_ignore fresh ctx 8 9 listed_keys db).1.devices ≡ (
        if elem 4 listed_keys
        then Option.map (edited 8 (ignoring true)) (find_device 4 db.devices)
        else find_device 4 db.devices))
    × ((bulk_ignore fresh ctx 8 9 listed_keys db).0 ≡ count_present fresh ctx 8 9 listed_keys db)
bulk_lem_example = bulk_lem fresh ctx 8 9 listed_keys 4 db

block-Follows_example :
    Follows fresh ctx 8 9 blocked (t "block-sta") 4 session db (block fresh ctx 8 9 4 session db)
    × Follows fresh ctx 8 9 unknown
        (t "unblock-sta")
        4
        session
        db
        (unblock fresh ctx 8 9 4 session db)
block-Follows_example = block-Follows fresh ctx 8 9 4 session db

delete-IsRemoved_example :
    ((find_device 4 db.devices ≡ none) × (delete fresh ctx 8 9 4 db ≡ (err device_not_found, db)))
    ⊎ ((d : Device) × ((find_device 4 db.devices ≡ some d)
          × ((delete fresh ctx 8 9 4 db).0 ≡ ok (4, d.mac))
          × IsRemoved 4 db (delete fresh ctx 8 9 4 db).1))
delete-IsRemoved_example = delete-IsRemoved fresh ctx 8 9 4 db

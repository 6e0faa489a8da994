-- ===== src/Api/Tests/Trusted.antt =====
-- Runs of the import and of the exports.
use unifi_netwatcher.Base.{
  filter, any, find, dict_get, Text, t, text_eq, text_in, is_space, drop_while, rstrip_by, strip,
  lower_char, lower, starts_with, has_char, split_once, join, is_line_break, split_lines,
  splitlines, ℕ, ◌≡◌, refl, none, some, List, [], ◌∷◌, map,
}
use unifi_netwatcher.Models.{Device, Db, empty_db, trusted}
use unifi_netwatcher.Api.Trusted.{parse_rows, import_trusted, parse_line, ImportResult, imported}
use unifi_netwatcher.Mac.{normalize_mac}
use unifi_netwatcher.Api.Export.{export_csv, csv_header, csv_row, order_by_id}
use unifi_netwatcher.Base.Decimal.{show}
use unifi_netwatcher.Api.Export.Csv.{read_csv, start, read-export_csv}
use unifi_netwatcher.Library.Keys.{next_key}

abbrev mac : Text
mac = t "aa:bb:cc:00:11:2f"

-- `AA-BB-CC-00-11-2F, Ann`
abbrev file : List ℕ
file = t "# list\nAA-BB-CC-00-11-2F, Ann\n"

abbrev request_id : Text → Text
request_id s = s

abbrev touched : Device → ℕ
touched d = 6

abbrev run : Db → ImportResult × Db
run db = import_trusted next_key request_id 5 6 touched 100 3 file db

read_one : parse_rows 3 [] (splitlines file) ≡ some ((mac, t "Ann") ∷ [])
unfolding parse_rows parse_line splitlines split_lines strip unifi_netwatcher.Base.starts_with
    unifi_netwatcher.Base.text_in unifi_netwatcher.Base.text_eq unifi_netwatcher.Base.lower
    unifi_netwatcher.Api.Trusted.columns has_char unifi_netwatcher.Base.split_once normalize_mac
    unifi_netwatcher.Mac.cleaned unifi_netwatcher.Base.join unifi_netwatcher.Mac.chunk_pairs
read_one = refl

counted : (run empty_db).0 ≡ imported 1
unfolding import_trusted unifi_netwatcher.Base.Utf8.utf8_decode parse_rows splitlines parse_line
    strip unifi_netwatcher.Base.starts_with unifi_netwatcher.Base.text_in
    unifi_netwatcher.Base.text_eq unifi_netwatcher.Base.lower unifi_netwatcher.Api.Trusted.columns
    has_char unifi_netwatcher.Base.split_once normalize_mac unifi_netwatcher.Mac.cleaned
    unifi_netwatcher.Api.Trusted.apply_records unifi_netwatcher.Api.Trusted.import_rows
    unifi_netwatcher.Api.Trusted.import_row unifi_netwatcher.Api.Trusted.existing_device
    unifi_netwatcher.Api.Trusted.fill_name unifi_netwatcher.Api.Trusted.import_new
    unifi_netwatcher.Api.Trusted.imported_device unifi_netwatcher.Api.Trusted.trust_existing show
    unifi_netwatcher.Base.any unifi_netwatcher.Base.dict_get unifi_netwatcher.Base.filter
    unifi_netwatcher.Base.find unifi_netwatcher.Base.drop_while is_line_break
    unifi_netwatcher.Base.is_space unifi_netwatcher.Base.join unifi_netwatcher.Base.lower_char
    unifi_netwatcher.Base.rstrip_by split_lines unifi_netwatcher.Base.Utf8.decode_from
    unifi_netwatcher.Mac.chunk_pairs unifi_netwatcher.Mac.is_hex
    unifi_netwatcher.Models.Tables.add_audit unifi_netwatcher.Models.Tables.add_event
    unifi_netwatcher.Models.Tables.find_device unifi_netwatcher.Models.Tables.new_audit
    unifi_netwatcher.Models.Tables.new_event unifi_netwatcher.Models.Tables.save_device
    unifi_netwatcher.Models.Values.get unifi_netwatcher.Models.Values.has_key
    unifi_netwatcher.Scanner.Upsert.batch_load_devices unifi_netwatcher.Services.Log.drop_field
    unifi_netwatcher.Services.Log.event_type_for_action
    unifi_netwatcher.Services.Log.log_device_action unifi_netwatcher.Services.Log.safe_details
    unifi_netwatcher.Services.Log.set_field
counted = refl

abbrev device : Text → Device
device name = record {
  id = 4;
  mac = mac;
  hostname = none;
  display_name = some name;
  ip = none;
  vendor = none;
  status = trusted;
  first_seen_at = none;
  last_seen_at = none;
  last_site = none;
  last_ssid = none;
  last_ap_mac = none;
  name = none;
  is_wired = none;
  radio_proto = none;
  channel = none;
  rssi = none;
  satisfaction = none;
  tx_rate_bps = none;
  rx_rate_bps = none;
  tx_bytes_r = none;
  rx_bytes_r = none;
  sw_port = none;
  dev_cat = none;
  dev_family = none;
  dev_vendor = none;
  os_name = none;
  notes = none;
  created_at = 1;
  updated_at = 1;
}

abbrev db : Db
db = record empty_db { devices = device (t "Ann") ∷ [] }

-- `Lee, Ann`
abbrev lee : Device
lee = device (t "Lee, Ann")

abbrev isoformat : ℕ → Text
isoformat at = show at

read-export_csv_example :
    read_csv start [] [] (export_csv isoformat db)
    ≡ csv_header ∷ map (csv_row isoformat) (order_by_id db.devices)
read-export_csv_example = read-export_csv isoformat db

-- ===== src/Api/Trusted.antt =====
-- app/api/routes_import_export.py: the import of trusted devices.
pub mod Applied
pub mod Outcome
pub mod Files
pub mod Index
use unifi_netwatcher.Base.{
  ltb, if◌then◌else◌, get_or, length, take, is_empty, dict_get, Text, t, text_eq, text_in, strip,
  lower, starts_with, has_char, split_once, splitlines, ℕ, suc, ◌+◌, Bool, true, false, not, ◌&&◌,
  ◌||◌, Option, none, some, List, [], ◌∷◌, ◌++◌, map,
}
use unifi_netwatcher.Mac.{normalize_mac}
use unifi_netwatcher.Models.{Db, DeviceStatus, Device, trusted, info}
use unifi_netwatcher.Models.Values.{Fields, fields, str, null}
use unifi_netwatcher.Models.Tables.{find_device, device_ids, save_device, add_event}
use unifi_netwatcher.Services.Log.{log_device_action, system_context}
use unifi_netwatcher.Scanner.Upsert.{batch_load_devices}
use unifi_netwatcher.Base.Decimal.{show}
use unifi_netwatcher.Base.Utf8.{utf8_decode}

-- A line at its first `separator`: the text of the address, and the note.
abbrev pub columns_at : ℕ → Text → Text × Text
columns_at separator line =
    let parts = split_once separator line in (strip parts.0, strip (get_or parts.1 []))

unfoldable pub columns : Text → Text × Text
columns line = if has_char b',' line then columns_at b',' line else columns_at b'#' line

abbrev pub is_comment : Text → Bool
is_comment line = is_empty line || starts_with line (t "#")

abbrev pub is_header : Text → Bool
is_header raw_mac = text_in (lower raw_mac) (t "mac" ∷ t "mac address" ∷ [])

abbrev with_mac : Option Text → Text → Option (Text × Text)
with_mac none note = none
with_mac (some mac) note = some (mac, note)

abbrev pub record_of : Text × Text → Option (Text × Text)
record_of (raw_mac, note) =
    if is_header raw_mac then none else with_mac (normalize_mac (some raw_mac)) note

-- `none` is a line that the loop passes over.
unfoldable pub parse_line : Text → Option (Text × Text)
parse_line line = if is_comment (strip line) then none else record_of (columns (strip line))

-- `none` is the page with status 400, at the first row over the limit.
unfoldable pub parse_rows : ℕ → List (Text × Text) → List Text → Option (List (Text × Text))
parse_rows max_rows records [] = some records
parse_rows max_rows records (line ∷ lines) = elim (parse_line line) [
  | none ↦ parse_rows max_rows records lines
  | some row ↦ elim (ltb max_rows (length (records ++ row ∷ []))) [
    | true ↦ none
    | false ↦ parse_rows max_rows (records ++ row ∷ []) lines
  ]
]

-- What the second phase carries: the database, `existing` by key, and `imported_count`.
pub record Import : Type 0 where
  pub db : Db
  pub existing : List (Text × ℕ)
  pub imported_count : ℕ

pub data ImportResult : Type 0 where
  too_large not_utf8 too_many_rows : ImportResult
  imported : ℕ → ImportResult

abbrev pub is_trusted : DeviceStatus → Bool
is_trusted trusted = true
is_trusted _ = false

abbrev pub is_blank : Option Text → Bool
is_blank (some (c ∷ s)) = false
is_blank _ = true

abbrev find_existing : List Device → Option ℕ → Option Device
find_existing devices none = none
find_existing devices (some i) = find_device i devices

-- `existing.get(mac)`
unfoldable pub existing_device : Text → Import → Option Device
existing_device mac st = find_existing st.db.devices (dict_get text_eq mac st.existing)

unfoldable pub imported_device : ℕ → ℕ → ℕ → Text → Text → Device
imported_device id now at mac note = record {
  id = id;
  mac = mac;
  hostname = none;
  display_name = some note;
  ip = none;
  vendor = none;
  status = trusted;
  first_seen_at = some now;
  last_seen_at = some now;
  last_site = none;
  last_ssid = none;
  last_ap_mac = none;
  name = none;
  is_wired = none;
  radio_proto = none;
  channel = none;
  rssi = none;
  satisfaction = none;
  tx_rate_bps = none;
  rx_rate_bps = none;
  tx_bytes_r = none;
  rx_bytes_r = none;
  sw_port = none;
  dev_cat = none;
  dev_family = none;
  dev_vendor = none;
  os_name = none;
  notes = none;
  created_at = at;
  updated_at = at;
}

abbrev import_details : Fields
import_details = fields ((t "source", str (t "trusted.csv_import")) ∷ [])

-- `now` is read once, `at` is the time of a flush, and `request_id` that of the system's context of
-- a log entry. `touched` is what the flush of a filled name makes of `updated_at`: its own time, or
-- `now` if the same flush writes the new status.
module _ (fresh : List ℕ → ℕ) (request_id : Text → Text) (now at : ℕ) (touched : Device → ℕ) where
  abbrev logged : Device → Db → Db
  logged d db =
      log_device_action fresh at d (t "trust") import_details (system_context (request_id d.mac)) db

  unfoldable pub import_new : Text → Text → Import → Import
  import_new mac note st =
      let id = fresh (device_ids st.db.devices) in
      let d = imported_device id now at mac note in
      record {
        db = logged d (record st.db { devices = st.db.devices ++ d ∷ [] });
        existing = (mac, id) ∷ st.existing;
        imported_count = suc st.imported_count;
      }

  unfoldable pub trust_existing : Device → Import → Import
  trust_existing d st =
      if is_trusted d.status
      then st
      else let d' = record d { status = trusted; updated_at = now } in
        record st {
          db = logged d' (record st.db { devices = save_device d' st.db.devices });
          imported_count = suc st.imported_count;
        }

  abbrev named : Text → Device → Device
  named note d = record d { display_name = some note; updated_at = touched d }

  abbrev write_name : Text → Option Device → Import → Import
  write_name note none st = st
  write_name note (some d) st = record st {
    db = record st.db { devices = save_device (named note d) st.db.devices };
  }

  -- The row is read again, since its status may have been changed.
  unfoldable pub fill_name : ℕ → Text → Option Text → Import → Import
  fill_name i note display_name st =
      if not (is_empty note) && is_blank display_name
      then write_name note (find_device i st.db.devices) st
      else st

  unfoldable pub import_row : Option Device → Text → Text → Import → Import
  import_row none mac note st = import_new mac note st
  import_row (some d) mac note st = fill_name d.id note d.display_name (trust_existing d st)

  unfoldable pub import_rows : List (Text × Text) → Import → Import
  import_rows [] st = st
  import_rows ((mac, note) ∷ rows) st =
      import_rows rows (import_row (existing_device mac st) mac note st)

  unfoldable pub apply_records : List (Text × Text) → Db → ImportResult × Db
  apply_records records db =
      let st = import_rows records (record {
        db = db;
        existing = batch_load_devices db (map (λ (r : Text × Text). r.0) records);
        imported_count = 0;
      }) in
      (
        imported st.imported_count,
        add_event fresh at none (t "import_trusted") info
            (t "Imported or updated " ++ (show st.imported_count ++ t " trusted devices from CSV"))
            null st.db,
      )

  abbrev import_parsed : Option (List (Text × Text)) → Db → ImportResult × Db
  import_parsed none db = (too_many_rows, db)
  import_parsed (some records) db = apply_records records db

  abbrev import_text : ℕ → Option Text → Db → ImportResult × Db
  import_text max_rows none db = (not_utf8, db)
  import_text max_rows (some text) db = import_parsed (parse_rows max_rows [] (splitlines text)) db

  -- `content` is the file up to one byte over the limit.
  unfoldable pub import_trusted : ℕ → ℕ → List ℕ → Db → ImportResult × Db
  import_trusted max_bytes max_rows file db =
      let content = take (max_bytes + 1) file in
      if ltb max_bytes (length content)
      then (too_large, db)
      else import_text max_rows (utf8_decode content) db

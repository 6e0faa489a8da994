-- ===== src/Api/Export.antt =====
-- app/api/routes_import_export.py: the exports of devices. `csv.writer` is that of the `excel`
-- dialect; `isoformat` is the text of a time.
mod Macs
pub mod Trusted
pub mod Commas
pub mod Csv
use unifi_netwatcher.Base.{
  leb, ◌==◌, if◌then◌else◌, any, Text, t, join, concat, ℕ, Bool, ◌||◌, Option, none, some, List, [],
  ◌∷◌, ◌++◌, map,
}
use unifi_netwatcher.Models.{Device, Db}
use unifi_netwatcher.Web.Labels.{or_next}
use unifi_netwatcher.Api.Trusted.{is_trusted}
use unifi_netwatcher.Base.Decimal.{show}
use unifi_netwatcher.Api.Tools.{csv_safe}
use unifi_netwatcher.Services.Devices.{status_text}

-- `d.display_name or d.hostname or d.notes or "Unknown"`
unfoldable pub export_name : Device → Text
export_name d = or_next d.display_name (or_next d.hostname (or_next d.notes (t "Unknown")))

unfoldable pub export_line : Device → Text
export_line d = d.mac ++ (t " # " ++ export_name d)

unfoldable pub export_lines : List Device → List Text
export_lines [] = []
export_lines (d ∷ ds) =
    let rest = export_lines ds in if is_trusted d.status then export_line d ∷ rest else rest

unfoldable pub export_trusted : Db → Text
export_trusted db = join (t "\n") (t "# Trusted Devices Export" ∷ export_lines db.devices) ++ t "\n"

-- The cells that the writer puts in quotes.
unfoldable pub is_special : ℕ → Bool
is_special c = c == b',' || c == b'"' || c == 13 || c == 10

-- Every quote is doubled.
unfoldable pub double_quotes : Text → Text
double_quotes [] = []
double_quotes (c ∷ s) = if c == b'"' then c ∷ c ∷ double_quotes s else c ∷ double_quotes s

unfoldable pub write_cell : Text → Text
unfolding double_quotes is_special any
write_cell s = if any is_special s then b'"' ∷ (double_quotes s ++ b'"' ∷ []) else s

-- `writer.writerow(cells)`, of more than one cell.
unfoldable pub write_row : List Text → Text
unfolding join
write_row cells = join (t ",") (map write_cell cells) ++ 13 ∷ 10 ∷ []

abbrev pub csv_header : List Text
csv_header =
    t "ID"
    ∷ t "MAC"
    ∷ t "Status"
    ∷ t "IP"
    ∷ t "Hostname"
    ∷ t "Display Name"
    ∷ t "Vendor"
    ∷ t "Site"
    ∷ t "SSID"
    ∷ t "First Seen"
    ∷ t "Last Seen"
    ∷ []

-- `.order_by(Device.id)`
unfoldable pub insert_by_id : Device → List Device → List Device
insert_by_id d [] = d ∷ []
insert_by_id d (x ∷ xs) = if leb d.id x.id then d ∷ x ∷ xs else x ∷ insert_by_id d xs

unfoldable pub order_by_id : List Device → List Device
unfolding insert_by_id
order_by_id [] = []
order_by_id (d ∷ ds) = insert_by_id d (order_by_id ds)

module _ (isoformat : ℕ → Text) where
  abbrev time_text : Option ℕ → Option Text
  time_text none = some []
  time_text (some at) = some (isoformat at)

  unfoldable pub csv_row : Device → List Text
  csv_row d =
      show d.id
      ∷ csv_safe (some d.mac)
      ∷ csv_safe (some (status_text d.status))
      ∷ csv_safe d.ip
      ∷ csv_safe d.hostname
      ∷ csv_safe d.display_name
      ∷ csv_safe d.vendor
      ∷ csv_safe d.last_site
      ∷ csv_safe d.last_ssid
      ∷ csv_safe (time_text d.first_seen_at)
      ∷ csv_safe (time_text d.last_seen_at)
      ∷ []

  unfoldable pub csv_rows : Db → List (List Text)
  csv_rows db = csv_header ∷ map csv_row (order_by_id db.devices)

  -- The chunks of the streamed response, one after the other.
  unfoldable pub export_csv : Db → Text
  export_csv db = concat (map write_row (csv_rows db))

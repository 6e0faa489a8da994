-- ===== src/Api/Export/Trusted.antt =====
-- An exported list of trusted devices is read back by the import.
use unifi_netwatcher.Base.{
  if◌then◌else◌, length, Text, strip, has_char, ◌<◌, ◌≡◌, false, some, List, [], ◌∷◌,
}
use unifi_netwatcher.Base.Trim.{IsOneLine}
use unifi_netwatcher.Api.Trusted.{is_trusted}
use unifi_netwatcher.Mac.{normalize_mac}
use unifi_netwatcher.Models.{Device, trusted}
use unifi_netwatcher.Api.Export.{export_name}

-- A name that the format can carry: one line, trimmed, not empty, and without a comma.
pub record IsPlain (name : Text) : Type 0 where
  pub one_line : IsOneLine name
  pub trimmed : strip name ≡ name
  pub not_empty : 0 < length name
  pub no_comma : has_char b',' name ≡ false

-- The trusted devices, each as the row that an import makes of its line.
abbrev pub trusted_rows : List Device → List (Text × Text)
trusted_rows [] = []
trusted_rows (d ∷ ds) =
    let rest = trusted_rows ds in
    if is_trusted d.status then (d.mac, export_name d) ∷ rest else rest

-- What a device needs so that its line says it all.
abbrev pub IsExportable : Device → Type 0
IsExportable d =
    d.status ≡ trusted → (normalize_mac (some d.mac) ≡ some d.mac) × IsPlain (export_name d)

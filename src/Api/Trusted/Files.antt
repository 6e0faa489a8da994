-- ===== src/Api/Trusted/Files.antt =====
-- A whole import, from the file to the devices.
use unifi_netwatcher.Base.{length, All, Text, splitlines, ℕ, ◌≤◌, ◌≡◌, some, List, [], map}
use unifi_netwatcher.Base.Utf8.{utf8_decode}
use unifi_netwatcher.Api.Trusted.{parse_rows}
use unifi_netwatcher.Models.{Device}
use unifi_netwatcher.Api.Trusted.Applied.{Updates, IsTrustedMac}

abbrev pub macs_of : List (Text × Text) → List Text
macs_of rows = map (λ (r : Text × Text). r.0) rows

-- The rows of a file that keeps the limits.
abbrev pub Reads : ℕ → ℕ → List ℕ → List (Text × Text) → Type 0
Reads max_bytes max_rows file rows =
    (length file ≤ max_bytes)
    × (length rows ≤ max_rows)
    × ((text : Text) × ((utf8_decode file ≡ some text)
          × (parse_rows max_rows [] (splitlines text) ≡ some rows)))

-- What an import comes to: the devices before and after it, and the rows that it read.
abbrev pub Imports : List (Text × Text) → List Device → List Device → Type 0
Imports rows ds ds' = Updates (macs_of rows) ds ds' × All (IsTrustedMac ds') (macs_of rows)

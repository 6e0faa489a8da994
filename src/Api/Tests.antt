-- ===== src/Api/Tests.antt =====
-- Runs of the tools page.
mod Trusted
mod Channels
use unifi_netwatcher.Models.{empty_db}
use unifi_netwatcher.Api.Tools.{
  csv_safe, starts, is_unsafe_start, is_formula_start, is_stripped, apostrophe, save_retention,
}
use unifi_netwatcher.Base.{length, t, ℕ, suc, ◌≡◌, ◌⊎◌, Option, none, some, List}
use unifi_netwatcher.Api.Tools.Cells.{csv_safe_lem}
use unifi_netwatcher.Base.Ints.{ℤ, pos}
use unifi_netwatcher.Web.Settings.{
  resolve_observation_retention, stored_override, resolve_event_retention,
}
use unifi_netwatcher.Api.Tools.Saved.{save_retention-resolves}

abbrev fresh : List ℕ → ℕ
fresh ids = suc (length ids)

abbrev seven_days : Option ℤ
seven_days = some (pos 7)

save_retention-resolves_example :
    (save_retention fresh 1 (t "custom") seven_days (t "30") none empty_db ≡ (none, empty_db))
    ⊎ ((o : ℕ) × ((e : ℕ) × (((save_retention fresh 1
                (t "custom")
                seven_days
                (t "30")
                none
                empty_db).0
              ≡ some (o, e))
            × (resolve_observation_retention
                  (save_retention fresh 1 (t "custom") seven_days (t "30") none empty_db).1.settings
                  90
                ≡ (o, stored_override))
            × (resolve_event_retention
                  (save_retention fresh 1 (t "custom") seven_days (t "30") none empty_db).1.settings
                  90
                ≡ (e, stored_override)))))
save_retention-resolves_example =
    save_retention-resolves fresh 1 (t "custom") (t "30") seven_days none empty_db 90 90

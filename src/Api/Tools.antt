-- ===== src/Api/Tools.antt =====
-- app/api/routes_import_export.py: cells of an exported table, and the stored settings.
pub mod Cells
pub mod Saved
use unifi_netwatcher.Models.{Db, Setting, info}
use unifi_netwatcher.Models.Values.{null}
use unifi_netwatcher.Models.Tables.{add_event}
use unifi_netwatcher.Web.Settings.{
  find_setting, scan_interval_key, observation_retention_key, event_retention_key,
}
use unifi_netwatcher.Base.{
  ltb, leb, ◌==◌, if◌then◌else◌, any, Text, t, text_eq, drop_while, ℕ, Bool, false, ◌&&◌, ◌||◌,
  Option, none, some, List, [], ◌∷◌, ◌++◌,
}
use unifi_netwatcher.Base.Ints.{ℤ, pos}
use unifi_netwatcher.Base.Decimal.{show, int_of_text}

-- `" \t\r\n\v\f\x00"`
unfoldable pub is_stripped : ℕ → Bool
is_stripped c = c == b' ' || (leb 9 c && leb c 13) || c == 0

unfoldable pub is_formula_start : ℕ → Bool
is_formula_start c = c == b'=' || c == b'+' || c == b'-' || c == b'@' || c == b'|' || c == b'%'

unfoldable pub is_unsafe_start : ℕ → Bool
is_unsafe_start c = c == b'=' || c == b'+' || c == b'-' || c == b'@' || c == 9 || c == 13

abbrev pub starts : (ℕ → Bool) → Text → Bool
starts p [] = false
starts p (c ∷ s) = p c

abbrev pub apostrophe : ℕ
apostrophe = 39

-- `value` is the text of the value, or `none`.
unfoldable pub csv_safe : Option Text → Text
unfolding drop_while
csv_safe none = []
csv_safe (some text) =
    if starts is_formula_start (drop_while is_stripped text)
    then apostrophe ∷ text
    else if starts is_unsafe_start text
    then apostrophe ∷ text
    else text

-- The value of the first row with the key.
unfoldable pub set_value : Text → Text → List Setting → List Setting
set_value key value [] = []
set_value key value (r ∷ rest) =
    let others = set_value key value rest in
    if text_eq r.key key then record r { value = some value } ∷ rest else r ∷ others

unfoldable pub upsert_setting : Text → Text → List Setting → List Setting
upsert_setting key value rows = elim (find_setting key rows) [
  | none ↦ rows ++ record { key = key; value = some value } ∷ []
  | some r ↦ set_value key value rows
]

abbrev pub preset_intervals : List ℕ
preset_intervals = 60 ∷ 300 ∷ 900 ∷ 1800 ∷ 3600 ∷ []

abbrev pub preset_retention_days : List ℕ
preset_retention_days = 0 ∷ 7 ∷ 30 ∷ 90 ∷ 180 ∷ 365 ∷ []

unfoldable preset_of : List ℕ → Option ℤ → Option ℕ
unfolding any
preset_of presets (some (pos n)) = if any (λ m. n == m) presets then some n else none
preset_of presets _ = none

abbrev custom_from : ℕ → Option ℤ → Option ℕ
custom_from least (some (pos n)) = if ltb n least then none else some n
custom_from least _ = none

-- `none` is a page with status 400.
unfoldable pub parse_retention_days : Text → Option ℤ → Option ℕ
unfolding preset_of
parse_retention_days mode custom_days =
    if text_eq mode (t "custom")
    then custom_from 0 custom_days
    else preset_of preset_retention_days (int_of_text mode)

unfoldable pub parse_interval : Text → Option ℤ → Option ℕ
unfolding preset_of
parse_interval mode custom_seconds =
    if text_eq mode (t "custom")
    then custom_from 30 custom_seconds
    else preset_of preset_intervals (int_of_text mode)

module _ (fresh : List ℕ → ℕ) (at : ℕ) where
  -- What is shown as saved, or `none` for status 400; the scheduler is told besides.
  unfoldable pub save_scan_interval : Text → Option ℤ → Db → Option ℕ × Db
  save_scan_interval mode custom_seconds db = elim (parse_interval mode custom_seconds) [
    | none ↦ (none, db)
    | some seconds ↦ (
      some seconds,
      add_event fresh at none (t "scan_interval_updated") info
          (t "Scan interval set to " ++ (show seconds ++ t " seconds")) null
          (record db { settings = upsert_setting scan_interval_key (show seconds) db.settings }),
    )
  ]

  abbrev pub store_retention : ℕ → ℕ → Db → Db
  store_retention obs event db =
      add_event fresh at none (t "retention_updated") info
        (t "Retention set to observations="
          ++ (show obs ++ (t "d, events=" ++ (show event ++ t "d"))))
        null
        (record db {
          settings =
              upsert_setting event_retention_key (show event)
                (upsert_setting observation_retention_key (show obs) db.settings);
        })

  abbrev pub retention_of : Option ℕ → Option ℕ → Db → Option (ℕ × ℕ) × Db
  retention_of (some obs) (some event) db = (some (obs, event), store_retention obs event db)
  retention_of _ _ db = (none, db)

  unfoldable pub save_retention : Text → Option ℤ → Text → Option ℤ → Db → Option (ℕ × ℕ) × Db
  save_retention obs_mode obs_days event_mode event_days db =
      retention_of (parse_retention_days obs_mode obs_days)
        (parse_retention_days event_mode event_days) db

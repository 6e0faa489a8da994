-- ===== src/Web/Settings.antt =====
-- app/web/display.py: the settings that a stored row overrides.
use unifi_netwatcher.Models.{Setting}
use unifi_netwatcher.Base.{
  if◌then◌else◌, is_empty, find, Text, t, text_eq, strip, ℕ, suc, Option, none, some, List,
}
use unifi_netwatcher.Base.Ints.{ℤ, pos}
use unifi_netwatcher.Base.Decimal.{int_of_text}

pub data Source : Type 0 where
  stored_override environment_default : Source

-- `db.query(Setting).filter(Setting.key == key).first()`
unfoldable pub find_setting : Text → List Setting → Option Setting
unfolding find
find_setting key rows = find (λ r. text_eq r.key key) rows

-- The row's value, if it is there and not blank.
abbrev pub value_of : Option Setting → Option Text
value_of none = none
value_of (some r) = r.value

abbrev pub not_blank : Option Text → Option Text
not_blank none = none
not_blank (some s) = if is_empty (strip s) then none else some s

abbrev pub non_negative : Option ℤ → Option ℕ
non_negative (some (pos n)) = some n
non_negative _ = none

abbrev pub positive : Option ℤ → Option ℕ
positive (some (pos (suc n))) = some (suc n)
positive _ = none

abbrev pub parsed : Option Text → Option ℤ
parsed none = none
parsed (some s) = int_of_text s

abbrev pub override_or : Option ℕ → ℕ → ℕ × Source
override_or none env_default = (env_default, environment_default)
override_or (some n) env_default = (n, stored_override)

unfoldable pub stored_int : Text → List Setting → Option ℤ
stored_int key rows = parsed (not_blank (value_of (find_setting key rows)))

unfoldable pub resolve_non_negative_int_setting : List Setting → Text → ℕ → ℕ × Source
resolve_non_negative_int_setting rows key env_default =
    override_or (non_negative (stored_int key rows)) env_default

abbrev pub scan_interval_key : Text
scan_interval_key = t "scan_interval_seconds"

abbrev pub observation_retention_key : Text
observation_retention_key = t "observation_retention_days"

abbrev pub event_retention_key : Text
event_retention_key = t "event_retention_days"

unfoldable pub resolve_scan_interval : List Setting → ℕ → ℕ × Source
resolve_scan_interval rows env_default =
    override_or (positive (stored_int scan_interval_key rows)) env_default

unfoldable pub resolve_observation_retention : List Setting → ℕ → ℕ × Source
resolve_observation_retention rows env_default =
    resolve_non_negative_int_setting rows observation_retention_key env_default

unfoldable pub resolve_event_retention : List Setting → ℕ → ℕ × Source
resolve_event_retention rows env_default =
    resolve_non_negative_int_setting rows event_retention_key env_default

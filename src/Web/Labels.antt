-- ===== src/Web/Labels.antt =====
-- app/web/formatting.py and the labels of app/web/display.py.
use unifi_netwatcher.Models.{Device}
use unifi_netwatcher.Base.{
  ltb, ◌==◌, if◌then◌else◌, is_empty, Text, t, strip, lower, contains, join, ℕ, ◌-◌, ◌/◌, ◌%◌, ◌^◌,
  Bool, Option, none, some, List, [], ◌∷◌, ◌++◌,
}
use unifi_netwatcher.Base.Decimal.{show}
use unifi_netwatcher.Base.Ints.{ℤ, leb_ℤ, pos}

abbrev hours_text : ℕ → ℕ → Text
hours_text hours rem_min =
    if rem_min == 0
    then show hours ++ t "h ago"
    else show hours ++ (t "h " ++ (show rem_min ++ t "m ago"))

unfoldable pub ago : ℕ → Text
ago seconds =
    let minutes = seconds / 60 in
    let hours = minutes / 60 in
    if ltb seconds 60
    then show seconds ++ t "s ago"
    else if ltb minutes 60
    then show minutes ++ t "m ago"
    else if ltb hours 24
    then hours_text hours (minutes % 60)
    else show (hours / 24) ++ t "d ago"

-- Times in microseconds; a time that is still to come counts as now.
unfoldable pub format_relative_ago : Option ℕ → ℕ → Bool → Text
format_relative_ago none now parens = []
format_relative_ago (some at) now parens =
    let text = ago ((now - at) / 10 ^ 6) in if parens then t "(" ++ (text ++ t ")") else text

-- `a or b`
abbrev pub or_next : Option Text → Text → Text
or_next (some (c ∷ s)) other = c ∷ s
or_next _ other = other

unfoldable pub device_display_name : Device → Text
device_display_name d = or_next d.display_name (or_next d.name (or_next d.hostname d.mac))

abbrev non_empty_parts : List (Option Text) → List Text
non_empty_parts [] = []
non_empty_parts (some (c ∷ s) ∷ rest) = (c ∷ s) ∷ non_empty_parts rest
non_empty_parts (_ ∷ rest) = non_empty_parts rest

unfoldable joined_or : List Text → Text → Text
unfolding join
joined_or [] other = other
joined_or (p ∷ ps) other = join (b' ' ∷ 0xB7 ∷ b' ' ∷ []) (p ∷ ps)

unfoldable pub device_fingerprint_subtitle : Device → Text
unfolding joined_or
device_fingerprint_subtitle d =
    joined_or (non_empty_parts (d.dev_vendor ∷ d.os_name ∷ d.dev_family ∷ [])) (or_next d.vendor [])

-- `_DEV_CAT_ICONS`, in the order of the source.
abbrev dev_cat_icons : List (Text × Text)
dev_cat_icons =
    (t "phone", t "smartphone")
    ∷ (t "smartphone", t "smartphone")
    ∷ (t "mobile", t "smartphone")
    ∷ (t "laptop", t "laptop")
    ∷ (t "computer", t "computer")
    ∷ (t "desktop", t "computer")
    ∷ (t "pc", t "computer")
    ∷ (t "tablet", t "tablet")
    ∷ (t "streaming", t "tv")
    ∷ (t "tv", t "tv")
    ∷ (t "media", t "tv")
    ∷ (t "printer", t "print")
    ∷ (t "print", t "print")
    ∷ (t "camera", t "photo_camera")
    ∷ (t "security", t "photo_camera")
    ∷ (t "game", t "sports_esports")
    ∷ (t "console", t "sports_esports")
    ∷ (t "gaming", t "sports_esports")
    ∷ (t "iot", t "sensors")
    ∷ (t "sensor", t "sensors")
    ∷ (t "appliance", t "kitchen")
    ∷ (t "speaker", t "speaker")
    ∷ (t "watch", t "watch")
    ∷ (t "network", t "router")
    ∷ (t "router", t "router")
    ∷ []

-- The first key that stands in the category.
unfoldable pub icon_for : Text → List (Text × Text) → Text
icon_for cat [] = t "devices_other"
icon_for cat ((key, icon) ∷ rest) =
    let others = icon_for cat rest in if contains cat key then icon else others

unfoldable pub device_icon : Device → Text
device_icon d =
    let cat = lower (strip (or_next d.dev_cat (or_next d.dev_family []))) in
    if is_empty cat then t "devices_other" else icon_for cat dev_cat_icons

pub data ScoreColor : Type 0 where
  on_surface_variant secondary warning error : ScoreColor

unfoldable pub satisfaction_color_class : Option ℤ → ScoreColor
satisfaction_color_class none = on_surface_variant
satisfaction_color_class (some score) =
    if leb_ℤ (pos 90) score then secondary else if leb_ℤ (pos 70) score then warning else error

-- ===== src/Oui/Tests.antt =====
-- A list of one vendor.
use unifi_netwatcher.Models.{OuiEntry}
use unifi_netwatcher.Oui.Upserts.{found_or, upsert_oui_entries_lem, vendor_for}
use unifi_netwatcher.Base.{Text, t, strip, lower, upper, starts_with, ◌≡◌, refl, [], ◌∷◌}
use unifi_netwatcher.Oui.{parse_oui_data, upsert_oui_entries}

abbrev entry : OuiEntry
entry = record { mac_prefix = t "00:22:72"; vendor = t "American Micro" }

abbrev listing : Text
listing = t "\n00-22-72   (hex)\t\tAmerican  Micro\n002272     (base 16)\t\tAmerican  Micro\n"

parsed_entry : parse_oui_data listing ≡ entry ∷ []
unfolding parse_oui_data unifi_netwatcher.Oui.parse_lines unifi_netwatcher.Oui.is_start
    unifi_netwatcher.Base.strip unifi_netwatcher.Oui.contains_oui
    unifi_netwatcher.Oui.starts_with_oui unifi_netwatcher.Oui.oui_prefix unifi_netwatcher.Base.upper
    unifi_netwatcher.Oui.set_entry unifi_netwatcher.Base.lower unifi_netwatcher.Oui.owner_of
    unifi_netwatcher.Oui.squeeze_blanks unifi_netwatcher.Oui.drop_labels
    unifi_netwatcher.Base.starts_with
parsed_entry = refl

upsert_oui_entries_lem_example :
    vendor_for (t "00:22:72") (upsert_oui_entries (entry ∷ []) [])
    ≡ found_or (vendor_for (t "00:22:72") (entry ∷ [])) (vendor_for (t "00:22:72") [])
upsert_oui_entries_lem_example =
    upsert_oui_entries_lem (t "00:22:72") (entry ∷ []) [] ((λ m. m), tt)

-- ===== src/Oui.antt =====
-- app/oui.py: the parser of the IEEE list of vendors, and the upsert of its entries.
mod Tests
pub mod Prefixes
pub mod Upserts
use unifi_netwatcher.Models.{OuiEntry}
use unifi_netwatcher.Base.{
  ltb, leb, ◌==◌, if◌then◌else◌, length, take, drop, is_empty, Text, t, text_eq, strip, lower,
  upper, starts_with, split, ℕ, zero, suc, Bool, true, false, not, ◌&&◌, ◌||◌, Option, none, some,
  List, [], ◌∷◌,
}

abbrev is_upper_hex : ℕ → Bool
is_upper_hex c = (leb b'0' c && leb c b'9') || (leb b'A' c && leb c b'F')

-- `([0-9A-F]{2}[-]){2}([0-9A-F]{2})` at the start of a text, and anywhere in it
unfoldable pub starts_with_oui : Text → Bool
starts_with_oui (a ∷ b ∷ x ∷ c ∷ d ∷ y ∷ e ∷ f ∷ s) =
    is_upper_hex a
    && is_upper_hex b
    && x == b'-'
    && is_upper_hex c
    && is_upper_hex d
    && y == b'-'
    && is_upper_hex e
    && is_upper_hex f
starts_with_oui _ = false

unfoldable pub contains_oui : Text → Bool
contains_oui [] = false
contains_oui (c ∷ s) = starts_with_oui (c ∷ s) || contains_oui s

unfoldable pub is_start : Text → Text → Bool
is_start first_line second_line = is_empty (strip first_line) && contains_oui second_line

-- `re.sub(r"\((hex|base 16)\)", "", line)`; `skip` counts the characters of a match that are left.
unfoldable pub drop_labels : ℕ → Text → Text
drop_labels skip [] = []
drop_labels (suc skip) (c ∷ s) = drop_labels skip s
drop_labels zero (c ∷ s) =
    let after_hex = drop_labels 4 s in
    let after_base = drop_labels 8 s in
    let rest = drop_labels 0 s in
    if starts_with (c ∷ s) (t "(hex)")
    then after_hex
    else if starts_with (c ∷ s) (t "(base 16)")
    then after_base
    else c ∷ rest

-- `re.sub(r"[ \t]+", " ", owner)`; the flag says that the last character was a blank.
unfoldable pub squeeze_blanks : Bool → Text → Text
squeeze_blanks blank [] = []
squeeze_blanks blank (c ∷ s) =
    let inside = squeeze_blanks true s in
    let outside = squeeze_blanks false s in
    if c == b' ' || c == 9 then (if blank then inside else b' ' ∷ inside) else c ∷ outside

unfoldable pub owner_of : Text → Text
owner_of line = squeeze_blanks false (strip (drop 10 (drop_labels 0 line)))

-- `xx:xx:xx` of six characters, else `none`.
abbrev prefix_of : Text → Option Text
prefix_of (a ∷ b ∷ c ∷ d ∷ e ∷ f ∷ []) = some (lower (a ∷ b ∷ b':' ∷ c ∷ d ∷ b':' ∷ e ∷ f ∷ []))
prefix_of _ = none

unfoldable pub oui_prefix : Text → Option Text
oui_prefix line = prefix_of (upper (strip (take 6 line)))

-- `result[key] = owner`: a key that is there keeps its place.
unfoldable pub set_entry : Text → Text → List OuiEntry → List OuiEntry
set_entry key owner [] = record { mac_prefix = key; vendor = owner } ∷ []
set_entry key owner (e ∷ es) =
    let others = set_entry key owner es in
    if text_eq e.mac_prefix key then record e { vendor = owner } ∷ es else e ∷ others

abbrev add_block : Option Text → Text → List OuiEntry → List OuiEntry
add_block none owner result = result
add_block (some key) owner result = set_entry key owner result

-- The two loops look for the next start in the same way, so that one recursion is both.
unfoldable pub parse_lines : List Text → List OuiEntry → List OuiEntry
parse_lines (first ∷ second ∷ third ∷ rest) result =
    let next = parse_lines (second ∷ third ∷ rest) result in
    let after = parse_lines rest (add_block (oui_prefix third) (owner_of second) result) in
    if is_start first second then after else next
parse_lines _ result = result

unfoldable pub parse_oui_data : Text → List OuiEntry
unfolding split
parse_oui_data text = parse_lines (split b'\n' text) []

abbrev pub upsert_batch_size : ℕ
upsert_batch_size = 750

-- `on_conflict_do_update` for the rows of one statement, in their order.
unfoldable pub upsert_batch : List OuiEntry → List OuiEntry → List OuiEntry
upsert_batch [] table = table
upsert_batch (e ∷ batch) table = upsert_batch batch (set_entry e.mac_prefix e.vendor table)

-- `range(0, len(rows), size)`, once for each unit of fuel.
unfoldable pub upsert_batches : ℕ → List OuiEntry → List OuiEntry → List OuiEntry
upsert_batches zero rows table = table
upsert_batches (suc fuel) rows table =
    let rest =
      upsert_batches fuel (drop upsert_batch_size rows)
        (upsert_batch (take upsert_batch_size rows) table) in
    if is_empty rows then table else rest

unfoldable pub upsert_oui_entries : List OuiEntry → List OuiEntry → List OuiEntry
upsert_oui_entries entries table = upsert_batches (length entries) entries table

abbrev pub min_entries : ℕ
min_entries = 1000

abbrev pub max_entries : ℕ
max_entries = 100000

abbrev looks_like_list : Text → Bool
looks_like_list text = starts_with text (t "OUI") || starts_with text (t "#") || (elim text [
  | [] ↦ false
  | c ∷ s ↦ (leb b'0' c && leb c b'9') || (leb b'A' c && leb c b'F') || (leb b'a' c && leb c b'f')
])

-- The table after an update, from the text that is downloaded: `none` is any exception of the
-- download. An exception is logged, and nothing is written.
unfoldable pub update_oui_data : Option Text → List OuiEntry → List OuiEntry
update_oui_data none table = table
update_oui_data (some text) table =
    let entries = parse_oui_data text in
    if not (looks_like_list text)
    then table
    else if ltb (length entries) min_entries || ltb max_entries (length entries)
    then table
    else upsert_oui_entries entries table

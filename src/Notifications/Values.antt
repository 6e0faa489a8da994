-- ===== src/Notifications/Values.antt =====
-- Values of a channel's configuration, as the providers read them.
use unifi_netwatcher.Base.{
  if◌then◌else◌, length, Text, t, text_eq, starts_with, ℕ, zero, suc, ◌-◌, ◌≡◌, refl, true, false,
  List, [], ◌∷◌, ◌++◌,
}
use unifi_netwatcher.Models.Values.{
  Json, Items, Fields, has_key, get, truthy, null, infinity, nan, bool, int, float, str, arr, obj,
  nil, cons, end, field,
}

-- `config.get(key, default)`
unfoldable pub get_default : Fields → Text → Json → Json
get_default config key default = if has_key config key then get config key else default

-- `a or b`
unfoldable pub value_or : Json → Json → Json
value_or v other = if truthy v then v else other

-- `str(v)`: a text is itself; `show` is that of the other values.
unfoldable pub str_of : (Json → Text) → Json → Text
str_of show (str s) = s
str_of show v = show v

-- `s.replace(old, new)`, from left to right: `skip` characters belong to a place that was replaced.
unfoldable pub replace_from : ℕ → Text → Text → Text → Text
replace_from skip old new [] = []
replace_from (suc skip) old new (c ∷ s) = replace_from skip old new s
replace_from zero old new (c ∷ s) = elim (starts_with (c ∷ s) old) [
  | true ↦ new ++ replace_from (length old - 1) old new s
  | false ↦ c ∷ replace_from 0 old new s
]

abbrev pub placeholder : Text
placeholder = t "{{message}}"

unfoldable mutual
  pub replace_placeholders : Text → Json → Json
  replace_placeholders message null = null
  replace_placeholders message infinity = infinity
  replace_placeholders message nan = nan
  replace_placeholders message (bool b) = bool b
  replace_placeholders message (int n) = int n
  replace_placeholders message (float m k) = float m k
  replace_placeholders message (str s) = str (replace_from 0 placeholder message s)
  replace_placeholders message (arr items) = arr (replace_items message items)
  replace_placeholders message (obj fs) = obj (replace_fields message fs)

  pub replace_items : Text → Items → Items
  replace_items message nil = nil
  replace_items message (cons v items) =
      cons (replace_placeholders message v) (replace_items message items)

  pub replace_fields : Text → Fields → Fields
  replace_fields message end = end
  replace_fields message (field k v fs) =
      field k (replace_placeholders message v) (replace_fields message fs)

-- `{**d, key: value}` of headers: a key that is there keeps its place.
unfoldable pub set_header : Text → Text → List (Text × Text) → List (Text × Text)
set_header key value [] = (key, value) ∷ []
set_header key value ((k, v) ∷ rest) =
    let others = set_header key value rest in
    if text_eq k key then (k, value) ∷ rest else (k, v) ∷ others

replace_tests :
    (replace_from 0 (t "{{message}}") (t "hi") (t "a {{message}}{{message}}b") ≡ t "a hihib")
    × (replace_from 0 (t "aa") (t "b") (t "aaa") ≡ t "ba")
unfolding replace_from starts_with
replace_tests = (refl, refl)

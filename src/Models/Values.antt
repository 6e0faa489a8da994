-- ===== src/Models/Values.antt =====
-- The values of Python's `json`: configurations, details of log entries, fields of UniFi clients.
use unifi_netwatcher.Base.{
  if◌then◌else◌, Text, text_eq, ℕ, zero, Bool, true, false, ◌||◌, Option, none, some, List, [], ◌∷◌,
}
use unifi_netwatcher.Base.Ints.{ℤ, pos}

-- `float m k` is m / 10 ^ k; `infinity` and `nan` are what `json.loads` makes of these words.
mutual
  pub data Json : Type 0 where
    null infinity nan : Json
    bool : Bool → Json
    int : ℤ → Json
    float : ℤ → ℕ → Json
    str : Text → Json
    arr : Items → Json
    obj : Fields → Json

  pub data Items : Type 0 where
    nil : Items
    cons : Json → Items → Items

  pub data Fields : Type 0 where
    end : Fields
    field : Text → Json → Fields → Fields

-- A `dict` literal.
abbrev pub fields : List (Text × Json) → Fields
fields [] = end
fields ((k, v) ∷ rest) = field k v (fields rest)

abbrev pub nullable : Option Text → Json
nullable none = null
nullable (some s) = str s

-- `d.get(key)`: the value of a key, or `None`.
unfoldable pub get : Fields → Text → Json
get end key = null
get (field k v rest) key = if text_eq k key then v else get rest key

-- `key in d`
unfoldable pub has_key : Fields → Text → Bool
has_key end key = false
has_key (field k v rest) key = text_eq k key || has_key rest key

-- `bool(v)`
unfoldable pub truthy : Json → Bool
truthy null = false
truthy infinity = true
truthy nan = true
truthy (bool b) = b
truthy (int (pos zero)) = false
truthy (int _) = true
truthy (float (pos zero) k) = false
truthy (float _ k) = true
truthy (str []) = false
truthy (str (c ∷ s)) = true
truthy (arr nil) = false
truthy (arr (cons v vs)) = true
truthy (obj end) = false
truthy (obj (field k v fs)) = true

-- ===== src/Mac.antt =====
-- app/mac.py: the canonical form of a MAC address. The proofs are in the modules below.
mod Tests
pub mod Canonical
use unifi_netwatcher.Base.{
  ℕ, Text, t, Option, none, some, List, [], ◌∷◌, Bool, ◌&&◌, ◌||◌, not, leb, ◌==◌, if◌then◌else◌,
  length, filter, lower, join, is_empty, ◌≡◌, refl,
}

-- The character class `[0-9a-fA-F]`.
unfoldable pub is_hex : ℕ → Bool
is_hex c = (leb b'0' c && leb c b'9') || (leb b'a' c && leb c b'f') || (leb b'A' c && leb c b'F')

-- `re.sub(r"[^0-9a-fA-F]", "", mac).lower()`
unfoldable pub cleaned : Text → Text
unfolding is_hex filter lower
cleaned mac = lower (filter is_hex mac)

-- `cleaned[i : i + 2] for i in range(0, 12, 2)`
unfoldable pub chunk_pairs : Text → List Text
chunk_pairs [] = []
chunk_pairs (a ∷ []) = (a ∷ []) ∷ []
chunk_pairs (a ∷ b ∷ s) = (a ∷ b ∷ []) ∷ chunk_pairs s

-- `none` is Python's `None`, as the argument and as the result.
unfoldable pub normalize_mac : Option Text → Option Text
normalize_mac none = none
normalize_mac (some mac) =
    if is_empty mac
    then none
    else if not (length (cleaned mac) == 12)
    then none
    else some (join (b':' ∷ []) (chunk_pairs (cleaned mac)))

normalize_mac_tests :
    (normalize_mac (some (t "AA-BB-CC-DD-EE-01")) ≡ some (t "aa:bb:cc:dd:ee:01"))
    × (normalize_mac (some (t "aabb.ccdd.ee01")) ≡ some (t "aa:bb:cc:dd:ee:01"))
    × (normalize_mac (some (t "aa:bb:cc")) ≡ none)
    × (normalize_mac (some []) ≡ none)
    × (normalize_mac none ≡ none)
unfolding normalize_mac cleaned chunk_pairs join
normalize_mac_tests = (refl, refl, refl, refl, refl)

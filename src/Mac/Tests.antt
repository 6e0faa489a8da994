-- ===== src/Mac/Tests.antt =====
-- Runs of `normalize_mac`.
use unifi_netwatcher.Base.{Text, t, join, ◌≡◌, refl, some}
use unifi_netwatcher.Mac.{normalize_mac, is_hex}
use unifi_netwatcher.Mac.Canonical.{IsCanonical, normalize_mac-IsCanonical}

abbrev dashed : Text
dashed = t "AA-BB-CC-00-11-2F"

abbrev canonical : Text
canonical = t "aa:bb:cc:00:11:2f"

normalized : normalize_mac (some dashed) ≡ some canonical
unfolding normalize_mac unifi_netwatcher.Mac.cleaned unifi_netwatcher.Base.join
    unifi_netwatcher.Mac.chunk_pairs
normalized = refl

normalize_mac-IsCanonical_example : IsCanonical canonical
normalize_mac-IsCanonical_example = normalize_mac-IsCanonical dashed canonical normalized

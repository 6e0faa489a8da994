-- ===== src/Library/Samples.antt =====
-- An `IpLibrary` for the tests: IPv4 addresses and networks in dotted decimal.
use unifi_netwatcher.Library.Ip.{IpLibrary}
use unifi_netwatcher.Base.{
  ltb, leb, ◌==◌, if◌then◌else◌, Text, split_once, split, ℕ, ◌+◌, ◌-◌, ◌*◌, ◌/◌, ◌%◌, ◌^◌, true,
  ◌||◌, Option, none, some, List, [], ◌∷◌, ◌++◌,
}
use unifi_netwatcher.Base.Decimal.{scan_digits, show}

unfoldable octet : Text → Option ℕ
unfolding scan_digits
octet s = elim (scan_digits 0 true s) [ none ↦ none | some n ↦ if ltb n 256 then some n else none ]

abbrev add_octet : Option ℕ → Option ℕ → Option ℕ
add_octet (some a) (some b) = some (a * 256 + b)
add_octet _ _ = none

unfoldable of_parts : List Text → Option ℕ
unfolding octet
of_parts (a ∷ b ∷ c ∷ d ∷ []) =
    add_octet (add_octet (add_octet (octet a) (octet b)) (octet c)) (octet d)
of_parts _ = none

unfoldable address_of : Text → Option ℕ
unfolding of_parts split
address_of s = of_parts (split b'.' s)

unfoldable network_of : Text × Option Text → Option (ℕ × ℕ)
unfolding address_of octet
network_of (s, none) = elim (address_of s) [ none ↦ none | some a ↦ some (a, 32) ]
network_of (s, some bits) = elim (address_of s) [
  | none ↦ none
  | some a ↦ elim (octet bits) [
    | none ↦ none
    | some n ↦ if leb n 32 then some (a / 2 ^ (32 - n) * 2 ^ (32 - n), n) else none
  ]
]

unfoldable dotted : ℕ → Text
unfolding show
dotted a =
    show (a / 2 ^ 24)
    ++ b'.' ∷ show (a / 2 ^ 16 % 256)
    ++ b'.' ∷ show (a / 2 ^ 8 % 256)
    ++ b'.' ∷ show (a % 256)

-- A network is its first address and the length of its prefix.
unfoldable pub ipv4 : IpLibrary
unfolding split_once address_of network_of dotted show
ipv4 = record {
  Address = ℕ;
  Network = ℕ × ℕ;
  ip_address = λ s. address_of s;
  ip_network = λ s. network_of (split_once b'/' s);
  contains_address = λ n a. a / 2 ^ (32 - n.1) * 2 ^ (32 - n.1) == n.0;
  show_address = λ a. dotted a;
  show_network = λ n. dotted n.0 ++ b'/' ∷ show n.1;
  is_ipv4 = λ a. true;
  is_private = λ a. a / 2 ^ 24 == 10 || a / 2 ^ 16 == 192 * 256 + 168 || a / 2 ^ 24 == 127;
  is_loopback = λ a. a / 2 ^ 24 == 127;
  is_link_local = λ a. a / 2 ^ 16 == 169 * 256 + 254;
  is_multicast = λ a. a / 2 ^ 28 == 14;
  is_reserved = λ a. a / 2 ^ 28 == 15;
  is_unspecified = λ a. a == 0;
}

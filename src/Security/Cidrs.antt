-- ===== src/Security/Cidrs.antt =====
-- app/security/service.py: the loop over a multiline list, and the CIDR list.
pub mod Completeness
pub mod Reading
use unifi_netwatcher.Base.{
  ltb, if◌then◌else◌, is_empty, Text, text_in, strip, lower, splitlines, ℕ, suc, Bool, true, false,
  ◌||◌, Option, none, some, List, [], ◌∷◌, ◌++◌,
}
use unifi_netwatcher.Library.Ip.{IpLibrary}
use unifi_netwatcher.Security.Names.{max_cidr_entries, max_host_entries}
use unifi_netwatcher.Security.Hosts.{accept_host}

-- An entry of `errors`: the limit, or the number of a line and its text.
pub data LineError : Type 0 where
  too_many : ℕ → LineError
  invalid : ℕ → Text → LineError

-- The loop's variables; `seen` holds what `normalized` holds.
pub record Lines : Type 0 where
  pub normalized : List Text
  pub errors : List LineError
  pub non_blank : ℕ

abbrev pub no_lines : Lines
no_lines = record { normalized = []; errors = []; non_blank = 0 }

-- `prepare` trims a line; `accept` gives the canonical form of an entry, or `none`.
module _ (prepare : Text → Text) (accept : Text → Option Text) (limit : ℕ) where
  unfoldable pub add_entry : ℕ → Text → Option Text → Lines → Lines
  add_entry i raw none s = record s { errors = s.errors ++ invalid i (strip raw) ∷ [] }
  add_entry i raw (some canonical) s =
      if text_in canonical s.normalized
      then s
      else record s { normalized = s.normalized ++ canonical ∷ [] }

  -- One line; the flag says that the loop breaks.
  unfoldable pub read_line : ℕ → Text → Lines → Lines × Bool
  read_line i raw s =
      let value = prepare raw in
      let counted = record s { non_blank = suc s.non_blank } in
      if is_empty value
      then (s, false)
      else if ltb limit (suc s.non_blank)
      then (record counted { errors = s.errors ++ too_many limit ∷ [] }, true)
      else (add_entry i raw (accept value) counted, false)

  unfoldable pub read_lines : ℕ → List Text → Lines → Lines
  read_lines i [] s = s
  read_lines i (raw ∷ rest) s =
      let (s', stop) = read_line i raw s in
      let after = read_lines (suc i) rest s' in if stop then s' else after

module _ (ip : IpLibrary) where
  open ip use {Network, ip_address, ip_network, contains_address, show_network}

  abbrev shown : Option Network → Option Text
  shown none = none
  shown (some n) = some (show_network n)

  unfoldable pub accept_cidr : Text → Option Text
  accept_cidr value = shown (ip_network value)

  unfoldable pub parse_and_normalize_cidrs : Text → Lines
  parse_and_normalize_cidrs text =
      read_lines strip accept_cidr max_cidr_entries 1 (splitlines text) no_lines

  abbrev pub trim_lower : Text → Text
  trim_lower raw = lower (strip raw)

  unfoldable pub parse_and_normalize_hosts : Text → Lines
  parse_and_normalize_hosts text =
      read_lines trim_lower (accept_host ip) max_host_entries 1 (splitlines text) no_lines

  abbrev pub in_network : Option Network → ip.Address → Bool
  in_network none a = false
  in_network (some n) a = contains_address n a

  -- The loop over the list; an entry that does not parse is passed over.
  unfoldable pub address_allowed : ip.Address → List Text → Bool
  address_allowed a [] = false
  address_allowed a (cidr ∷ rest) = in_network (ip_network cidr) a || address_allowed a rest

  unfoldable pub client_ip_allowed : Text → List Text → Bool
  client_ip_allowed client_ip cidrs = elim (ip_address client_ip) [
    | none ↦ false
    | some a ↦ address_allowed a cidrs
  ]

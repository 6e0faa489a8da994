-- ===== src/Security/Settings.antt =====
-- app/security/service.py: the settings row, the policy read from it, and the policy cache.
pub mod Coherence
use unifi_netwatcher.Base.{
  if◌then◌else◌, get_or, is_empty, Text, text_eq, strip, lower, Bool, true, false, ◌&&◌, Option,
  none, some, List, [], ◌∷◌,
}
use unifi_netwatcher.Security.Names.{default_username, default_password}

-- The singleton row. A list column holds the JSON text of a list: `none` stands for a text that
-- is not one.
pub record SecuritySettings : Type 0 where
  pub authentication_enabled : Bool
  pub authentication_username : Text
  pub authentication_password_hash : Text
  pub default_credentials_active : Bool
  pub cidr_restriction_enabled : Bool
  pub allowed_cidrs : Option (List Text)
  pub host_restriction_enabled : Bool
  pub allowed_hosts : Option (List Text)

pub record SecurityPolicy : Type 0 where
  pub authentication_enabled : Bool
  pub authentication_username : Text
  pub authentication_password_hash : Text
  pub default_credentials_active : Bool
  pub cidr_restriction_enabled : Bool
  pub allowed_cidrs : List Text
  pub host_restriction_enabled : Bool
  pub allowed_hosts : List Text

-- The `pwdlib` hasher; `verify_password` maps an exception to `False`.
pub record Hasher : Type 0 where
  pub hash_password : Text → Text
  pub verify_password : Text → Text → Bool

unfoldable pub get_allowed_cidrs_list : SecuritySettings → List Text
get_allowed_cidrs_list row = get_or row.allowed_cidrs []

-- `str(x).strip().lower()` of the entries that are not blank
unfoldable pub clean_hosts : List Text → List Text
clean_hosts [] = []
clean_hosts (x ∷ xs) =
    let rest = clean_hosts xs in if is_empty (strip x) then rest else lower (strip x) ∷ rest

unfoldable pub get_allowed_hosts_list : SecuritySettings → List Text
get_allowed_hosts_list row = clean_hosts (get_or row.allowed_hosts [])

unfoldable pub row_to_policy : SecuritySettings → SecurityPolicy
row_to_policy row = record {
  authentication_enabled = row.authentication_enabled;
  authentication_username = row.authentication_username;
  authentication_password_hash = row.authentication_password_hash;
  default_credentials_active = row.default_credentials_active;
  cidr_restriction_enabled = row.cidr_restriction_enabled;
  allowed_cidrs = get_allowed_cidrs_list row;
  host_restriction_enabled = row.host_restriction_enabled;
  allowed_hosts = get_allowed_hosts_list row;
}

-- The table, which has at most the row with id 1, and `_policy_cache`.
pub record Store : Type 0 where
  pub row : Option SecuritySettings
  pub cache : Option SecurityPolicy

unfoldable pub invalidate_security_cache : Store → Store
invalidate_security_cache s = record s { cache = none }

unfoldable pub bind_cache : SecuritySettings → Store → Store
bind_cache row s = record s { cache = some (row_to_policy row) }

module _ (h : Hasher) where
  unfoldable pub default_settings : SecuritySettings
  default_settings = record {
    authentication_enabled = true;
    authentication_username = default_username;
    authentication_password_hash = h.hash_password default_password;
    default_credentials_active = true;
    cidr_restriction_enabled = false;
    allowed_cidrs = some [];
    host_restriction_enabled = true;
    allowed_hosts = some [];
  }

  -- `raced` is the row that another process inserted after the query, if one did: then the commit
  -- fails with an `IntegrityError` and that row is read.
  abbrev row_or_default : Option SecuritySettings → Option SecuritySettings → SecuritySettings
  row_or_default (some existing) raced = existing
  row_or_default none (some other) = other
  row_or_default none none = default_settings

  unfoldable pub ensure_security_settings :
      Option SecuritySettings → Store → SecuritySettings × Store
  ensure_security_settings raced s =
      let row = row_or_default s.row raced in (row, bind_cache row (record s { row = some row }))

  abbrev load_policy : Option SecuritySettings → Store → SecurityPolicy × Store
  load_policy raced s =
      let (row, s') = ensure_security_settings raced s in (row_to_policy row, bind_cache row s')

  abbrev cached_or : Option SecurityPolicy → Store → SecurityPolicy × Store → SecurityPolicy × Store
  cached_or none s loaded = loaded
  cached_or (some policy) s loaded = (policy, s)

  unfoldable pub get_security_policy :
      Option SecuritySettings → Bool → Store → SecurityPolicy × Store
  get_security_policy raced use_cache s =
      let loaded = load_policy raced s in if use_cache then cached_or s.cache s loaded else loaded

-- `secrets.compare_digest` compares; `verify_password` is called on every path.
unfoldable pub authenticate : Hasher → SecurityPolicy → Text → Text → Bool
authenticate h policy username password =
    text_eq username policy.authentication_username
    && h.verify_password password policy.authentication_password_hash

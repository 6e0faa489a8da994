-- ===== src/Security/Update.antt =====
-- app/security/service.py: the changes of the policy, and their previews.
pub mod Changes
pub mod Lockouts
use unifi_netwatcher.Base.{
  ltb, if◌then◌else◌, length, is_empty, Text, text_eq, strip, Bool, true, false, not, ◌&&◌, ◌||◌,
  Option, some, List, [], ◌∷◌, ◌++◌, map,
}
use unifi_netwatcher.Library.Ip.{IpLibrary}
use unifi_netwatcher.Security.Names.{
  UsernameError, validate_username, min_password_length, lockout_confirmation_phrase, only_if,
}
use unifi_netwatcher.Security.Hosts.{normalize_request_host, host_allowed}
use unifi_netwatcher.Security.Cidrs.{
  LineError, Lines, parse_and_normalize_cidrs, parse_and_normalize_hosts, client_ip_allowed,
}
use unifi_netwatcher.Security.Settings.{
  SecuritySettings, Store, Hasher, ensure_security_settings, bind_cache, invalidate_security_cache,
}

pub data AuthError : Type 0 where
  username_error : UsernameError → AuthError
  current_required current_incorrect confirm_disable_required : AuthError
  confirmation_mismatch password_too_short : AuthError

pub record AuthUpdate : Type 0 where
  pub authentication_enabled : Bool
  pub username : Text
  pub current_password : Text
  pub new_password : Text
  pub confirm_password : Text
  pub confirm_disable : Bool

pub record AuthUpdateResult : Type 0 where
  pub ok : Bool
  pub errors : List AuthError

-- The write of a changed row: commit, refresh, and a new cache.
unfoldable pub save_settings : SecuritySettings → Store → Store
unfolding bind_cache invalidate_security_cache
save_settings row s = bind_cache row (invalidate_security_cache (record s { row = some row }))

module _ (h : Hasher) (u : AuthUpdate) where
  abbrev pub new_username : Text
  new_username = strip u.username

  abbrev pub changing_password : Bool
  changing_password = not (is_empty u.new_password)

  abbrev pub disabling : SecuritySettings → Bool
  disabling row = row.authentication_enabled && not u.authentication_enabled

  abbrev pub needs_current : SecuritySettings → Bool
  needs_current row =
      not (text_eq new_username row.authentication_username) || changing_password || disabling row

  unfoldable pub current_errors : SecuritySettings → List AuthError
  current_errors row =
      if not (needs_current row)
      then []
      else if is_empty u.current_password
      then current_required ∷ []
      else only_if (not (h.verify_password u.current_password row.authentication_password_hash))
          current_incorrect

  unfoldable pub password_errors : List AuthError
  password_errors =
      if changing_password
      then only_if (not (text_eq u.new_password u.confirm_password)) confirmation_mismatch
        ++ only_if (ltb (length u.new_password) min_password_length) password_too_short
      else []

  unfoldable pub auth_errors : SecuritySettings → List AuthError
  auth_errors row =
      map username_error (validate_username new_username)
      ++ (current_errors row
          ++ (only_if (disabling row && not u.confirm_disable) confirm_disable_required
              ++ password_errors))

  unfoldable pub changed_auth : SecuritySettings → SecuritySettings
  changed_auth row =
      let named = record row {
        authentication_username = new_username;
        authentication_enabled = u.authentication_enabled;
      } in
      if changing_password
      then record named {
        authentication_password_hash = h.hash_password u.new_password;
        default_credentials_active = false;
      }
      else named

  unfoldable pub update_authentication : Option SecuritySettings → Store → AuthUpdateResult × Store
  update_authentication raced s =
      let (row, s') = ensure_security_settings h raced s in
      let errors = auth_errors row in
      if is_empty errors
      then (record { ok = true; errors = [] }, save_settings (changed_auth row) s')
      else (record { ok = false; errors = errors }, s')

pub data ListError : Type 0 where
  line_error : LineError → ListError
  empty_allowlist not_covered : ListError

pub record ListUpdateResult : Type 0 where
  pub ok : Bool
  pub errors : List ListError
  pub normalized : List Text

-- `not allow_lockout or lockout_confirmation.strip() != LOCKOUT_CONFIRMATION_PHRASE`, negated
unfoldable pub lockout_confirmed : Bool → Text → Bool
lockout_confirmed allow_lockout confirmation =
    allow_lockout && text_eq (strip confirmation) lockout_confirmation_phrase

pub record CidrUpdate : Type 0 where
  pub cidr_restriction_enabled : Bool
  pub cidrs_text : Text
  pub client_ip : Text
  pub allow_lockout : Bool
  pub lockout_confirmation : Text

pub record HostsUpdate : Type 0 where
  pub host_restriction_enabled : Bool
  pub hosts_text : Text
  pub request_host : Text
  pub allow_lockout : Bool
  pub lockout_confirmation : Text

module _ (ip : IpLibrary) (h : Hasher) where
  unfoldable pub cidr_errors : CidrUpdate → Lines → List ListError
  cidr_errors u parsed =
      map line_error parsed.errors
      ++ only_if
          (u.cidr_restriction_enabled && is_empty parsed.normalized && is_empty parsed.errors)
          empty_allowlist

  unfoldable pub update_cidr :
      CidrUpdate → Option SecuritySettings → Store → ListUpdateResult × Store
  update_cidr u raced s =
      let (row, s') = ensure_security_settings h raced s in
      let parsed = parse_and_normalize_cidrs ip u.cidrs_text in
      let errors = cidr_errors u parsed in
      let will_remain = client_ip_allowed ip u.client_ip parsed.normalized in
      let changed = record row {
        cidr_restriction_enabled = u.cidr_restriction_enabled;
        allowed_cidrs = some parsed.normalized;
      } in
      if not (is_empty errors)
      then (record { ok = false; errors = errors; normalized = parsed.normalized }, s')
      else if u.cidr_restriction_enabled
          && not will_remain
          && not (lockout_confirmed u.allow_lockout u.lockout_confirmation)
      then (record { ok = false; errors = not_covered ∷ []; normalized = parsed.normalized }, s')
      else (
        record { ok = true; errors = []; normalized = parsed.normalized },
        save_settings changed s',
      )

  unfoldable pub update_hosts :
      HostsUpdate → Option SecuritySettings → Store → ListUpdateResult × Store
  update_hosts u raced s =
      let (row, s') = ensure_security_settings h raced s in
      let parsed = parse_and_normalize_hosts ip u.hosts_text in
      let effective = normalize_request_host (some u.request_host) in
      let will_remain = host_allowed ip effective true parsed.normalized in
      let changed = record row {
        host_restriction_enabled = u.host_restriction_enabled;
        allowed_hosts = some parsed.normalized;
      } in
      if not (is_empty parsed.errors)
      then (
        record {
          ok = false;
          errors = map line_error parsed.errors;
          normalized = parsed.normalized;
        },
        s',
      )
      else if u.host_restriction_enabled
          && not will_remain
          && not (lockout_confirmed u.allow_lockout u.lockout_confirmation)
      then (record { ok = false; errors = not_covered ∷ []; normalized = parsed.normalized }, s')
      else (
        record { ok = true; errors = []; normalized = parsed.normalized },
        save_settings changed s',
      )

pub record Preview : Type 0 where
  pub valid : Bool
  pub normalized : List Text
  pub effective : Text
  pub client_will_remain_allowed : Bool
  pub errors : List ListError

module _ (ip : IpLibrary) where
  unfoldable pub preview_cidrs : Text → Text → Bool → Preview
  preview_cidrs text client_ip enabled =
      let parsed = parse_and_normalize_cidrs ip text in
      let valid = is_empty parsed.errors in
      let empty = enabled && valid && is_empty parsed.normalized in
      record {
        valid = valid && not empty;
        normalized = parsed.normalized;
        effective = client_ip;
        client_will_remain_allowed =
            if enabled && not (is_empty parsed.normalized)
            then client_ip_allowed ip client_ip parsed.normalized
            else not enabled;
        errors = map line_error parsed.errors ++ only_if empty empty_allowlist;
      }

  unfoldable pub preview_hosts : Text → Text → Bool → Preview
  preview_hosts text request_host enabled =
      let parsed = parse_and_normalize_hosts ip text in
      let valid = is_empty parsed.errors in
      let effective = normalize_request_host (some request_host) in
      record {
        valid = valid;
        normalized = parsed.normalized;
        effective = effective;
        client_will_remain_allowed =
            if enabled && valid then host_allowed ip effective true parsed.normalized else true;
        errors = map line_error parsed.errors;
      }

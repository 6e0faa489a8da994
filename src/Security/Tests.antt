-- ===== src/Security/Tests.antt =====
-- Runs of the access policy: a deployment, a policy, requests, and changes of the settings.
mod Updates
mod Secrets
use unifi_netwatcher.Security.Settings.{
  Hasher, SecuritySettings, SecurityPolicy, Store, get_security_policy, ensure_security_settings,
  row_to_policy,
}
use unifi_netwatcher.Library.Samples.{ipv4}
use unifi_netwatcher.Library.Url.{Url}
use unifi_netwatcher.Base.{
  ◌==◌, ==_refl, is_empty, All, Text, t, text_eq, text_in, strip, starts_with, ok, ℕ, ◌≤◌, ◌≡◌,
  refl, ◌≢◌, Bool, true, false, ◌&&◌, none, some, List, [], ◌∷◌, arith,
}
use unifi_netwatcher.Security.Access.{
  Deployment, Request, dispatch, is_public_path, requires_auth, effective_client_ip, call_next,
}
use unifi_netwatcher.Security.Limiter.Buckets.{IsRecent}
use unifi_netwatcher.Security.Limiter.{
  bucket_of, Failures, record_auth_failure, auth_failures_exceeded, clear_auth_failures,
}
use unifi_netwatcher.Security.Limiter.Lockout.{record_all, others_unaffected}
use unifi_netwatcher.Security.Access.Limits.{locked_out}
use unifi_netwatcher.Security.Update.{
  AuthUpdate, update_authentication, CidrUpdate, update_cidr, lockout_confirmed, HostsUpdate,
  update_hosts, changed_auth,
}
use unifi_netwatcher.Security.Cidrs.{
  parse_and_normalize_hosts, Lines, read_lines, accept_cidr, no_lines,
}
use unifi_netwatcher.Security.Update.Changes.{
  new_password_works, IsPermitted, update_authentication-IsPermitted,
}
use unifi_netwatcher.Security.Update.Lockouts.{cidr_keeps_client, hosts_keep_host}
use unifi_netwatcher.Security.Names.{max_cidr_entries}
use unifi_netwatcher.Security.Cidrs.Completeness.{IsRead, read_lines-Complete}
use unifi_netwatcher.Security.Secrets.{
  Fernet, JsonText, decrypt_config, rekey_notification_secrets, migrate_notification_secrets,
}
use unifi_netwatcher.Models.Values.{Fields, field, obj, str, end}
use unifi_netwatcher.Models.{NotificationChannel}
use unifi_netwatcher.Security.Secrets.Migration.{
  Reliable, SameConfigs, IsReliable, rekey-SameConfigs, migrate-SameConfigs,
}
use unifi_netwatcher.Security.Cidrs.Reading.{read_lines-normalized}
use mathlib.Core.Path.{subst}

abbrev no_url : Url
no_url = record { scheme = []; netloc = []; hostname = none; port = ok none; path = []; query = [] }

-- `text_eq`, which computes here.
abbrev same_text : Text → Text → Bool
same_text [] [] = true
same_text [] (d ∷ b) = false
same_text (c ∷ a) [] = false
same_text (c ∷ a) (d ∷ b) = c == d && same_text a b

same_text_refl : (s : Text) → same_text s s ≡ true
same_text_refl [] = refl
same_text_refl (c ∷ s) = rw (==_refl c, same_text_refl s) refl

-- A hasher for the tests.
abbrev plain_hasher : Hasher
plain_hasher = record {
  hash_password = λ s. b'#' ∷ s;
  verify_password = λ s h. same_text (b'#' ∷ s) h;
}

abbrev deployment : Deployment
deployment = record {
  urlparse = λ s. ok no_url;
  public_origin = [];
  recovery_bypass = false;
  b64decode = λ s. some s;
  hasher = plain_hasher;
}

abbrev settings_row : SecuritySettings
settings_row = record {
  authentication_enabled = true;
  authentication_username = t "bob";
  authentication_password_hash = t "#secret";
  default_credentials_active = true;
  cidr_restriction_enabled = true;
  allowed_cidrs = some (t "10.0.0.0/8" ∷ []);
  host_restriction_enabled = true;
  allowed_hosts = some [];
}

abbrev policy : SecurityPolicy
policy = record {
  authentication_enabled = true;
  authentication_username = t "bob";
  authentication_password_hash = t "#secret";
  default_credentials_active = true;
  cidr_restriction_enabled = true;
  allowed_cidrs = t "10.0.0.0/8" ∷ [];
  host_restriction_enabled = true;
  allowed_hosts = [];
}

abbrev request : Request
request = record {
  method = t "GET";
  path = t "/devices";
  client_host = some (t "10.0.0.9");
  host_header = some (t "localhost");
  origin_header = none;
  authorization_header = some (t "Basic bob:secret");
  url_hostname = none;
  url_netloc = [];
  url_scheme = t "http";
}

private_path : is_public_path request.path ≡ false
unfolding is_public_path unifi_netwatcher.Base.text_in text_eq unifi_netwatcher.Base.starts_with
private_path = refl

abbrev ten_times : List ℕ
ten_times = 1 ∷ 2 ∷ 3 ∷ 4 ∷ 5 ∷ 6 ∷ 7 ∷ 8 ∷ 9 ∷ 10 ∷ []

asks_password : requires_auth ipv4 deployment policy request ≡ true
unfolding requires_auth unifi_netwatcher.Base.starts_with
asks_password = refl

has_client : is_empty (effective_client_ip request) ≡ false
unfolding effective_client_ip
has_client = refl

times-IsRecent : All (λ x. (x ≤ 20) × IsRecent 20 x) ten_times
times-IsRecent = (
  (omega arith, omega arith),
  (
    (omega arith, omega arith),
    (
      (omega arith, omega arith),
      (
        (omega arith, omega arith),
        (
          (omega arith, omega arith),
          (
            (omega arith, omega arith),
            (
              (omega arith, omega arith),
              (
                (omega arith, omega arith),
                ((omega arith, omega arith), ((omega arith, omega arith), tt)),
              ),
            ),
          ),
        ),
      ),
    ),
  ),
)

locked_out_example :
    (dispatch ipv4 deployment policy request 20 21
      (record_all (effective_client_ip request) ten_times [])).0
    ≢ ok (call_next (t "bob"))
locked_out_example =
    locked_out ipv4 deployment policy request 20 21 ten_times [] (t "bob") private_path
      asks_password has_client times-IsRecent (omega arith)

strangers : text_eq (t "10.0.0.9") (t "10.0.0.8") ≡ false
unfolding text_eq
strangers = refl

abbrev one_failure : Failures
one_failure = (t "10.0.0.8", 3 ∷ []) ∷ []

others_unaffected_example :
    (bucket_of (t "10.0.0.8") (record_auth_failure (t "10.0.0.9") 7 one_failure)
      ≡ bucket_of (t "10.0.0.8") one_failure)
    × (bucket_of (t "10.0.0.8") (auth_failures_exceeded (t "10.0.0.9") 7 one_failure).1
        ≡ bucket_of (t "10.0.0.8") one_failure)
    × (bucket_of (t "10.0.0.8") (clear_auth_failures (t "10.0.0.9") one_failure)
        ≡ bucket_of (t "10.0.0.8") one_failure)
others_unaffected_example = others_unaffected (t "10.0.0.9") (t "10.0.0.8") 7 one_failure strangers

abbrev two_lines : List Text
two_lines = t "10.0.0.0/8" ∷ t " " ∷ t "10.0.0.0/8" ∷ []

abbrev read_cidrs : Lines
read_cidrs = read_lines strip (accept_cidr ipv4) max_cidr_entries 1 two_lines no_lines

read_without_error : is_empty read_cidrs.errors ≡ true
unfolding read_lines unifi_netwatcher.Security.Cidrs.read_line strip
    unifi_netwatcher.Security.Cidrs.add_entry accept_cidr ipv4 text_in text_eq
read_without_error = refl

-- ===== src/Security/Tests/Updates.antt =====
-- Changes of the settings.
use unifi_netwatcher.Security.Tests.{
  settings_row, plain_hasher, request, deployment, same_text_refl,
}
use unifi_netwatcher.Security.Settings.{
  Hasher, SecurityPolicy, Store, authenticate, get_security_policy, ensure_security_settings,
  row_to_policy,
}
use unifi_netwatcher.Library.Samples.{ipv4}
use unifi_netwatcher.Base.{
  any, all, All, Text, t, text_eq, text_in, is_space, drop_while, rstrip_by, strip, lower_char,
  lower, starts_with, has_char, count_char, split_once, split, is_line_break, split_lines,
  splitlines, ok, ◌≡◌, refl, true, false, none, some, [], ◌∷◌,
}
use unifi_netwatcher.Security.Access.{effective_client_ip, passes_cidr, passes_host}
use unifi_netwatcher.Security.Update.{
  AuthUpdate, update_authentication, CidrUpdate, update_cidr, lockout_confirmed, HostsUpdate,
  update_hosts,
}
use unifi_netwatcher.Security.Cidrs.{
  parse_and_normalize_hosts, Lines, read_lines, accept_cidr, no_lines,
}
use unifi_netwatcher.Security.Update.Changes.{new_password_works}
use unifi_netwatcher.Security.Update.Lockouts.{cidr_keeps_client, hosts_keep_host}
use unifi_netwatcher.Security.Names.{max_cidr_entries}

abbrev change : AuthUpdate
change = record {
  authentication_enabled = true;
  username = t "bob";
  current_password = t "secret";
  new_password = t "longer than 12";
  confirm_password = t "longer than 12";
  confirm_disable = false;
}

abbrev store : Store
store = record { row = some settings_row; cache = none }

hasher_verifies :
    (password : Text)
    → plain_hasher.verify_password password (plain_hasher.hash_password password) ≡ true
hasher_verifies password = same_text_refl (b'#' ∷ password)

changed : (update_authentication plain_hasher change none store).0.ok ≡ true
unfolding update_authentication unifi_netwatcher.Security.Update.auth_errors
    unifi_netwatcher.Security.Names.validate_username strip unifi_netwatcher.Base.has_char
    unifi_netwatcher.Security.Names.has_control unifi_netwatcher.Security.Names.matches_username
    unifi_netwatcher.Security.Names.is_username_char unifi_netwatcher.Security.Update.current_errors
    text_eq ensure_security_settings unifi_netwatcher.Security.Update.password_errors
changed = refl

new_password_works_example :
    (authenticate plain_hasher
        (get_security_policy plain_hasher none true
          (update_authentication plain_hasher change none store).1).0
        (strip change.username)
        change.new_password
      ≡ true)
    × ((get_security_policy plain_hasher none true
          (update_authentication plain_hasher change none store).1).0.default_credentials_active
        ≡ false)
new_password_works_example =
    new_password_works plain_hasher change none none true store hasher_verifies refl changed

abbrev networks : CidrUpdate
networks = record {
  cidr_restriction_enabled = true;
  cidrs_text = t "10.0.0.0/8";
  client_ip = t "10.0.0.9";
  allow_lockout = false;
  lockout_confirmation = [];
}

networks_saved : (update_cidr ipv4 plain_hasher networks none store).0.ok ≡ true
unfolding update_cidr unifi_netwatcher.Security.Update.cidr_errors
    unifi_netwatcher.Security.Cidrs.parse_and_normalize_cidrs read_lines splitlines
    unifi_netwatcher.Security.Cidrs.read_line strip unifi_netwatcher.Security.Cidrs.add_entry
    accept_cidr ipv4 text_in unifi_netwatcher.Security.Cidrs.client_ip_allowed
    unifi_netwatcher.Security.Cidrs.address_allowed
networks_saved = refl

unconfirmed : lockout_confirmed false [] ≡ false
unfolding lockout_confirmed
unconfirmed = refl

same_client : effective_client_ip request ≡ networks.client_ip
unfolding effective_client_ip
same_client = refl

cidr_keeps_client_example :
    passes_cidr ipv4 deployment
      (get_security_policy plain_hasher none true
        (update_cidr ipv4 plain_hasher networks none store).1).0
      request
    ≡ true
cidr_keeps_client_example =
    cidr_keeps_client ipv4 plain_hasher deployment request networks none none true store same_client
      networks_saved unconfirmed

abbrev hosts : HostsUpdate
hosts = record {
  host_restriction_enabled = true;
  hosts_text = t "a.b";
  request_host = t "localhost";
  allow_lockout = false;
  lockout_confirmation = [];
}

hosts_saved : (update_hosts ipv4 plain_hasher hosts none store).0.ok ≡ true
unfolding update_hosts parse_and_normalize_hosts unifi_netwatcher.Security.Cidrs.read_lines
    unifi_netwatcher.Base.splitlines unifi_netwatcher.Security.Cidrs.read_line lower strip
    unifi_netwatcher.Security.Cidrs.add_entry unifi_netwatcher.Security.Hosts.accept_host
    unifi_netwatcher.Base.has_char unifi_netwatcher.Security.Hosts.normalize_request_host
    unifi_netwatcher.Security.Hosts.strip_port starts_with count_char
    unifi_netwatcher.Security.Hosts.ends_with_dot ipv4 unifi_netwatcher.Security.Hosts.is_dns_name
    unifi_netwatcher.Base.Decimal.scan_digits unifi_netwatcher.Base.Decimal.show
    unifi_netwatcher.Base.all any drop_while unifi_netwatcher.Base.is_line_break is_space lower_char
    rstrip_by split unifi_netwatcher.Base.split_lines split_once text_eq text_in
    unifi_netwatcher.Security.Hosts.host_allowed unifi_netwatcher.Security.Hosts.is_dns_label
    unifi_netwatcher.Security.Hosts.is_private_or_loopback_ip
    unifi_netwatcher.Security.Settings.bind_cache unifi_netwatcher.Security.Settings.clean_hosts
    unifi_netwatcher.Security.Settings.default_settings ensure_security_settings
    unifi_netwatcher.Security.Settings.get_allowed_cidrs_list
    unifi_netwatcher.Security.Settings.get_allowed_hosts_list
    unifi_netwatcher.Security.Settings.invalidate_security_cache row_to_policy lockout_confirmed
    unifi_netwatcher.Security.Update.save_settings
hosts_saved = refl

hosts_trimmed : All (λ x. strip x ≡ x) (parse_and_normalize_hosts ipv4 hosts.hosts_text).normalized
unfolding parse_and_normalize_hosts unifi_netwatcher.Security.Cidrs.read_lines
    unifi_netwatcher.Base.splitlines unifi_netwatcher.Security.Cidrs.read_line lower strip
    unifi_netwatcher.Security.Cidrs.add_entry unifi_netwatcher.Security.Hosts.accept_host
    unifi_netwatcher.Base.has_char unifi_netwatcher.Security.Hosts.normalize_request_host
    unifi_netwatcher.Security.Hosts.strip_port starts_with count_char
    unifi_netwatcher.Security.Hosts.ends_with_dot ipv4 unifi_netwatcher.Security.Hosts.is_dns_name
    unifi_netwatcher.Security.Hosts.is_dns_label unifi_netwatcher.Base.Decimal.scan_digits
    unifi_netwatcher.Base.Decimal.show unifi_netwatcher.Base.all any drop_while
    unifi_netwatcher.Base.is_line_break is_space lower_char rstrip_by split
    unifi_netwatcher.Base.split_lines split_once text_eq text_in
hosts_trimmed = (refl, tt)

hosts_keep_host_example :
    passes_host ipv4 deployment
      (get_security_policy plain_hasher none true
        (update_hosts ipv4 plain_hasher hosts none store).1).0
      request
    ≡ true
hosts_keep_host_example =
    hosts_keep_host ipv4 plain_hasher deployment request hosts none none true store refl
      hosts_trimmed hosts_saved unconfirmed

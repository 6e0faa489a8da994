-- ===== src/Security/Update/Lockouts.antt =====
-- What a change of an access list leaves reachable.
use unifi_netwatcher.Security.Settings.{
  row_to_policy, get_allowed_cidrs_list, get_allowed_hosts_list, clean_hosts,
}
use unifi_netwatcher.Base.{
  Bool-cases, get_or, is_empty, All, All-In, All-of_In, Text, strip, lower_char, lower, splitlines,
  ◌≡◌, refl, inl, inr, Bool, true, false, not, ◌&&◌, Option, some, List, [], ◌∷◌, map, arith,
}
use unifi_netwatcher.Library.Ip.{IpLibrary}
use unifi_netwatcher.Security.Settings.{
  Hasher, SecuritySettings, Store, ensure_security_settings, bind_cache, clean_hosts,
  invalidate_security_cache, get_security_policy,
}
use unifi_netwatcher.Security.Update.{
  CidrUpdate, update_cidr, parse_and_normalize_cidrs, save_settings, lockout_confirmed, cidr_errors,
  HostsUpdate, update_hosts,
}
use unifi_netwatcher.Security.Cidrs.{client_ip_allowed, parse_and_normalize_hosts, trim_lower}
use unifi_netwatcher.Security.Access.{
  passes_cidr, Deployment, Request, effective_client_ip, passes_host, or_else,
}
use unifi_netwatcher.Security.Hosts.{accept_host, normalize_request_host, host_allowed}
use unifi_netwatcher.Security.Settings.Coherence.{get_security_policy-present}
use unifi_netwatcher.Security.Update.Changes.{save_settings-IsCoherent}
use unifi_netwatcher.Security.Cidrs.Reading.{read_lines-normalized}
use unifi_netwatcher.Security.Names.{max_host_entries}

row-save_settings : (row : SecuritySettings) (s : Store) → (save_settings row s).row ≡ some row
unfolding save_settings bind_cache invalidate_security_cache
row-save_settings row s = refl

lower_idempotent : (s : Text) → lower (lower s) ≡ lower s
unfolding lower lower_char
lower_idempotent [] = refl
lower_idempotent (c ∷ s) = ground (arith, lower_idempotent s)

module _ (ip : IpLibrary) (h : Hasher) where
  -- The row after a change of the networks.
  abbrev with_cidrs : CidrUpdate → SecuritySettings → SecuritySettings
  with_cidrs u row = record row {
    cidr_restriction_enabled = u.cidr_restriction_enabled;
    allowed_cidrs = some (parse_and_normalize_cidrs ip u.cidrs_text).normalized;
  }

  update_cidr-saved :
      (u : CidrUpdate) (raced : Option SecuritySettings) (s : Store)
      → (update_cidr ip h u raced s).0.ok ≡ true
      → ((update_cidr ip h u raced s).1
          ≡ save_settings
              (with_cidrs u (ensure_security_settings h raced s).0)
              (ensure_security_settings h raced s).1)
        × ((u.cidr_restriction_enabled ≡ true)
            → lockout_confirmed u.allow_lockout u.lockout_confirmation ≡ false
            → client_ip_allowed ip u.client_ip
                (parse_and_normalize_cidrs ip u.cidrs_text).normalized
              ≡ true)
  unfolding update_cidr
  update_cidr-saved u raced s good =
      elim (Bool-cases
        (is_empty (cidr_errors ip h u (parse_and_normalize_cidrs ip u.cidrs_text)))) [
          | inr e ↦ absurd (ground (arith, rw e at good))
          | inl e ↦
              elim (Bool-cases (
                u.cidr_restriction_enabled
                && not (
                    client_ip_allowed ip u.client_ip
                      (parse_and_normalize_cidrs ip u.cidrs_text).normalized)
                && not (lockout_confirmed u.allow_lockout u.lockout_confirmation))) [
                  | inl q ↦ absurd (ground (arith, rw (e, q) at good))
                  | inr q ↦ (rw (e, q) refl, λ on no. ground (arith, q, on, no))
                ]
        ]

  -- A change of the networks that succeeds without the confirmed override lets the client's address
  -- through afterwards: the middleware's test of the networks passes for every request from it.
  pub cidr_keeps_client :
      (d : Deployment) (r : Request) (u : CidrUpdate) (raced later : Option SecuritySettings)
      (use_cache : Bool) (s : Store)
      → effective_client_ip r ≡ u.client_ip
      → (update_cidr ip h u raced s).0.ok ≡ true
      → lockout_confirmed u.allow_lockout u.lockout_confirmation ≡ false
      → passes_cidr ip d (get_security_policy h later use_cache (update_cidr ip h u raced s).1).0 r
        ≡ true
  unfolding passes_cidr
  cidr_keeps_client d r u raced later use_cache s same good unsure =
      let row = with_cidrs u (ensure_security_settings h raced s).0 in
      let (saved, safe) = update_cidr-saved u raced s good in
      let s' = (ensure_security_settings h raced s).1 in
      let policy =
        get_security_policy-present h later use_cache (save_settings row s') row
          (save_settings-IsCoherent row s') (row-save_settings row s') in
      rw (saved, policy, same)
        (unfold row_to_policy get_allowed_cidrs_list in
          elim (Bool-cases u.cidr_restriction_enabled) [
            | inl on ↦ ground (arith, safe on unsure)
            | inr off ↦ rw off refl
          ])

  cleaned_twice :
      (xs : List Text)
      → All (λ x. (is_empty x ≡ false) × (strip x ≡ x)) xs
      → map lower (clean_hosts xs) ≡ map lower xs
  unfolding clean_hosts
  cleaned_twice [] k = refl
  cleaned_twice (x ∷ xs) k = rw (k.0.1, k.0.0, cleaned_twice xs k.1, lower_idempotent x) refl

  accept_host-nonempty : (v c : Text) → accept_host ip v ≡ some c → is_empty c ≡ false
  unfolding accept_host
  accept_host-nonempty v c q = elim (Bool-cases (is_empty (normalize_request_host (some v)))) [
    | inl e ↦ absurd (ground (arith, rw e at q))
    | inr e ↦ ground (arith, e, q)
  ]

  abbrev with_hosts : HostsUpdate → SecuritySettings → SecuritySettings
  with_hosts u row = record row {
    host_restriction_enabled = u.host_restriction_enabled;
    allowed_hosts = some (parse_and_normalize_hosts ip u.hosts_text).normalized;
  }

  update_hosts-saved :
      (u : HostsUpdate) (raced : Option SecuritySettings) (s : Store)
      → (update_hosts ip h u raced s).0.ok ≡ true
      → ((update_hosts ip h u raced s).1
          ≡ save_settings
              (with_hosts u (ensure_security_settings h raced s).0)
              (ensure_security_settings h raced s).1)
        × ((u.host_restriction_enabled ≡ true)
            → lockout_confirmed u.allow_lockout u.lockout_confirmation ≡ false
            → host_allowed ip
                (normalize_request_host (some u.request_host))
                true
                (parse_and_normalize_hosts ip u.hosts_text).normalized
              ≡ true)
  unfolding update_hosts
  update_hosts-saved u raced s good =
      let parsed = parse_and_normalize_hosts ip u.hosts_text in
      let allowed =
        host_allowed ip (normalize_request_host (some u.request_host)) true parsed.normalized in
      elim (Bool-cases (is_empty parsed.errors)) [
        | inr e ↦ absurd (ground (arith, rw e at good))
        | inl e ↦
            elim (Bool-cases (
              u.host_restriction_enabled
              && not allowed
              && not (lockout_confirmed u.allow_lockout u.lockout_confirmation))) [
                | inl q ↦ absurd (ground (arith, rw (e, q) at good))
                | inr q ↦ (rw (e, q) refl, λ on unsure. ground (arith, q, on, unsure))
              ]
      ]

  host_allowed-cleaned :
      (host : Text) (hosts : List Text)
      → All (λ x. (is_empty x ≡ false) × (strip x ≡ x)) hosts
      → host_allowed ip host true (clean_hosts hosts) ≡ host_allowed ip host true hosts
  unfolding host_allowed
  host_allowed-cleaned host hosts k = rw (cleaned_twice hosts k) refl

  hosts-nonempty :
      (text : Text)
      → All (λ x. strip x ≡ x) (parse_and_normalize_hosts ip text).normalized
      → All
          (λ x. (is_empty x ≡ false) × (strip x ≡ x))
          (parse_and_normalize_hosts ip text).normalized
  unfolding parse_and_normalize_hosts
  hosts-nonempty text k =
      let found =
        (read_lines-normalized (trim_lower ip) (accept_host ip) max_host_entries
          (splitlines text)).2 in
      All-of_In _ _
        (λ c m. let (v, q) = All-In _ c _ found m in (accept_host-nonempty v c q, All-In _ c _ k m))

  -- A change of the trusted hosts that succeeds without the confirmed override lets the host it was
  -- made through pass afterwards: the middleware's test of the host passes for every request with
  -- that host header, if no entry of the list begins or ends with white space.
  pub hosts_keep_host :
      (d : Deployment) (r : Request) (u : HostsUpdate) (raced later : Option SecuritySettings)
      (use_cache : Bool) (s : Store)
      → or_else r.host_header (get_or r.url_hostname []) ≡ u.request_host
      → All (λ x. strip x ≡ x) (parse_and_normalize_hosts ip u.hosts_text).normalized
      → (update_hosts ip h u raced s).0.ok ≡ true
      → lockout_confirmed u.allow_lockout u.lockout_confirmation ≡ false
      → passes_host ip d (get_security_policy h later use_cache (update_hosts ip h u raced s).1).0 r
        ≡ true
  unfolding passes_host
  hosts_keep_host d r u raced later use_cache s same trimmed good unsure =
      let row = with_hosts u (ensure_security_settings h raced s).0 in
      let (saved, safe) = update_hosts-saved u raced s good in
      let s' = (ensure_security_settings h raced s).1 in
      let policy =
        get_security_policy-present h later use_cache (save_settings row s') row
          (save_settings-IsCoherent row s') (row-save_settings row s') in
      let cleaned =
        host_allowed-cleaned (normalize_request_host (some u.request_host))
          (parse_and_normalize_hosts ip u.hosts_text).normalized
          (hosts-nonempty u.hosts_text trimmed) in
      rw (saved, policy, same)
        (unfold row_to_policy get_allowed_hosts_list in
          elim (Bool-cases u.host_restriction_enabled) [
            | inl on ↦ ground (arith, safe on unsure, cleaned)
            | inr off ↦ rw off refl
          ])

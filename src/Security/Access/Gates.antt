-- ===== src/Security/Access/Gates.antt =====
-- What a request has passed when a route sees it.
use unifi_netwatcher.Base.{
  Bool-cases, Text, ok-injective, Result, ok, err, ℕ, ◌≡◌, refl, sym, ap, inl, inr, Bool, true,
  false, Option, none, some, [], arith,
}
use unifi_netwatcher.Library.Ip.{IpLibrary}
use unifi_netwatcher.Security.Access.{
  Outcome, Deployment, Failures, SecurityPolicy, call_next, Request, check_auth, parse_basic_auth,
  auth_failures_exceeded, passes_host, authenticate, effective_client_ip, origin_check,
  check_credentials, passes_cidr, requires_auth, anonymous, after_origin, check_origin, dispatch,
  is_public_path,
}

abbrev actor_of : Outcome → Text
actor_of (call_next a) = a
actor_of _ = []

call_next-injective : {a b : Text} → call_next a ≡ call_next b → a ≡ b
call_next-injective h = ap actor_of h

module _ (ip : IpLibrary) (d : Deployment) (p : SecurityPolicy) where
  -- The header's name and password, and that the policy accepts them.
  pub record IsAuthentic (r : Request) (actor : Text) : Type 0 where
    pub password : Text
    pub parsed : parse_basic_auth d r.authorization_header ≡ some (actor, password)
    pub accepted : authenticate d.hasher p actor password ≡ true

  abbrev pub Unlimited : Request → ℕ → Failures → Type 0
  Unlimited r now failures = (auth_failures_exceeded (effective_client_ip r) now failures).0 ≡ false

  -- The gates of a request whose path is not public.
  pub record Passed (r : Request) (now : ℕ) (failures : Failures) (actor : Text) : Type 0 where
    pub host : passes_host ip d p r ≡ true
    pub origin : origin_check ip d p r ≡ ok true
    pub cidr : passes_cidr ip d p r ≡ true
    pub auth : (requires_auth ip d p r ≡ true) → Unlimited r now failures × IsAuthentic r actor
    pub no_auth : (requires_auth ip d p r ≡ false) → actor ≡ anonymous

  check_credentials_sound :
      (client : Text) (later : ℕ) (failures : Failures) (r : Request) (c : Option (Text × Text))
      (actor : Text)
      → parse_basic_auth d r.authorization_header ≡ c
      → (check_credentials ip d p client later failures c).0 ≡ call_next actor
      → IsAuthentic r actor
  check_credentials_sound client later failures r none actor q h = absurd (ground arith)
  check_credentials_sound client later failures r (some (username, password)) actor q h =
      elim (Bool-cases (authenticate d.hasher p username password)) [
        | inl e ↦
            let u : username ≡ actor = call_next-injective (rw e at h) in
            record { password = password; parsed = rw u at q; accepted = rw u at e }
        | inr e ↦ absurd (ground (arith, rw e at h))
      ]

  check_auth_sound :
      (r : Request) (now later : ℕ) (failures : Failures) (actor : Text)
      → (check_auth ip d p r now later failures).0 ≡ call_next actor
      → Unlimited r now failures × IsAuthentic r actor
  unfolding check_auth
  check_auth_sound r now later failures actor h =
      elim (Bool-cases (auth_failures_exceeded (effective_client_ip r) now failures).0) [
        | inl e ↦ absurd (ground (arith, rw e at h))
        | inr e ↦ (e, check_credentials_sound _ later _ r _ actor refl (rw e at h))
      ]

  after_origin_sound :
      (r : Request) (now later : ℕ) (failures : Failures) (actor : Text)
      → passes_host ip d p r ≡ true
      → origin_check ip d p r ≡ ok true
      → (after_origin ip d p r now later failures).0 ≡ call_next actor
      → Passed r now failures actor
  after_origin_sound r now later failures actor host origin h =
      elim (Bool-cases (passes_cidr ip d p r)) [
        | inr c ↦ absurd (ground (arith, rw c at h))
        | inl c ↦ elim (Bool-cases (requires_auth ip d p r)) [
          | inl e ↦
              let found = check_auth_sound r now later failures actor (rw (c, e) at h) in
              record {
                host = host;
                origin = origin;
                cidr = c;
                auth = λ z. found;
                no_auth = λ z. absurd (ground arith);
              }
          | inr e ↦ record {
            host = host;
            origin = origin;
            cidr = c;
            auth = λ z. absurd (ground arith);
            no_auth = λ z. sym (call_next-injective (rw (c, e) at h));
          }
        ]
      ]

  check_origin_sound :
      (r : Request) (now later : ℕ) (failures : Failures) (actor : Text) (o : Result Bool)
      → passes_host ip d p r ≡ true
      → origin_check ip d p r ≡ o
      → (check_origin ip d p r now later failures o).0 ≡ ok (call_next actor)
      → Passed r now failures actor
  check_origin_sound r now later failures actor (err e) host q h = absurd (ground arith)
  check_origin_sound r now later failures actor (ok false) host q h = absurd (ground arith)
  check_origin_sound r now later failures actor (ok true) host q h =
      after_origin_sound r now later failures actor host q (ok-injective h)

  pub dispatch-Passed :
      (r : Request) (now later : ℕ) (failures : Failures) (actor : Text)
      → is_public_path r.path ≡ false
      → (dispatch ip d p r now later failures).0 ≡ ok (call_next actor)
      → Passed r now failures actor
  unfolding dispatch
  dispatch-Passed r now later failures actor pub_path h = elim (Bool-cases (passes_host ip d p r)) [
    | inl e ↦ check_origin_sound r now later failures actor _ e refl (rw (pub_path, e) at h)
    | inr e ↦ absurd (ground (arith, rw (pub_path, e) at h))
  ]

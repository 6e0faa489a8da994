-- ===== src/Security/Update/Changes.antt =====
-- What a change of the authentication settings takes, and what it leaves behind.
use unifi_netwatcher.Base.{
  ltb, Bool-cases, length, is_empty, Text, text_eq, text_eq_refl, strip, ◌≤◌, ◌≡◌, refl, ◌⊎◌, inl,
  inr, Bool, true, false, not, ◌&&◌, Option, some, List, [], ◌∷◌, ◌++◌, map, arith,
}
use unifi_netwatcher.Security.Names.{only_if, validate_username, min_password_length}
use unifi_netwatcher.Security.Settings.{
  Hasher, SecuritySettings, Store, bind_cache, authenticate, invalidate_security_cache,
  ensure_security_settings, get_security_policy, row_to_policy,
}
use unifi_netwatcher.Security.Update.{
  AuthUpdate, current_errors, password_errors, auth_errors, update_authentication, changed_auth,
  needs_current, changing_password, username_error, save_settings, new_username, current_incorrect,
  disabling, confirmation_mismatch, confirm_disable_required,
}
use unifi_netwatcher.Security.Settings.Coherence.{
  IsCoherent, ensure-IsCoherent, get_security_policy-present,
}

empty_append :
    {A : Type 0} (xs ys : List A)
    → is_empty (xs ++ ys) ≡ true
    → (is_empty xs ≡ true) × (is_empty ys ≡ true)
empty_append [] ys h = (refl, h)
empty_append (x ∷ xs) ys h = absurd (ground arith)

empty_map :
    {A B : Type 0} (f : A → B) (xs : List A) → is_empty (map f xs) ≡ true → is_empty xs ≡ true
empty_map f [] h = refl
empty_map f (x ∷ xs) h = absurd (ground arith)

empty_only_if : {A : Type 0} (b : Bool) (x : A) → is_empty (only_if b x) ≡ true → b ≡ false
empty_only_if true x h = absurd (ground arith)
empty_only_if false x h = refl

pub save_settings-IsCoherent :
    (row : SecuritySettings) (s : Store) → IsCoherent (save_settings row s)
unfolding save_settings bind_cache invalidate_security_cache
save_settings-IsCoherent row s = inr (row, (refl, refl))

module _ (h : Hasher) (u : AuthUpdate) where
  -- The checks that a change has passed, over the row before.
  pub record IsPermitted (row : SecuritySettings) : Type 0 where
    pub username : is_empty (validate_username (new_username h u)) ≡ true
    pub current :
        needs_current h u row ≡ true
        → h.verify_password u.current_password row.authentication_password_hash ≡ true
    pub confirmed : disabling h u row ≡ true → u.confirm_disable ≡ true
    pub repeated : changing_password h u ≡ true → text_eq u.new_password u.confirm_password ≡ true
    pub long : changing_password h u ≡ true → min_password_length ≤ length u.new_password

  current_errors-empty :
      (row : SecuritySettings)
      → is_empty (current_errors h u row) ≡ true
      → needs_current h u row ≡ true
      → h.verify_password u.current_password row.authentication_password_hash ≡ true
  unfolding current_errors
  current_errors-empty row e n = elim (Bool-cases (is_empty u.current_password)) [
    | inl q ↦ absurd (ground (arith, rw (n, q) at e))
    | inr q ↦
        let b =
          empty_only_if
            (not (h.verify_password u.current_password row.authentication_password_hash))
            current_incorrect (rw (n, q) at e) in
        ground (arith, b)
  ]

  password_errors-empty :
      is_empty (password_errors h u) ≡ true
      → changing_password h u ≡ true
      → (text_eq u.new_password u.confirm_password ≡ true)
        × (min_password_length ≤ length u.new_password)
  unfolding password_errors
  password_errors-empty e c =
      let (a, b) =
        empty_append
          (only_if (not (text_eq u.new_password u.confirm_password)) confirmation_mismatch) _
          (rw c at e) in
      let a' = empty_only_if _ _ a in
      let b' = empty_only_if (ltb (length u.new_password) min_password_length) _ b in
      (ground (arith, a'), ground (arith, b'))

  auth_errors-IsPermitted :
      (row : SecuritySettings) → is_empty (auth_errors h u row) ≡ true → IsPermitted row
  unfolding auth_errors
  auth_errors-IsPermitted row e =
      let (a, r) = empty_append (map username_error (validate_username (new_username h u))) _ e in
      let (b, q) = empty_append (current_errors h u row) _ r in
      let (c, d) =
        empty_append (only_if (disabling h u row && not u.confirm_disable) confirm_disable_required)
          _ q in
      let c' = empty_only_if (disabling h u row && not u.confirm_disable) _ c in
      record {
        username = empty_map username_error _ a;
        current = current_errors-empty row b;
        confirmed = λ z. ground (arith, c', z);
        repeated = λ z. (password_errors-empty d z).0;
        long = λ z. (password_errors-empty d z).1;
      }

  pub update_authentication-IsPermitted :
      (raced : Option SecuritySettings) (s : Store)
      → (((update_authentication h u raced s).0.ok ≡ false)
          × ((update_authentication h u raced s).1 ≡ (ensure_security_settings h raced s).1))
        ⊎ (((update_authentication h u raced s).0.ok ≡ true)
            × ((update_authentication h u raced s).1.row
                ≡ some (changed_auth h u (ensure_security_settings h raced s).0))
            × IsPermitted (ensure_security_settings h raced s).0)
  unfolding update_authentication save_settings bind_cache invalidate_security_cache
  update_authentication-IsPermitted raced s =
      elim (Bool-cases (is_empty (auth_errors h u (ensure_security_settings h raced s).0))) [
        | inl e ↦ inr (rw e (refl, refl, auth_errors-IsPermitted _ e))
        | inr e ↦ inl (rw e (refl, refl))
      ]

  update_authentication-IsCoherent :
      (raced : Option SecuritySettings) (s : Store)
      → IsCoherent (update_authentication h u raced s).1
  unfolding update_authentication
  update_authentication-IsCoherent raced s =
      elim (Bool-cases (is_empty (auth_errors h u (ensure_security_settings h raced s).0))) [
        | inl e ↦ rw e (
            save_settings-IsCoherent (changed_auth h u (ensure_security_settings h raced s).0)
              (ensure_security_settings h raced s).1)
        | inr e ↦ rw e (ensure-IsCoherent h raced s)
      ]

  changed_auth-password :
      (row : SecuritySettings)
      → changing_password h u ≡ true
      → ((changed_auth h u row).authentication_password_hash ≡ h.hash_password u.new_password)
        × ((changed_auth h u row).authentication_username ≡ new_username h u)
        × ((changed_auth h u row).default_credentials_active ≡ false)
  unfolding changed_auth
  changed_auth-password row c = rw c (refl, refl, refl)

  -- After a successful change of the password, the policy of every later request accepts the new
  -- name with the new password and no longer counts as having default credentials. The hasher is
  -- taken to verify what it hashed.
  pub new_password_works :
      (raced later : Option SecuritySettings) (use_cache : Bool) (s : Store)
      → ((password : Text) → h.verify_password password (h.hash_password password) ≡ true)
      → is_empty u.new_password ≡ false
      → (update_authentication h u raced s).0.ok ≡ true
      → (authenticate h
            (get_security_policy h later use_cache (update_authentication h u raced s).1).0
            (strip u.username)
            u.new_password
          ≡ true)
        × ((get_security_policy h later use_cache
              (update_authentication h u raced s).1).0.default_credentials_active
            ≡ false)
  new_password_works raced later use_cache s verifies new good =
      elim (update_authentication-IsPermitted raced s) [
        | inl (bad, e) ↦ absurd (ground arith)
        | inr (good', kept, ok_row) ↦
            let (hash, name, flag) =
              changed_auth-password (ensure_security_settings h raced s).0 (ground (arith, new)) in
            let policy =
              get_security_policy-present h later use_cache (update_authentication h u raced s).1
                (changed_auth h u (ensure_security_settings h raced s).0)
                (update_authentication-IsCoherent raced s) kept in
            rw policy (
              unfold row_to_policy authenticate in
              (
                rw (hash, name, text_eq_refl (strip u.username), verifies u.new_password) refl,
                flag,
              ))
      ]

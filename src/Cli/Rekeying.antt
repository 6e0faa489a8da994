-- ===== src/Cli/Rekeying.antt =====
-- What a rekeying leaves behind, whatever fails.
use unifi_netwatcher.Base.{
  if◌then◌else◌, Bool-cases, is_empty, Text, Result, ok, err, ℕ, ◌≡◌, refl, ap, ◌∙◌, ◌⊎◌, inl, inr,
  Bool, true, false, Option, none, some, List, [],
}
use unifi_netwatcher.Security.Secrets.{JsonText, Fernet}
use unifi_netwatcher.Library.Files.{
  Refusals, FilePath, Files, make_parent, write_bytes, change_mode, continue, FileCall, put_ne,
}
use unifi_netwatcher.Security.KeyFiles.{
  KeyMaker, Environment, write_key_file, SecretSource, is_usable_env_secret, key_staging_path,
  with_newline,
}
use unifi_netwatcher.Cli.{
  choose_new_key, World, verify_active, NewKey, RekeyArgs, after_reencrypt, key_path_of, cmd_rekey,
  new_key_of, existing_key, confirmed, after_activation, with_new_key, with_old_key, old_secret_of,
  activate, or_else,
}
use unifi_netwatcher.Models.{NotificationChannel}
use unifi_netwatcher.Cli.KeyPaths.{
  HasOldKey, drop_staged-key, resolve_only, activate-old, staging-ne,
}

module _ (j : JsonText) (refuses : Refusals) (maker : KeyMaker) (p : FilePath) where
  new_key-files :
      (staged : Bool) (r : Result Fernet) (files : Files)
      → (new_key_of j refuses maker staged r files).1 ≡ files
  new_key-files staged (err e) files = refl
  new_key-files staged (ok f) files = refl

  existing-files :
      (r : Result (Fernet × SecretSource)) (files : Files)
      → (existing_key j refuses maker (r, files)).1 ≡ files
  existing-files (ok found) files = refl
  existing-files (err e) files = refl

  staged_write :
      (bytes : List ℕ) (r : Result Fernet) (files : Files)
      → (continue
            (λ _. new_key_of j refuses maker true r)
            (write_key_file refuses (key_staging_path p) bytes files)).1
          p
        ≡ files p
  unfolding write_key_file make_parent write_bytes change_mode
  staged_write bytes r files = elim (Bool-cases (refuses FileCall.mkdir (key_staging_path p))) [
    | inl e ↦ rw e refl
    | inr e ↦ elim (Bool-cases (refuses FileCall.write (key_staging_path p))) [
      | inl f ↦ rw (e, f) refl
      | inr f ↦
          let same =
            put_ne (key_staging_path p) p (some (with_newline bytes)) files (staging-ne p) in
          elim (Bool-cases (refuses FileCall.chmod (key_staging_path p))) [
            | inl g ↦ rw (e, f, g) (ap (λ z. z p) (new_key-files true r _) ∙ same)
            | inr g ↦ rw (e, f, g) (ap (λ z. z p) (new_key-files true r _) ∙ same)
          ]
    ]
  ]

  -- Choosing the new key leaves the key file alone.
  choose-key :
      (e : Environment) (new_env : Text) (generate_file : Bool) (files : Files)
      → (choose_new_key j refuses maker e new_env generate_file p files).1 p ≡ files p
  unfolding choose_new_key
  choose-key e new_env generate_file files = elim (Bool-cases (is_usable_env_secret new_env)) [
    | inl u ↦ rw u (ap (λ z. z p) (new_key-files false _ files))
    | inr u ↦ elim (Bool-cases generate_file) [
      | inl g ↦ rw (u, g) (staged_write maker.generated _ files)
      | inr g ↦
          let same = resolve_only j refuses maker p (or_else new_env e.app_secret_key) files in
          rw (u, g, same) (ap (λ z. z p) (existing-files _ files))
    ]
  ]

  module _ (old_key : List ℕ) where
    -- The old key is kept, unless the rekeying ends well.
    abbrev Keeps : Result ℕ × World → Type 0
    Keeps (r, w) = (r ≡ ok 0) ⊎ HasOldKey p old_key w.files

    confirmed-Keeps :
        (new_env : Text) (backed_up : Bool) (channels : List NotificationChannel) (r : Result ℕ)
        (files : Files)
        → HasOldKey p old_key files
        → let (code, w) = confirmed j refuses maker backed_up p channels (r, files) in
          Keeps (ok code, w)
    confirmed-Keeps new_env backed_up channels (err e) files h = inr h
    confirmed-Keeps new_env backed_up channels (ok n) files h = inl refl

    after_activation-Keeps :
        (new_env : Text) (channels : List NotificationChannel) (r : Result Bool) (files : Files)
        → HasOldKey p old_key files
        → Keeps (after_activation j refuses maker new_env p channels (r, files))
    unfolding verify_active
    after_activation-Keeps new_env channels (ok backed_up) files h =
        let secret = if is_usable_env_secret new_env then new_env else [] in
        rw (resolve_only j refuses maker p secret files)
          (confirmed-Keeps new_env backed_up channels _ files h)
    after_activation-Keeps new_env channels (err e) files h = inr h

    after_reencrypt-Keeps :
        (new_env : Text) (key : NewKey) (w : World) (r : Result (List NotificationChannel))
        → w.files p ≡ some old_key
        → Keeps (after_reencrypt j refuses maker new_env p key w r)
    after_reencrypt-Keeps new_env key w (err e) h =
        inr (inl (drop_staged-key j refuses maker p key.staged w.files ∙ h))
    after_reencrypt-Keeps new_env key w (ok channels) h =
        after_activation-Keeps new_env channels (activate j refuses maker key.staged p w.files).0
          (activate j refuses maker key.staged p w.files).1
          (activate-old j refuses maker p key.staged old_key w.files h)

    with_new_key-Keeps :
        (new_env : Text) (old : Fernet) (commit : Result (Unit {0}))
        (channels : List NotificationChannel) (x : Result (Option NewKey) × Files)
        → x.1 p ≡ some old_key
        → Keeps (with_new_key j refuses maker new_env p old commit channels x)
    with_new_key-Keeps new_env old commit channels (err e, files) h = inr (inl h)
    with_new_key-Keeps new_env old commit channels (ok none, files) h = inr (inl h)
    with_new_key-Keeps new_env old commit channels (ok (some key), files) h =
        after_reencrypt-Keeps new_env key _ _ h

module _ (j : JsonText) (refuses : Refusals) (maker : KeyMaker) (e : Environment)
    (args : RekeyArgs) where
  with_old_key-Keeps :
      (commit : Result (Unit {0})) (w : World) (old_key : List ℕ) (r : Result Fernet)
      → w.files (key_path_of j refuses maker e args) ≡ some old_key
      → Keeps j refuses maker
          (key_path_of j refuses maker e args)
          old_key
          (with_old_key j refuses maker e args commit w r)
  with_old_key-Keeps commit w old_key (err x) h = inr (inl h)
  with_old_key-Keeps commit w old_key (ok old) h =
      with_new_key-Keeps j refuses maker (key_path_of j refuses maker e args) old_key _ old commit
        w.channels _
        (choose-key j refuses maker (key_path_of j refuses maker e args) e _ _ w.files ∙ h)

  -- A rekeying that does not end with status 0 loses no key: what the key file held at the start still
  -- stands in it, or in the backup beside it, whichever file call or commit fails.
  pub rekey_keeps_old_key :
      (commit : Result (Unit {0})) (w : World) (old_key : List ℕ)
      → w.files (key_path_of j refuses maker e args) ≡ some old_key
      → let (r, w') = cmd_rekey j refuses maker e args commit w in
        (r ≡ ok 0) ⊎ HasOldKey (key_path_of j refuses maker e args) old_key w'.files
  unfolding cmd_rekey
  rekey_keeps_old_key commit w old_key h =
      elim (Bool-cases (is_empty (old_secret_of j refuses maker e args))) [
        | inl q ↦ rw q (inr (inl h))
        | inr q ↦ rw q (with_old_key-Keeps commit w old_key _ h)
      ]

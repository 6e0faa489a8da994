-- ===== src/Cli.antt =====
-- app/cli.py: the command that moves the notification configurations to another secret.
pub mod KeyPaths
pub mod Rekeying
pub mod NewKeys
pub mod Success
mod Tests
use unifi_netwatcher.Library.Files.{
  FilePath, Files, Action, Refusals, ◌>>◌, return, or_pass, is_file, change_mode, unlink_file,
  replace_file, copy_file,
}
use unifi_netwatcher.Base.{
  if◌then◌else◌, is_empty, Text, strip, is_os_error, is_secret_key_error, map_ok, Result, ok, err,
  secret_key_error, ℕ, Bool, true, false, ◌&&◌, Option, none, some, List, [], ◌∷◌,
}
use unifi_netwatcher.Models.{NotificationChannel}
use unifi_netwatcher.Security.Secrets.{
  Fernet, JsonText, verify_channels_with_fernet, rekey_notification_secrets,
}
use unifi_netwatcher.Security.KeyFiles.{
  KeyMaker, or_derived, key_backup_path, SecretSource, Environment, key_staging_path,
  is_usable_env_secret, fernet_from_material, resolve_fernet, default_secret_key_path,
  write_key_file, path_of, strip_bytes,
}
use unifi_netwatcher.Base.Utf8.{utf8_encode}

pub record RekeyArgs : Type 0 where
  pub old_key : Text
  pub new_key : Text
  pub key_path : Text
  pub generate_file : Bool

-- The files, and the committed rows of the channels.
pub record World : Type 0 where
  pub files : Files
  pub channels : List NotificationChannel

-- The new key of a rekeying: whether it stands in a staged file, which is to be activated.
pub record NewKey : Type 0 where
  pub fernet : Fernet
  pub staged : Bool

-- `a or b` at two texts
abbrev pub or_else : Text → Text → Text
or_else [] other = other
or_else (c ∷ s) other = c ∷ s

module _ (j : JsonText) (refuses : Refusals) (maker : KeyMaker) where
  unfoldable pub fernet_from_secret_string : Text → Result Fernet
  fernet_from_secret_string secret =
      if is_empty (strip secret)
      then err secret_key_error
      else or_derived refuses maker (maker.fernet (utf8_encode (strip secret)))
          (utf8_encode (strip secret))

  -- Whether there is a backup.
  unfoldable pub activate_staged_key : FilePath → FilePath → Action Bool
  activate_staged_key key_path staging_path files =
      if is_file key_path files
      then (do
        copy_file refuses key_path (key_backup_path key_path)
        or_pass (change_mode refuses (key_backup_path key_path))
        replace_file refuses staging_path key_path
        return true)
          files
      else (do replace_file refuses staging_path key_path; return false) files

  abbrev pub new_key_of : Bool → Result Fernet → Action (Option NewKey)
  new_key_of staged (err e) files = (err e, files)
  new_key_of staged (ok f) files = (ok (some (record { fernet = f; staged = staged })), files)

  -- `except SecretKeyError`
  abbrev pub existing_key : Result (Fernet × SecretSource) × Files → Result (Option NewKey) × Files
  existing_key (err e, files) = (if is_secret_key_error e then ok none else err e, files)
  existing_key (ok found, files) = (ok (some (record { fernet = found.0; staged = false })), files)

  -- The three ways to a new key; `none` is the end with status 2.
  unfoldable pub choose_new_key : Environment → Text → Bool → FilePath → Action (Option NewKey)
  choose_new_key e new_env generate_file key_path files =
      if is_usable_env_secret new_env
      then new_key_of false (fernet_from_material refuses maker (utf8_encode new_env)) files
      else if generate_file
      then (write_key_file refuses (key_staging_path key_path) maker.generated
            >> new_key_of true (maker.fernet (strip_bytes maker.generated)))
          files
      else existing_key
          (resolve_fernet refuses maker (or_else new_env e.app_secret_key) key_path false files)

  abbrev pub after_commit :
      Result (Unit {0}) → Result (List NotificationChannel) → Result (List NotificationChannel)
  after_commit commit (err e) = err e
  after_commit commit (ok cs) = map_ok (λ _. cs) commit

  abbrev pub after_verify :
      Result ℕ → Result (List NotificationChannel) → Result (List NotificationChannel)
  after_verify (err e) rekeyed = err e
  after_verify (ok n) rekeyed = rekeyed

  -- `verify_channels_with_fernet`, then `rekey_notification_secrets` with its commit.
  unfoldable pub reencrypt :
      Fernet
      → Fernet
      → Result (Unit {0})
      → List NotificationChannel
      → Result (List NotificationChannel)
  reencrypt old new commit channels =
      after_verify (verify_channels_with_fernet j old channels)
        (after_commit commit (rekey_notification_secrets j old new channels))

  unfoldable pub drop_staged : Bool → FilePath → Files → Files
  drop_staged staged key_path files =
      if staged && is_file (key_staging_path key_path) files
      then (or_pass (unlink_file refuses (key_staging_path key_path)) files).1
      else files

  unfoldable pub drop_backup : Bool → FilePath → Files → Files
  drop_backup backed_up key_path files =
      if backed_up && is_file (key_backup_path key_path) files
      then (or_pass (unlink_file refuses (key_backup_path key_path)) files).1
      else files

  unfoldable pub activate : Bool → FilePath → Action Bool
  activate staged key_path files =
      if staged
      then activate_staged_key key_path (key_staging_path key_path) files
      else (ok false, files)

  abbrev pub verified : List NotificationChannel → Result (Fernet × SecretSource) → Result ℕ
  verified channels (err e) = err e
  verified channels (ok found) = verify_channels_with_fernet j found.0 channels

  -- `init_app_secrets`, and the verification of the channels with its key.
  unfoldable pub verify_active :
      Text → FilePath → List NotificationChannel → Files → Result ℕ × Files
  verify_active new_env key_path channels files =
      let secret = if is_usable_env_secret new_env then new_env else [] in
      let (found, files') = resolve_fernet refuses maker secret key_path false files in
      (verified channels found, files')

  abbrev pub confirmed : Bool → FilePath → List NotificationChannel → Result ℕ × Files → ℕ × World
  confirmed backed_up key_path channels (err e, files) =
      (1, record { files = files; channels = channels })
  confirmed backed_up key_path channels (ok n, files) =
      (0, record { files = drop_backup backed_up key_path files; channels = channels })

  -- Only an `OSError` is caught.
  abbrev pub after_activation :
      Text → FilePath → List NotificationChannel → Result Bool × Files → Result ℕ × World
  after_activation new_env key_path channels (err e, files) =
      (if is_os_error e then ok 1 else err e, record { files = files; channels = channels })
  after_activation new_env key_path channels (ok backed_up, files) =
      let (code, w) =
        confirmed backed_up key_path channels (verify_active new_env key_path channels files) in
      (ok code, w)

  abbrev pub after_reencrypt :
      Text → FilePath → NewKey → World → Result (List NotificationChannel) → Result ℕ × World
  after_reencrypt new_env key_path key w (err e) =
      (ok 1, record w { files = drop_staged key.staged key_path w.files })
  after_reencrypt new_env key_path key w (ok channels) =
      after_activation new_env key_path channels (activate key.staged key_path w.files)

  abbrev pub with_new_key :
      Text
      → FilePath
      → Fernet
      → Result (Unit {0})
      → List NotificationChannel
      → Result (Option NewKey) × Files
      → Result ℕ × World
  with_new_key new_env key_path old commit channels (err e, files) =
      (err e, record { files = files; channels = channels })
  with_new_key new_env key_path old commit channels (ok none, files) =
      (ok 2, record { files = files; channels = channels })
  with_new_key new_env key_path old commit channels (ok (some key), files) =
      after_reencrypt new_env key_path key (record { files = files; channels = channels })
        (reencrypt old key.fernet commit channels)

  abbrev pub key_path_of : Environment → RekeyArgs → FilePath
  key_path_of e args =
      if is_empty args.key_path then default_secret_key_path e else path_of args.key_path

  abbrev pub new_env_of : Environment → RekeyArgs → Text
  new_env_of e args = strip (or_else args.new_key e.app_secret_key)

  abbrev pub old_secret_of : Environment → RekeyArgs → Text
  old_secret_of e args = strip (or_else args.old_key e.old_app_secret_key)

  abbrev pub with_old_key :
      Environment → RekeyArgs → Result (Unit {0}) → World → Result Fernet → Result ℕ × World
  with_old_key e args commit w (err x) = (err x, w)
  with_old_key e args commit w (ok old) =
      with_new_key (new_env_of e args) (key_path_of e args) old commit w.channels
        (choose_new_key e (new_env_of e args) args.generate_file (key_path_of e args) w.files)

  -- The exit status; `commit` is what the commit of the database comes to.
  unfoldable pub cmd_rekey : Environment → RekeyArgs → Result (Unit {0}) → World → Result ℕ × World
  cmd_rekey e args commit w =
      if is_empty (old_secret_of e args)
      then (ok 2, w)
      else with_old_key e args commit w (fernet_from_secret_string (old_secret_of e args))

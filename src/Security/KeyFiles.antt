-- ===== src/Security/KeyFiles.antt =====
-- app/security/secrets.py: the application secret, from the environment or from its key file.
pub mod KeyText
pub mod Persistence
pub mod Made
use unifi_netwatcher.Library.Files.{
  FilePath, Files, Action, Refusals, ◌>>=◌, ◌>>◌, return, raise, or_pass, with_name, is_file,
  make_parent, write_bytes, read_bytes, change_mode, unlink_file, replace_file,
}
use unifi_netwatcher.Base.{
  leb, ◌==◌, if◌then◌else◌, get_or, length, is_empty, Text, t, text_in, drop_while, rstrip_by,
  strip, lower, starts_with, split_once, Result, ok, err, secret_key_error, ℕ, Bool, true, false,
  ◌&&◌, ◌||◌, Option, none, some, List, [], ◌∷◌, ◌++◌, reverse,
}
use unifi_netwatcher.Security.Secrets.{Fernet}
use unifi_netwatcher.Base.Utf8.{utf8_encode}

-- `Fernet`, `Fernet.generate_key`, and the key that `hashlib` and `base64` derive from a secret.
pub record KeyMaker : Type 0 where
  pub fernet : List ℕ → Result Fernet
  pub derived_key : List ℕ → List ℕ
  pub generated : List ℕ

-- The variables of the environment that the program reads; one that is not set is empty.
pub record Environment : Type 0 where
  pub app_secret_key : Text
  pub old_app_secret_key : Text
  pub app_secret_key_path : Text

pub data SecretSource : Type 0 where
  env file generated : SecretSource

abbrev pub placeholder_secrets : List Text
placeholder_secrets =
    []
    ∷ t "change-me"
    ∷ t "changeme"
    ∷ t "secret"
    ∷ t "password"
    ∷ t "admin"
    ∷ t "default"
    ∷ t "your-secret-key"
    ∷ t "replace-me"
    ∷ []

unfoldable pub is_usable_env_secret : Text → Bool
is_usable_env_secret value =
    let stripped = strip value in
    if is_empty stripped
    then false
    else if text_in (lower stripped) placeholder_secrets
    then false
    else leb 16 (length stripped)

abbrev default_path : FilePath
default_path = record { parent = t "data"; name = t "app-secret.key" }

-- `Path(s)`, the name being what follows the last slash.
unfoldable pub path_of : Text → FilePath
unfolding split_once
path_of s =
    let parts = split_once b'/' (reverse s) in
    record { parent = reverse (get_or parts.1 []); name = reverse parts.0 }

unfoldable pub default_secret_key_path : Environment → FilePath
default_secret_key_path e =
    if is_empty (strip e.app_secret_key_path)
    then default_path
    else path_of (strip e.app_secret_key_path)

unfoldable pub key_staging_path : FilePath → FilePath
key_staging_path p = with_name p (p.name ++ t ".new")

unfoldable pub key_backup_path : FilePath → FilePath
key_backup_path p = with_name p (p.name ++ t ".bak")

unfoldable pub temporary_path : FilePath → FilePath
temporary_path p = with_name p (b'.' ∷ (p.name ++ t ".tmp"))

-- White space of `bytes`, and the end of its first line.
unfoldable pub is_space_byte : ℕ → Bool
is_space_byte b = b == 32 || (leb 9 b && leb b 13)

unfoldable pub strip_bytes : List ℕ → List ℕ
unfolding drop_while rstrip_by is_space_byte
strip_bytes bytes = rstrip_by is_space_byte (drop_while is_space_byte bytes)

unfoldable pub first_line : List ℕ → List ℕ
first_line [] = []
first_line (b ∷ bytes) = if b == 10 || b == 13 then [] else b ∷ first_line bytes

abbrev ends_with_newline : List ℕ → Bool
ends_with_newline bytes = starts_with (reverse bytes) (10 ∷ [])

-- `key + (b"\n" if not key.endswith(b"\n") else b"")`
unfoldable pub with_newline : List ℕ → List ℕ
unfolding starts_with
with_newline key = if ends_with_newline key then key else key ++ 10 ∷ []

module _ (refuses : Refusals) where
  unfoldable pub write_key_file : FilePath → List ℕ → Action (Unit {0})
  write_key_file path key = do
    make_parent refuses path
    write_bytes refuses path (with_newline key)
    or_pass (change_mode refuses path)

  -- The `finally` block.
  unfoldable pub remove_temporary : FilePath → Result (Unit {0}) × Files → Result (Unit {0}) × Files
  remove_temporary tmp (r, files) =
      if is_file tmp files then (r, (or_pass (unlink_file refuses tmp) files).1) else (r, files)

  abbrev write_and_replace : FilePath → FilePath → List ℕ → Action (Unit {0})
  write_and_replace tmp path bytes = do
    write_bytes refuses tmp bytes
    or_pass (change_mode refuses tmp)
    replace_file refuses tmp path

  unfoldable pub write_key_file_atomic : FilePath → List ℕ → Action (Unit {0})
  write_key_file_atomic path key = do
    make_parent refuses path
    λ files.
        remove_temporary (temporary_path path)
          (write_and_replace (temporary_path path) path (with_newline key) files)

  abbrev pub raw_or_none : List ℕ → Option (List ℕ)
  raw_or_none [] = none
  raw_or_none (b ∷ bytes) = some (b ∷ bytes)

  unfoldable pub load_key_file : FilePath → Action (Option (List ℕ))
  load_key_file path files =
      if is_file path files
      then (do raw ← read_bytes refuses path; return (raw_or_none (strip_bytes raw))) files
      else (ok none, files)

  -- Whether the backup was removed.
  abbrev removed : Result (Unit {0}) × Files → Bool × Files
  removed (ok _, files) = (true, files)
  removed (err _, files) = (false, files)

  unfoldable pub cleanup_key_rotation_backup : FilePath → Files → Bool × Files
  cleanup_key_rotation_backup path files =
      if is_file (key_backup_path path) files
      then removed (unlink_file refuses (key_backup_path path) files)
      else (false, files)

  module _ (maker : KeyMaker) where
    unfoldable pub fernet_from_material : List ℕ → Result Fernet
    fernet_from_material material = maker.fernet (maker.derived_key material)

    -- `except Exception`
    abbrev pub or_derived : Result Fernet → List ℕ → Result Fernet
    or_derived (ok f) material = ok f
    or_derived (err _) material = fernet_from_material material

    unfoldable pub fernet_of_file : List ℕ → Result Fernet
    fernet_of_file key = or_derived (maker.fernet (strip_bytes (first_line key))) key

    abbrev pub resolved : SecretSource → Result Fernet → Action (Fernet × SecretSource)
    resolved source (err e) files = (err e, files)
    resolved source (ok f) files = (ok (f, source), files)

    abbrev pub generate_or_raise : FilePath → Bool → Action (Fernet × SecretSource)
    generate_or_raise path false = raise secret_key_error
    generate_or_raise path true = do
      write_key_file_atomic path maker.generated
      resolved generated (maker.fernet (strip_bytes maker.generated))

    abbrev pub file_or_generate : FilePath → Bool → Option (List ℕ) → Action (Fernet × SecretSource)
    file_or_generate path allow_generate (some key) = resolved file (fernet_of_file key)
    file_or_generate path allow_generate none = generate_or_raise path allow_generate

    -- `env_secret` is the argument, or the variable where the argument is `None`.
    unfoldable pub resolve_fernet : Text → FilePath → Bool → Action (Fernet × SecretSource)
    resolve_fernet env_secret path allow_generate files =
        if is_usable_env_secret env_secret
        then resolved env (fernet_from_material (utf8_encode (strip env_secret))) files
        else (load_key_file path >>= file_or_generate path allow_generate) files

-- ===== src/Cli/Success.antt =====
-- What a rekeying that ends with status 0 has done.
use unifi_netwatcher.Base.{if◌then◌else◌, Text, Result, ok, ℕ, ◌≡◌, false, List, []}
use unifi_netwatcher.Security.Secrets.{
  JsonText, Fernet, rekey_notification_secrets, verify_channels_with_fernet,
}
use unifi_netwatcher.Library.Files.{Refusals, FilePath, Files}
use unifi_netwatcher.Security.KeyFiles.{
  KeyMaker, is_usable_env_secret, SecretSource, resolve_fernet, Environment,
}
use unifi_netwatcher.Models.{NotificationChannel}
use unifi_netwatcher.Cli.{
  World, verified, RekeyArgs, fernet_from_secret_string, old_secret_of, new_env_of, key_path_of,
}
use unifi_netwatcher.Security.Secrets.Migration.{SameConfigs}
use unifi_netwatcher.Security.KeyFiles.Made.{IsMade}

module _ (j : JsonText) (refuses : Refusals) (maker : KeyMaker) where
  -- The secret that a start after the rekeying resolves.
  abbrev pub active_secret : Text → Text
  active_secret new_env = if is_usable_env_secret new_env then new_env else []

  -- The channels are encrypted anew, and the key that the next start resolves reads them.
  pub record Rekeyed (old : Fernet) (new_env : Text) (p : FilePath)
      (before : List NotificationChannel) (w : World) : Type 0 where
    pub new : Fernet
    pub made : IsMade maker new
    pub active : Fernet
    pub source : SecretSource
    pub count : ℕ
    pub rekeyed : rekey_notification_secrets j old new before ≡ ok w.channels
    pub resolves :
        (resolve_fernet refuses maker (active_secret new_env) p false w.files).0
        ≡ ok (active, source)
    pub verified : verify_channels_with_fernet j active w.channels ≡ ok count

  module _ (old : Fernet) (new_env : Text) (p : FilePath) (before : List NotificationChannel) where
    abbrev Succeeds : Result ℕ × World → Type 0
    Succeeds (r, w) = r ≡ ok 0 → Rekeyed old new_env p before w

  module _ (e : Environment) (args : RekeyArgs) where
    -- The outcome, for the key that the old secret gives.
    pub record Success (w w' : World) : Type 0 where
      pub old : Fernet
      pub old_key :
          fernet_from_secret_string j refuses maker (old_secret_of j refuses maker e args) ≡ ok old
      pub done :
          Rekeyed old
            (new_env_of j refuses maker e args)
            (key_path_of j refuses maker e args)
            w.channels
            w'
      pub same : SameConfigs j old done.new w.channels w'.channels

-- ===== src/Security/Tests/Secrets.antt =====
-- Migration and rekeying of one channel.
use unifi_netwatcher.Security.Secrets.Samples.{key, json, channel, key-Reliable}
use unifi_netwatcher.Base.{
  All, t, text_eq, strip, ok-injective, ok, ◌≡◌, refl, true, false, none, List, [], ◌∷◌, arith,
}
use unifi_netwatcher.Security.Secrets.{
  Fernet, JsonText, decrypt_config, rekey_notification_secrets, migrate_notification_secrets,
}
use unifi_netwatcher.Models.Values.{str}
use unifi_netwatcher.Models.{NotificationChannel}
use unifi_netwatcher.Security.Secrets.Migration.{
  Reliable, SameConfigs, IsReliable, rekey-SameConfigs, migrate-SameConfigs,
}
use mathlib.Core.Path.{subst}
use unifi_netwatcher.Library.Files.{Refusals, FilePath, Files}
use unifi_netwatcher.Security.KeyFiles.{KeyMaker, is_space_byte, resolve_fernet, generated, file}
use unifi_netwatcher.Security.KeyFiles.Persistence.{Resolves, resolve_fernet-again}
use unifi_netwatcher.Security.KeyFiles.KeyText.{IsKeyText}

abbrev moved : List NotificationChannel
moved = record channel { config_json = str (t "enc:v1:}s:nekot{") } ∷ []

channels-IsReliable : All (IsReliable json key key) (channel ∷ [])
unfolding decrypt_config
channels-IsReliable = (λ fs h. subst (Reliable json key) (ok-injective h) key-Reliable, tt)

rekeyed : rekey_notification_secrets json key key (channel ∷ []) ≡ ok moved
unfolding rekey_notification_secrets unifi_netwatcher.Security.Secrets.rekey_channel decrypt_config
    unifi_netwatcher.Security.Secrets.encrypt_config
rekeyed = refl

rekey-SameConfigs_example : SameConfigs json key key (channel ∷ []) moved
rekey-SameConfigs_example =
    rekey-SameConfigs json key key (channel ∷ []) moved channels-IsReliable rekeyed

migrated : migrate_notification_secrets json key (channel ∷ []) ≡ ok moved
unfolding migrate_notification_secrets unifi_netwatcher.Security.Secrets.migrate_channel
    unifi_netwatcher.Security.Secrets.is_encrypted_config decrypt_config
    unifi_netwatcher.Security.Secrets.encrypt_config
migrated = refl

migrate-SameConfigs_example : SameConfigs json key key (channel ∷ []) moved
migrate-SameConfigs_example =
    migrate-SameConfigs json key (channel ∷ []) moved channels-IsReliable migrated

-- A file system that refuses nothing, and a maker that makes the one key of anything.
abbrev accepting : Refusals
accepting call p = false

abbrev maker : KeyMaker
maker = record { fernet = λ bytes. ok key; derived_key = λ bytes. bytes; generated = t "k3y" }

abbrev key_file : FilePath
key_file = record { parent = t "data"; name = t "app-secret.key" }

abbrev no_files : Files
no_files p = none

generated_text : IsKeyText maker.generated
unfolding is_space_byte
generated_text = record { solid = (refl, (refl, (refl, tt))); not_empty = omega arith }

first_start : Resolves accepting maker generated_text key_file refl [] true no_files key generated
unfolding resolve_fernet unifi_netwatcher.Security.KeyFiles.is_usable_env_secret
    unifi_netwatcher.Base.strip unifi_netwatcher.Security.KeyFiles.load_key_file
    unifi_netwatcher.Security.KeyFiles.write_key_file_atomic
    unifi_netwatcher.Library.Files.make_parent unifi_netwatcher.Security.KeyFiles.remove_temporary
    unifi_netwatcher.Library.Files.write_bytes unifi_netwatcher.Library.Files.change_mode
    unifi_netwatcher.Library.Files.replace_file unifi_netwatcher.Library.Files.put
    unifi_netwatcher.Library.Files.path_eq unifi_netwatcher.Base.text_eq
    unifi_netwatcher.Security.KeyFiles.temporary_path
first_start = refl

resolve_fernet-again_example :
    Resolves accepting maker generated_text key_file refl [] false
      (resolve_fernet accepting maker [] key_file true no_files).1
      key
      file
resolve_fernet-again_example =
    resolve_fernet-again accepting maker generated_text key_file refl key [] no_files first_start

-- ===== src/Cli/Tests.antt =====
-- A rekeying from a secret of the environment to a generated key file.
use unifi_netwatcher.Security.Secrets.Samples.{key, json, channel}
use unifi_netwatcher.Library.Files.{replace}
use unifi_netwatcher.Base.{
  any, all, t, text_eq, text_in, is_space, drop_while, rstrip_by, strip, lower_char, lower,
  starts_with, split_once, ok, ℕ, ◌≡◌, refl, ◌⊎◌, true, false, none, some, List, [], ◌∷◌,
}
use unifi_netwatcher.Library.Files.{Refusals, FilePath, put}
use unifi_netwatcher.Security.KeyFiles.{KeyMaker, Environment, path_of}
use unifi_netwatcher.Cli.{RekeyArgs, World, cmd_rekey, key_path_of}
use unifi_netwatcher.Security.Secrets.{decrypt_config}
use unifi_netwatcher.Cli.Success.{Success}
use unifi_netwatcher.Cli.KeyPaths.{HasOldKey}
use unifi_netwatcher.Cli.Rekeying.{rekey_keeps_old_key}

abbrev accepting : Refusals
accepting call p = false

-- A disk on which no file can be replaced.
abbrev stubborn : Refusals
stubborn replace p = true
stubborn _ p = false

abbrev maker : KeyMaker
maker = record { fernet = λ bytes. ok key; derived_key = λ bytes. bytes; generated = t "k3y" }

abbrev environment : Environment
environment = record {
  app_secret_key = [];
  old_app_secret_key = t "an old secret key";
  app_secret_key_path = [];
}

abbrev args : RekeyArgs
args = record { old_key = []; new_key = []; key_path = t "data/app.key"; generate_file = true }

abbrev key_file : FilePath
key_file = record { parent = t "data"; name = t "app.key" }

abbrev old_key : List ℕ
old_key = t "0ld\n"

abbrev world : World
world = record { files = put key_file (some old_key) (λ p. none); channels = channel ∷ [] }

there : world.files (key_path_of json stubborn maker environment args) ≡ some old_key
unfolding path_of put unifi_netwatcher.Library.Files.path_eq unifi_netwatcher.Base.text_eq
there = refl

fails : (cmd_rekey json stubborn maker environment args (ok tt) world).0 ≡ ok 1
unfolding cmd_rekey unifi_netwatcher.Base.strip unifi_netwatcher.Cli.fernet_from_secret_string
    unifi_netwatcher.Cli.choose_new_key unifi_netwatcher.Security.KeyFiles.is_usable_env_secret
    unifi_netwatcher.Security.KeyFiles.write_key_file unifi_netwatcher.Library.Files.make_parent
    unifi_netwatcher.Library.Files.write_bytes unifi_netwatcher.Library.Files.change_mode
    unifi_netwatcher.Cli.reencrypt unifi_netwatcher.Security.Secrets.verify_channels_with_fernet
    decrypt_config unifi_netwatcher.Security.Secrets.rekey_notification_secrets
    unifi_netwatcher.Security.Secrets.rekey_channel unifi_netwatcher.Cli.activate
    unifi_netwatcher.Cli.activate_staged_key put unifi_netwatcher.Library.Files.path_eq
    unifi_netwatcher.Base.all unifi_netwatcher.Base.any unifi_netwatcher.Base.drop_while
    unifi_netwatcher.Base.is_space unifi_netwatcher.Base.lower unifi_netwatcher.Base.lower_char
    unifi_netwatcher.Base.rstrip_by unifi_netwatcher.Base.split_once
    unifi_netwatcher.Base.starts_with unifi_netwatcher.Base.text_eq unifi_netwatcher.Base.text_in
    unifi_netwatcher.Base.Utf8.utf8_char unifi_netwatcher.Base.Utf8.utf8_encode
    unifi_netwatcher.Cli.drop_backup unifi_netwatcher.Cli.drop_staged
    unifi_netwatcher.Cli.verify_active unifi_netwatcher.Library.Files.copy_file
    unifi_netwatcher.Library.Files.read_bytes unifi_netwatcher.Library.Files.replace_file
    unifi_netwatcher.Library.Files.unlink_file
    unifi_netwatcher.Security.KeyFiles.default_secret_key_path
    unifi_netwatcher.Security.KeyFiles.fernet_from_material
    unifi_netwatcher.Security.KeyFiles.fernet_of_file unifi_netwatcher.Security.KeyFiles.first_line
    unifi_netwatcher.Security.KeyFiles.is_space_byte
    unifi_netwatcher.Security.KeyFiles.key_backup_path
    unifi_netwatcher.Security.KeyFiles.key_staging_path
    unifi_netwatcher.Security.KeyFiles.load_key_file path_of
    unifi_netwatcher.Security.KeyFiles.remove_temporary
    unifi_netwatcher.Security.KeyFiles.resolve_fernet unifi_netwatcher.Security.KeyFiles.strip_bytes
    unifi_netwatcher.Security.KeyFiles.temporary_path
    unifi_netwatcher.Security.KeyFiles.with_newline
    unifi_netwatcher.Security.KeyFiles.write_key_file_atomic
    unifi_netwatcher.Security.Secrets.encrypt_config unifi_netwatcher.Security.Secrets.is_ascii
fails = refl

rekey_keeps_old_key_example :
    let (r, w') = cmd_rekey json stubborn maker environment args (ok tt) world in
    (r ≡ ok 0) ⊎ HasOldKey (key_path_of json stubborn maker environment args) old_key w'.files
rekey_keeps_old_key_example =
    rekey_keeps_old_key json stubborn maker environment args (ok tt) world old_key there

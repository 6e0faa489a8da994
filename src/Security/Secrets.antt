-- ===== src/Security/Secrets.antt =====
-- app/security/secrets.py and crypto_migrate.py: the encryption of notification configurations.
pub mod Migration
pub mod Samples
use unifi_netwatcher.Models.{NotificationChannel}
use unifi_netwatcher.Models.Values.{Json, Fields, obj, str}
use unifi_netwatcher.Base.{
  ltb, if◌then◌else◌, length, drop, all, Text, t, starts_with, ◌>>=◌, map_ok, Exception, Result, ok,
  err, value_error, type_error, secret_key_error, ℕ, suc, Bool, true, false, not, Option, none,
  some, List, [], ◌∷◌, ◌++◌,
}

-- A `Fernet` key: encryption to a token of ASCII text, and decryption, `none` being `InvalidToken`.
pub record Fernet : Type 0 where
  pub encrypt : Text → Text
  pub decrypt : Text → Option Text

-- `json.dumps` of a `dict`, and `json.loads`.
pub record JsonText : Type 0 where
  pub dumps : Fields → Text
  pub loads : Text → Result Json

abbrev pub enc_prefix : Text
enc_prefix = t "enc:v1:"

unfoldable pub is_encrypted_config : Json → Bool
is_encrypted_config (str s) = starts_with s enc_prefix
is_encrypted_config _ = false

-- `token.encode("ascii")`
unfoldable pub is_ascii : Text → Bool
unfolding all
is_ascii s = all (λ c. ltb c 128) s

module _ (j : JsonText) where
  unfoldable pub encrypt_config : Fernet → Fields → Json
  encrypt_config f config = str (enc_prefix ++ f.encrypt (j.dumps config))

  abbrev pub as_object : Json → Result Fields
  as_object (obj fs) = ok fs
  as_object _ = err value_error

  abbrev pub decrypted : Option Text → Result Fields
  decrypted none = err secret_key_error
  decrypted (some raw) = j.loads raw >>= as_object

  abbrev pub decrypt_token : Fernet → Text → Result Fields
  decrypt_token f token = if is_ascii token then decrypted (f.decrypt token) else err value_error

  abbrev decrypt_text : Fernet → Text → Result Fields
  decrypt_text f s =
      if starts_with s enc_prefix
      then decrypt_token f (drop (length enc_prefix) s)
      else (j.loads s >>= as_object)

  unfoldable pub decrypt_config : Fernet → Json → Result Fields
  decrypt_config f (obj fs) = ok fs
  decrypt_config f (str s) = decrypt_text f s
  decrypt_config f _ = err value_error

  -- The `except` clauses: `JSONDecodeError` is a `ValueError`.
  abbrev succeeded : Result Fields → Result Bool
  succeeded (ok fs) = ok true
  succeeded (err secret_key_error) = ok false
  succeeded (err value_error) = ok false
  succeeded (err e) = err e

  unfoldable pub can_decrypt : Fernet → Json → Result Bool
  can_decrypt f value =
      if not (is_encrypted_config value) then ok true else succeeded (decrypt_config f value)

  -- `except (ValueError, TypeError)` of the migration and of the verification.
  abbrev pub unparseable : Exception → Exception
  unparseable value_error = secret_key_error
  unparseable type_error = secret_key_error
  unparseable e = e

  abbrev pub read_plaintext : Result Fields → Result Fields
  read_plaintext (ok fs) = ok fs
  read_plaintext (err e) = err (unparseable e)

  abbrev kept_if : NotificationChannel → Bool → Result NotificationChannel
  kept_if c true = ok c
  kept_if c false = err secret_key_error

  -- One round of the loop of `migrate_notification_secrets`.
  unfoldable pub migrate_channel : Fernet → NotificationChannel → Result NotificationChannel
  migrate_channel f c =
      if is_encrypted_config c.config_json
      then (can_decrypt f c.config_json >>= kept_if c)
      else map_ok (λ plain. record c { config_json = encrypt_config f plain })
          (read_plaintext (decrypt_config f c.config_json))

  -- The first exception ends the loop, and nothing is committed then.
  abbrev pub each_channel :
      (NotificationChannel → Result NotificationChannel)
      → List NotificationChannel
      → Result (List NotificationChannel)
  each_channel step [] = ok []
  each_channel step (c ∷ cs) = do c' ← step c; cs' ← each_channel step cs; ok (c' ∷ cs')

  unfoldable pub migrate_notification_secrets :
      Fernet → List NotificationChannel → Result (List NotificationChannel)
  migrate_notification_secrets f channels = each_channel (migrate_channel f) channels

  unfoldable pub verify_channels_with_fernet : Fernet → List NotificationChannel → Result ℕ
  verify_channels_with_fernet f [] = ok 0
  verify_channels_with_fernet f (c ∷ cs) = do
    plain ← read_plaintext (decrypt_config f c.config_json)
    n ← verify_channels_with_fernet f cs
    ok (suc n)

  unfoldable pub rekey_channel : Fernet → Fernet → NotificationChannel → Result NotificationChannel
  rekey_channel old new c =
      map_ok (λ plain. record c { config_json = encrypt_config new plain })
        (decrypt_config old c.config_json)

  unfoldable pub rekey_notification_secrets :
      Fernet → Fernet → List NotificationChannel → Result (List NotificationChannel)
  rekey_notification_secrets old new channels = each_channel (rekey_channel old new) channels

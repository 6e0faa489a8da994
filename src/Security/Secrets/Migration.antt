-- ===== src/Security/Secrets/Migration.antt =====
-- Migration and rekeying keep what the configurations say.
use unifi_netwatcher.Models.{NotificationChannel}
use unifi_netwatcher.Base.{
  ==_refl, Bool-cases, length, drop, All, Text, starts_with, bind-eq-ok, ok-injective, map_ok-eq-ok,
  Exception, Result, ok, err, value_error, type_error, overflow_error, os_error, gai_error,
  secret_key_error, webhook_url_error, device_not_found, device_action, body_limit_exceeded,
  read_deadline_exceeded, integrity_error, other_error, ◌≡◌, refl, inl, inr, Bool, true, false,
  some, List, [], ◌∷◌, ◌++◌, arith,
}
use unifi_netwatcher.Security.Secrets.{
  JsonText, is_encrypted_config, decrypt_config, Fernet, encrypt_config, rekey_channel,
  rekey_notification_secrets, migrate_channel, migrate_notification_secrets, is_ascii, each_channel,
  can_decrypt, enc_prefix, read_plaintext, succeeded, kept_if,
}
use unifi_netwatcher.Models.Values.{Fields, obj}
use mathlib.Core.Path.{subst}

-- What the program relies on of `Fernet` and of `json` for a configuration: the key decrypts what it
-- encrypted, a token is ASCII, and `json.loads` reads what `json.dumps` wrote.
pub record Reliable (j : JsonText) (f : Fernet) (fs : Fields) : Type 0 where
  pub decrypts : f.decrypt (f.encrypt (j.dumps fs)) ≡ some (j.dumps fs)
  pub ascii : is_ascii (f.encrypt (j.dumps fs)) ≡ true
  pub round_trip : j.loads (j.dumps fs) ≡ ok (obj fs)

-- That is so for what the channel's configuration says, if it says anything.
abbrev pub IsReliable : JsonText → Fernet → Fernet → NotificationChannel → Type 0
IsReliable j old new c =
    (fs : Fields) → decrypt_config j old c.config_json ≡ ok fs → Reliable j new fs

starts_with-append : (p s : Text) → starts_with (p ++ s) p ≡ true
unfolding starts_with
starts_with-append [] [] = refl
starts_with-append [] (c ∷ s) = refl
starts_with-append (c ∷ p) s = rw (==_refl c, starts_with-append p s) refl

drop-append : (p s : Text) → drop (length p) (p ++ s) ≡ s
drop-append [] s = refl
drop-append (c ∷ p) s = drop-append p s

pub is_encrypted-encrypt :
    (j : JsonText) (f : Fernet) (fs : Fields) → is_encrypted_config (encrypt_config j f fs) ≡ true
unfolding is_encrypted_config encrypt_config
is_encrypted-encrypt j f fs = starts_with-append enc_prefix (f.encrypt (j.dumps fs))

-- An encrypted configuration decrypts to what it was, with the same key.
pub decrypt-encrypt :
    (j : JsonText) (f : Fernet) (fs : Fields)
    → Reliable j f fs
    → decrypt_config j f (encrypt_config j f fs) ≡ ok fs
unfolding decrypt_config encrypt_config
decrypt-encrypt j f fs r =
    rw
      (
        starts_with-append enc_prefix (f.encrypt (j.dumps fs)),
        drop-append enc_prefix (f.encrypt (j.dumps fs)),
        r.ascii,
        r.decrypts,
        r.round_trip,
      )
      refl

-- The same channels but for the configurations, and these say the same, each under its key.
abbrev pub SameConfigs :
    JsonText → Fernet → Fernet → List NotificationChannel → List NotificationChannel → Type 0
SameConfigs j old new [] [] = Unit
SameConfigs j old new [] (c ∷ cs) = ⊥
SameConfigs j old new (c ∷ cs) [] = ⊥
SameConfigs j old new (c ∷ cs) (c' ∷ cs') =
    ((c' ≡ record c { config_json = c'.config_json })
      × (is_encrypted_config c'.config_json ≡ true)
      × ((fs : Fields) × ((decrypt_config j old c.config_json ≡ ok fs)
            × (decrypt_config j new c'.config_json ≡ ok fs))))
    × SameConfigs j old new cs cs'

module _ (j : JsonText) where
  each_channel-Same :
      (old new : Fernet) (step : NotificationChannel → Result NotificationChannel)
      → ((c c' : NotificationChannel)
          → IsReliable j old new c
          → step c ≡ ok c'
          → SameConfigs j old new (c ∷ []) (c' ∷ []))
      → (cs cs' : List NotificationChannel) → All (IsReliable j old new) cs
      → each_channel j step cs ≡ ok cs'
      → SameConfigs j old new cs cs'
  each_channel-Same old new step h [] cs' a q =
      subst (λ z. SameConfigs j old new [] z) (ok-injective q) tt
  each_channel-Same old new step h (c ∷ cs) cs' a q =
      let (c', e, r) = bind-eq-ok (step c) _ q in
      let (rest, f, g) = bind-eq-ok (each_channel j step cs) _ r in
      subst (λ z. SameConfigs j old new (c ∷ cs) z) (ok-injective g)
        ((h c c' a.0 e).0, each_channel-Same old new step h cs rest a.1 f)

  encrypted-Same :
      (old new : Fernet) (c : NotificationChannel) (plain : Fields)
      → Reliable j new plain
      → decrypt_config j old c.config_json ≡ ok plain
      → SameConfigs j old new (c ∷ []) (record c { config_json = encrypt_config j new plain } ∷ [])
  encrypted-Same old new c plain r h =
      ((refl, is_encrypted-encrypt j new plain, (plain, (h, decrypt-encrypt j new plain r))), tt)

  rekey_channel-Same :
      (old new : Fernet) (c c' : NotificationChannel)
      → IsReliable j old new c
      → rekey_channel j old new c ≡ ok c'
      → SameConfigs j old new (c ∷ []) (c' ∷ [])
  unfolding rekey_channel
  rekey_channel-Same old new c c' r q =
      let (plain, e, g) = map_ok-eq-ok _ (decrypt_config j old c.config_json) q in
      subst (λ z. SameConfigs j old new (c ∷ []) (z ∷ [])) g
        (encrypted-Same old new c plain (r plain e) e)

  -- After rekeying, every configuration is encrypted, and says under the new key what it said under
  -- the old one; nothing else of a channel is changed. The new key is taken to decrypt what it
  -- encrypted, and `json` to read what it wrote, for these configurations.
  pub rekey-SameConfigs :
      (old new : Fernet) (cs cs' : List NotificationChannel)
      → All (IsReliable j old new) cs
      → rekey_notification_secrets j old new cs ≡ ok cs'
      → SameConfigs j old new cs cs'
  unfolding rekey_notification_secrets
  rekey-SameConfigs old new cs cs' r q =
      each_channel-Same old new (rekey_channel j old new) (rekey_channel-Same old new) cs cs' r q

  read_plaintext-ok :
      (r : Result Fields) (plain : Fields) → read_plaintext j r ≡ ok plain → r ≡ ok plain
  read_plaintext-ok (ok fs) plain h = h
  read_plaintext-ok (err e) plain h = absurd (ground arith)

  not_succeeded : (e : Exception) → succeeded j (err e) ≡ ok true → ⊥
  not_succeeded value_error h = ground arith
  not_succeeded type_error h = ground arith
  not_succeeded overflow_error h = ground arith
  not_succeeded os_error h = ground arith
  not_succeeded gai_error h = ground arith
  not_succeeded secret_key_error h = ground arith
  not_succeeded webhook_url_error h = ground arith
  not_succeeded device_not_found h = ground arith
  not_succeeded device_action h = ground arith
  not_succeeded body_limit_exceeded h = ground arith
  not_succeeded read_deadline_exceeded h = ground arith
  not_succeeded integrity_error h = ground arith
  not_succeeded other_error h = ground arith

  succeeded-true : (r : Result Fields) → succeeded j r ≡ ok true → (fs : Fields) × (r ≡ ok fs)
  succeeded-true (ok fs) h = (fs, refl)
  succeeded-true (err e) h = absurd (not_succeeded e h)

  kept_if-Same :
      (f : Fernet) (c c' : NotificationChannel) (b : Bool)
      → is_encrypted_config c.config_json ≡ true
      → succeeded j (decrypt_config j f c.config_json) ≡ ok b
      → kept_if j c b ≡ ok c'
      → SameConfigs j f f (c ∷ []) (c' ∷ [])
  kept_if-Same f c c' false e h q = absurd (ground arith)
  kept_if-Same f c c' true e h q =
      let (fs, k) = succeeded-true (decrypt_config j f c.config_json) h in
      subst (λ z. SameConfigs j f f (c ∷ []) (z ∷ [])) (ok-injective q)
        ((refl, e, (fs, (k, k))), tt)

  migrate_channel-Same :
      (f : Fernet) (c c' : NotificationChannel)
      → IsReliable j f f c
      → migrate_channel j f c ≡ ok c'
      → SameConfigs j f f (c ∷ []) (c' ∷ [])
  unfolding migrate_channel can_decrypt
  migrate_channel-Same f c c' r q = elim (Bool-cases (is_encrypted_config c.config_json)) [
    | inl e ↦
        let (b, g, k) = bind-eq-ok (succeeded j (decrypt_config j f c.config_json)) _ (rw e at q) in
        kept_if-Same f c c' b e g k
    | inr e ↦
        let (plain, g, k) =
          map_ok-eq-ok _ (read_plaintext j (decrypt_config j f c.config_json)) (rw e at q) in
        subst (λ z. SameConfigs j f f (c ∷ []) (z ∷ [])) k
          (let e = read_plaintext-ok _ plain g in encrypted-Same f f c plain (r plain e) e)
  ]

  -- After the migration every configuration is encrypted, and decrypts to what it said before;
  -- nothing else of a channel is changed. The key and `json` are taken to be reliable as above.
  pub migrate-SameConfigs :
      (f : Fernet) (cs cs' : List NotificationChannel)
      → All (IsReliable j f f) cs
      → migrate_notification_secrets j f cs ≡ ok cs'
      → SameConfigs j f f cs cs'
  unfolding migrate_notification_secrets
  migrate-SameConfigs f cs cs' r q =
      each_channel-Same f f (migrate_channel j f) (migrate_channel-Same f) cs cs' r q

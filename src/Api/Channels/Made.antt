-- ===== src/Api/Channels/Made.antt =====
-- Which channels are made, and what a channel that is made holds.
use unifi_netwatcher.Base.{
  Bool-cases, length, is_empty, Text, t, strip, is_value_error, ok-injective, Result, ok, err, ℕ,
  ◌≤◌, ◌≡◌, refl, ◌⊎◌, inl, inr, Bool, true, false, Option, none, some, List, [], ◌∷◌, ◌++◌, arith,
}
use unifi_netwatcher.Models.{NotificationChannel, Db, info}
use unifi_netwatcher.Models.Values.{Fields, null}
use unifi_netwatcher.Security.Secrets.{JsonText, Fernet, is_encrypted_config}
use unifi_netwatcher.Notifications.Schemas.{Pydantic, parse_notification_config}
use unifi_netwatcher.Scanner.Alerts.{Provider}
use unifi_netwatcher.Api.Channels.{
  name_fits, store_new, Response, new_channel, raw_text, error_html, load_channel_config,
  create_valid, create_parsed, create_with, create_channel, channel_page, channel_ids,
}
use unifi_netwatcher.Security.Secrets.Migration.{Reliable, is_encrypted-encrypt, decrypt-encrypt}
use mathlib.Core.Path.{subst}
use unifi_netwatcher.Models.Tables.{add_event}

-- An error page.
abbrev pub IsRefused : Response → Type 0
IsRefused page = (message : Text) × (page ≡ error_html message 400)

module _ (fresh : List ℕ → ℕ) (json : JsonText) (p : Pydantic) (f : Fernet)
    (provider : Text → Option Provider) (at : ℕ) where
  -- A new channel, and how it is stored.
  pub record IsMade (name type config_json : Text) (db : Db) (answer : Response) (db' : Db)
      : Type 0 where
    pub channel : NotificationChannel
    pub shown : answer ≡ channel_page channel (is_empty db.channels)
    pub key : channel.id ≡ fresh (channel_ids db.channels)
    pub named : channel.name ≡ strip name
    pub name_bounds : (1 ≤ length channel.name) × (length channel.name ≤ 128)
    pub typed : channel.type ≡ type
    pub enabled : channel.enabled ≡ true
    pub found : Provider
    pub known : provider type ≡ some found
    pub config : Fields
    pub parsed : parse_notification_config json p type (raw_text config_json) ≡ ok config
    pub valid : found.validate_config config ≡ ok true
    pub encrypted : is_encrypted_config channel.config_json ≡ true
    pub loads : load_channel_config fresh json p f provider at channel ≡ ok config
    pub stored :
        db'
        ≡ add_event fresh at none
            (t "notification_created")
            info
            (t "Created alert channel: " ++ channel.name ++ t " (" ++ type ++ t ")")
            null
            (record db { channels = db.channels ++ channel ∷ [] })

  abbrev Outcome : Text → Text → Text → Db → Response × Db → Type 0
  Outcome name type config_json db r =
      (IsRefused r.0 × (r.1 ≡ db)) ⊎ IsMade name type config_json db r.0 r.1

  refused-Outcome :
      (name type config_json message : Text) (db : Db) (r : Response × Db)
      → ok (error_html message 400, db) ≡ ok r
      → Outcome name type config_json db r
  refused-Outcome name type config_json message db r h =
      subst (Outcome name type config_json db) (ok-injective h) (inl ((message, refl), refl))

  name_fits-bounds : (s : Text) → name_fits s ≡ true → (1 ≤ length s) × (length s ≤ 128)
  name_fits-bounds [] h = absurd (ground arith)
  name_fits-bounds (c ∷ s) h = (omega arith, ground arith)

  module _ (name type config_json : Text) (db : Db) where
    create_valid-Outcome :
        (found : Provider) (config : Fields) (r : Response × Db) (valid : Result Bool)
        → name_fits (strip name) ≡ true
        → provider type ≡ some found
        → parse_notification_config json p type (raw_text config_json) ≡ ok config
        → Reliable json f config
        → found.validate_config config ≡ valid
        → create_valid fresh json p f provider at (strip name) type config db valid ≡ ok r
        → Outcome name type config_json db r
    unfolding store_new new_channel load_channel_config
    create_valid-Outcome found config r (err e) fits known parsed reliable v h =
        absurd (ground arith)
    create_valid-Outcome found config r (ok false) fits known parsed reliable v h =
        refused-Outcome name type config_json _ db r h
    create_valid-Outcome found config r (ok true) fits known parsed reliable v h =
        subst (Outcome name type config_json db) (ok-injective h) (
          inr (record {
            channel = new_channel fresh json p f provider at (strip name) type config db.channels;
            shown = refl;
            key = refl;
            named = refl;
            name_bounds = name_fits-bounds (strip name) fits;
            typed = refl;
            enabled = refl;
            found = found;
            known = known;
            config = config;
            parsed = parsed;
            valid = v;
            encrypted = is_encrypted-encrypt json f config;
            loads = decrypt-encrypt json f config reliable;
            stored = refl;
          }))

    module _
        (reliable : (config : Fields)
          → parse_notification_config json p type (raw_text config_json) ≡ ok config
          → Reliable json f config) where
      create_parsed-Outcome :
          (found : Provider) (r : Response × Db) (parsed : Result Fields)
          → name_fits (strip name) ≡ true
          → provider type ≡ some found
          → parse_notification_config json p type (raw_text config_json) ≡ parsed
          → create_parsed fresh json p f provider at (strip name) type found db parsed ≡ ok r
          → Outcome name type config_json db r
      create_parsed-Outcome found r (err e) fits known q h = elim (Bool-cases (is_value_error e)) [
        | inl v ↦ refused-Outcome name type config_json _ db r (rw v at h)
        | inr v ↦ absurd (ground (arith, rw v at h))
      ]
      create_parsed-Outcome found r (ok config) fits known q h =
          create_valid-Outcome found config r (found.validate_config config) fits known q
            (reliable config q) refl h

      create_with-Outcome :
          (r : Response × Db) (found : Option Provider)
          → name_fits (strip name) ≡ true
          → provider type ≡ found
          → create_with fresh json p f provider at (strip name) type config_json db found ≡ ok r
          → Outcome name type config_json db r
      create_with-Outcome r none fits known h = refused-Outcome name type config_json _ db r h
      create_with-Outcome r (some found) fits known h =
          create_parsed-Outcome found r _ fits known refl h

      -- A request for a new channel that is answered either gets an error page and leaves the
      -- database as it was, or stores one channel: with a fresh key, the stripped name of 1 to 128
      -- characters, a known type, and a configuration that the schema and the provider accept,
      -- encrypted so that it loads as accepted, with one entry in the activity log. That holds
      -- where the key and `json` give back the accepted configuration.
      pub create_channel-Outcome :
          (page : Response) (db' : Db)
          → create_channel fresh json p f provider at name type config_json db ≡ ok (page, db')
          → (IsRefused page × (db' ≡ db)) ⊎ IsMade name type config_json db page db'
      unfolding create_channel
      create_channel-Outcome page db' h = elim (Bool-cases (name_fits (strip name))) [
        | inl fits ↦ create_with-Outcome (page, db') _ fits refl (rw fits at h)
        | inr bad ↦ refused-Outcome name type config_json _ db (page, db') (rw bad at h)
      ]

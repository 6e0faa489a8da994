-- ===== src/Api/Channels/Tested.antt =====
-- A channel that was made is tested with the configuration that was accepted.
use unifi_netwatcher.Base.{
  ==_refl, ==_ne, find, All, Text, t, map_ok, ok, ℕ, ◌≡◌, refl, sym, ap, ◌∙◌, ◌≢◌, true, Option,
  some, List, [], ◌∷◌, ◌++◌,
}
use unifi_netwatcher.Models.{NotificationChannel, Db}
use unifi_netwatcher.Api.Channels.Made.{IsMade}
use unifi_netwatcher.Api.Channels.{
  find_channel, Response, load_channel_config, test_with, test_page, record_test, test_channel,
  channel_ids, test_found,
}
use unifi_netwatcher.Security.Secrets.{JsonText, Fernet}
use unifi_netwatcher.Notifications.Schemas.{Pydantic}
use unifi_netwatcher.Scanner.Alerts.{Provider}
use unifi_netwatcher.Models.Values.{Fields}
use unifi_netwatcher.Models.Tables.{add_event}
use mathlib.Core.Path.{subst}

find-appended :
    (c : NotificationChannel) (cs : List NotificationChannel)
    → All (λ (x : NotificationChannel). x.id ≢ c.id) cs
    → find_channel c.id (cs ++ c ∷ []) ≡ some c
unfolding find_channel find
find-appended c [] h = rw (==_refl c.id) refl
find-appended c (x ∷ cs) h = rw (==_ne x.id c.id h.0) (find-appended c cs h.1)

module _ (fresh : List ℕ → ℕ) (json : JsonText) (p : Pydantic) (f : Fernet)
    (provider : Text → Option Provider) (at : ℕ) where
  test_with-loaded :
      (channel : NotificationChannel) (db : Db) (found : Provider) (config : Fields)
      → load_channel_config fresh json p f provider at channel ≡ ok config
      → found.validate_config config ≡ ok true
      → test_with fresh json p f provider at channel db (some found)
        ≡ map_ok
            (λ r. (
              test_page fresh json p f provider at r,
              record_test fresh json p f provider at channel r db,
            ))
            (found.send (t "NetWatcher Test Message!") config)
  test_with-loaded channel db found config loads valid = rw (loads, valid) refl

  -- A test of a channel that was just made, under a key that no other channel has, sends the
  -- test message with just the configuration that the schema accepted, by the provider of the
  -- accepted type: what the provider answers is shown and recorded, and what it raises is raised.
  pub test_channel-created :
      (name type config_json : Text) (db : Db) (answer : Response) (db' : Db)
      (made : IsMade fresh json p f provider at name type config_json db answer db')
      → All (λ (x : NotificationChannel). x.id ≢ fresh (channel_ids db.channels)) db.channels
      → test_channel fresh json p f provider at made.channel.id db'
        ≡ map_ok
            (λ r. (
              test_page fresh json p f provider at r,
              record_test fresh json p f provider at made.channel r db',
            ))
            (made.found.send (t "NetWatcher Test Message!") made.config)
  unfolding test_channel add_event
  test_channel-created name type config_json db answer db' made new =
      let c = made.channel in
      let there : find_channel c.id db'.channels ≡ some c =
        subst (λ (d : Db). find_channel c.id d.channels ≡ some c) (sym made.stored)
          (find-appended c db.channels (rw made.key new)) in
      let known : provider c.type ≡ some made.found = ap provider made.typed ∙ made.known in
      ap (test_found fresh json p f provider at db') there
      ∙ ap (test_with fresh json p f provider at c db') known
      ∙ (test_with-loaded c db' made.found made.config made.loads made.valid)

-- ===== src/Api/Channels/Deleted.antt =====
-- A deleted channel takes its deliveries along, and nothing else.
use unifi_netwatcher.Base.{
  ◌==◌, ==_iff, ==_ne, Bool-cases, not-true, filter, find, In, In-of_filter, In-filter, Text, t, ℕ,
  ◌≡◌, refl, sym, ◌∙◌, ◌≢◌, ◌↔◌, ◌⊎◌, inl, inr, false, not, Option, none, some, List, [], ◌∷◌, ◌++◌,
}
use unifi_netwatcher.Models.{NotificationChannel, NotificationDelivery, Db, info}
use unifi_netwatcher.Models.Values.{null}
use unifi_netwatcher.Api.Channels.{
  find_channel, is_to, delete_channel, remove_channel, delete_found,
}
use unifi_netwatcher.Security.Secrets.{JsonText, Fernet}
use unifi_netwatcher.Notifications.Schemas.{Pydantic}
use unifi_netwatcher.Models.Tables.{add_event}
use unifi_netwatcher.Scanner.Alerts.{Provider}

find_channel-removed :
    (i : ℕ) (cs : List NotificationChannel)
    → find_channel i (filter (λ (c : NotificationChannel). not (c.id == i)) cs) ≡ none
unfolding find_channel filter find
find_channel-removed i [] = refl
find_channel-removed i (c ∷ cs) = elim (Bool-cases (c.id == i)) [
  | inl e ↦ rw e (find_channel-removed i cs)
  | inr e ↦ rw (e, e) (find_channel-removed i cs)
]

find_channel-others :
    (i j : ℕ) (cs : List NotificationChannel)
    → i ≢ j
    → find_channel j (filter (λ (c : NotificationChannel). not (c.id == i)) cs) ≡ find_channel j cs
unfolding find_channel filter find
find_channel-others i j [] n = refl
find_channel-others i j (c ∷ cs) n = elim (Bool-cases (c.id == i)) [
  | inl e ↦
      rw (e, ==_ne c.id j (λ q. n (sym ((==_iff c.id i).0 e) ∙ q))) (find_channel-others i j cs n)
  | inr e ↦ rw (e, find_channel-others i j cs n) refl
]

-- What the deletion of a channel leaves.
pub record IsDeleted (fresh : List ℕ → ℕ) (at i : ℕ) (db : Db) (c : NotificationChannel) (db' : Db)
    : Type 0 where
  pub was_there : find_channel i db.channels ≡ some c
  pub gone : find_channel i db'.channels ≡ none
  pub others : (j : ℕ) → i ≢ j → find_channel j db'.channels ≡ find_channel j db.channels
  pub deliveries :
      (x : NotificationDelivery)
      → In x db'.deliveries ↔ (In x db.deliveries × (is_to i x.channel_id ≡ false))
  pub logged :
      db'.events
      ≡ (add_event fresh at none
          (t "notification_deleted")
          info
          (t "Deleted alert channel: " ++ c.name)
          null
          db).events
  pub devices : db'.devices ≡ db.devices
  pub settings : db'.settings ≡ db.settings

module _ (fresh : List ℕ → ℕ) (json : JsonText) (p : Pydantic) (f : Fernet)
    (provider : Text → Option Provider) (at : ℕ) where
  delete_found-IsDeleted :
      (i : ℕ) (db : Db) (found : Option NotificationChannel)
      → find_channel i db.channels ≡ found
      → ((found ≡ none) × ((delete_found fresh json p f provider at i db found).1 ≡ db))
        ⊎ ((c : NotificationChannel) × IsDeleted fresh at i db c
              (delete_found fresh json p f provider at i db found).1)
  unfolding remove_channel add_event
  delete_found-IsDeleted i db none q = inl (refl, refl)
  delete_found-IsDeleted i db (some c) q = inr (
    c,
    record {
      was_there = q;
      gone = find_channel-removed i db.channels;
      others = λ j n. find_channel-others i j db.channels n;
      deliveries = λ x. (
        λ m. let (there, kept) = In-of_filter x _ db.deliveries m in (there, not-true _ kept),
        λ (m, other). In-filter x _ db.deliveries m (rw other refl),
      );
      logged = refl;
      devices = refl;
      settings = refl;
    },
  )

  -- Deleting a channel removes it and every delivery to it, keeps the other channels and
  -- deliveries, adds one entry to the activity log, and leaves devices and settings alone; where
  -- there is no such channel, it changes nothing.
  pub delete_channel-IsDeleted :
      (i : ℕ) (db : Db)
      → ((find_channel i db.channels ≡ none)
          × ((delete_channel fresh json p f provider at i db).1 ≡ db))
        ⊎ ((c : NotificationChannel) × IsDeleted fresh at i db c
              (delete_channel fresh json p f provider at i db).1)
  unfolding delete_channel
  delete_channel-IsDeleted i db = delete_found-IsDeleted i db _ refl

-- ===== src/Api/Tools/Saved.antt =====
-- A saved setting is the one that is read.
use unifi_netwatcher.Models.{Setting, Db}
use unifi_netwatcher.Base.{
  Bool-cases, Option-cases, is_empty, find, Text, text_eq, text_eq_refl, eq_of_text_eq, strip, ℕ,
  ◌≡◌, refl, ap, ◌∙◌, ◌⊎◌, inl, inr, false, Option, none, some, List, [], ◌∷◌, ◌++◌, arith,
}
use unifi_netwatcher.Web.Settings.{
  find_setting, stored_int, value_of, resolve_observation_retention, stored_override,
  resolve_event_retention, resolve_non_negative_int_setting, event_retention_key,
  observation_retention_key,
}
use unifi_netwatcher.Api.Tools.{
  upsert_setting, set_value, save_retention, store_retention, parse_retention_days,
}
use unifi_netwatcher.Base.Decimal.{show, int_of_text-show, int_of_text-blank}
use unifi_netwatcher.Base.Ints.{ℤ, pos}
use unifi_netwatcher.Models.Tables.{add_event}

find-snoc :
    (key value : Text) (rows : List Setting)
    → find_setting key rows ≡ none
    → find_setting key (rows ++ record { key = key; value = some value } ∷ [])
      ≡ some (record { key = key; value = some value })
unfolding find_setting find
find-snoc key value [] h = rw (text_eq_refl key) refl
find-snoc key value (r ∷ rows) h = elim (Bool-cases (text_eq r.key key)) [
  | inl e ↦ absurd (ground (arith, rw e at h))
  | inr e ↦ rw e (find-snoc key value rows (rw e at h))
]

find-snoc_other :
    (key other value : Text) (rows : List Setting)
    → text_eq key other ≡ false
    → find_setting other (rows ++ record { key = key; value = some value } ∷ [])
      ≡ find_setting other rows
unfolding find_setting find
find-snoc_other key other value [] h = rw h refl
find-snoc_other key other value (r ∷ rows) h = rw (find-snoc_other key other value rows h) refl

find-set_value :
    (key value : Text) (rows : List Setting) (r : Setting)
    → find_setting key rows ≡ some r
    → value_of (find_setting key (set_value key value rows)) ≡ some value
unfolding find_setting find set_value
find-set_value key value [] r h = absurd (ground arith)
find-set_value key value (x ∷ rows) r h = elim (Bool-cases (text_eq x.key key)) [
  | inl e ↦ rw (e, e) refl
  | inr e ↦ rw (e, e) (find-set_value key value rows r (rw e at h))
]

find-set_value_other :
    (key other value : Text) (rows : List Setting)
    → text_eq key other ≡ false
    → find_setting other (set_value key value rows) ≡ find_setting other rows
unfolding find_setting find set_value
find-set_value_other key other value [] h = refl
find-set_value_other key other value (x ∷ rows) h = elim (Bool-cases (text_eq x.key key)) [
  | inl e ↦
      let q : text_eq x.key other ≡ false =
        ap (λ z. text_eq z other) (eq_of_text_eq x.key key e) ∙ h in
      rw (e, q) refl
  | inr e ↦ rw (e, find-set_value_other key other value rows h) refl
]

upsert_self :
    (key value : Text) (rows : List Setting)
    → value_of (find_setting key (upsert_setting key value rows)) ≡ some value
unfolding upsert_setting
upsert_self key value rows = elim (Option-cases (find_setting key rows)) [
  | inl h ↦ rw (h, upsert_setting) (ap value_of (find-snoc key value rows h))
  | inr (r, h) ↦ rw (h, upsert_setting) (find-set_value key value rows r h)
]

upsert_other :
    (key other value : Text) (rows : List Setting)
    → text_eq key other ≡ false
    → find_setting other (upsert_setting key value rows) ≡ find_setting other rows
unfolding upsert_setting
upsert_other key other value rows n = elim (Option-cases (find_setting key rows)) [
  | inl h ↦ rw (h, upsert_setting) (find-snoc_other key other value rows n)
  | inr (r, h) ↦ rw (h, upsert_setting) (find-set_value_other key other value rows n)
]

show-not_blank : (n : ℕ) → is_empty (strip (show n)) ≡ false
show-not_blank n = elim (Bool-cases (is_empty (strip (show n)))) [
  | inl e ↦ absurd (ground (arith, int_of_text-blank (show n) e, int_of_text-show n))
  | inr e ↦ e
]

stored_int-show :
    (key : Text) (n : ℕ) (rows : List Setting)
    → value_of (find_setting key rows) ≡ some (show n)
    → stored_int key rows ≡ some (pos n)
unfolding stored_int
stored_int-show key n rows h = rw (h, show-not_blank n) (int_of_text-show n)

resolve_stored :
    (key : Text) (n d : ℕ) (rows : List Setting)
    → value_of (find_setting key rows) ≡ some (show n)
    → resolve_non_negative_int_setting rows key d ≡ (n, stored_override)
unfolding resolve_non_negative_int_setting
resolve_stored key n d rows h = rw (stored_int-show key n rows h) refl

distinct_keys : text_eq event_retention_key observation_retention_key ≡ false
unfolding text_eq
distinct_keys = refl

module _ (fresh : List ℕ → ℕ) (at o e d : ℕ) (db : Db) where
  settings_after :
      (store_retention fresh at o e db).settings
      ≡ upsert_setting event_retention_key
          (show e)
          (upsert_setting observation_retention_key (show o) db.settings)
  unfolding add_event
  settings_after = refl

  stored-observations :
      resolve_observation_retention (store_retention fresh at o e db).settings d
      ≡ (o, stored_override)
  unfolding resolve_observation_retention
  stored-observations = rw settings_after (
      resolve_stored observation_retention_key o d _ (
        ap value_of
          (upsert_other event_retention_key observation_retention_key (show e) _ distinct_keys)
        ∙ upsert_self observation_retention_key (show o) db.settings))

  stored-events :
      resolve_event_retention (store_retention fresh at o e db).settings d ≡ (e, stored_override)
  unfolding resolve_event_retention
  stored-events = rw settings_after (
      resolve_stored event_retention_key e d _ (
        upsert_self event_retention_key (show e)
          (upsert_setting observation_retention_key (show o) db.settings)))

-- What a saved retention form shows as saved is what the retention job then reads, for observations
-- and for events, as an override of the environment; a form that is refused changes nothing.
pub save_retention-resolves :
    (fresh : List ℕ → ℕ) (at : ℕ) (obs_mode event_mode : Text) (obs_days event_days : Option ℤ)
    (db : Db) (obs_default event_default : ℕ)
    → ((save_retention fresh at obs_mode obs_days event_mode event_days db) ≡ (none, db))
      ⊎ ((o : ℕ) × ((e : ℕ) × (((save_retention fresh at obs_mode obs_days event_mode event_days
                  db).0
                ≡ some (o, e))
              × (resolve_observation_retention
                    (save_retention fresh at obs_mode obs_days event_mode event_days db).1.settings
                    obs_default
                  ≡ (o, stored_override))
              × (resolve_event_retention
                    (save_retention fresh at obs_mode obs_days event_mode event_days db).1.settings
                    event_default
                  ≡ (e, stored_override)))))
unfolding save_retention
save_retention-resolves fresh at obs_mode event_mode obs_days event_days db obs_default
      event_default =
    elim (Option-cases (parse_retention_days obs_mode obs_days)) [
      | inl h ↦ inl (rw h refl)
      | inr (o, h) ↦ elim (Option-cases (parse_retention_days event_mode event_days)) [
        | inl k ↦ inl (rw (h, k) refl)
        | inr (e, k) ↦ inr (
            rw (h, k)
              (
                o,
                (
                  e,
                  (
                    refl,
                    stored-observations fresh at o e obs_default db,
                    stored-events fresh at o e event_default db,
                  ),
                ),
              ))
      ]
    ]

-- ===== src/Retention.antt =====
-- app/retention.py: old observations and events are deleted, in batches.
mod Tests
pub mod Batches
pub mod Deliveries
pub mod Windows
use unifi_netwatcher.Models.{Db, Observation, Event, NotificationDelivery, info}
use unifi_netwatcher.Models.Tables.{add_event}
use unifi_netwatcher.Scanner.Alerts.{elem}
use unifi_netwatcher.Web.Settings.{
  Source, resolve_observation_retention, resolve_event_retention, stored_override,
  environment_default,
}
use unifi_netwatcher.Base.{
  ltb, if◌then◌else◌, length, take, is_empty, filter, Text, t, ◌>>=◌, map_ok, Result, ok, err,
  overflow_error, ℕ, zero, suc, ◌+◌, ◌-◌, ◌*◌, ◌^◌, Bool, false, not, ◌||◌, none, some, List, [],
  ◌∷◌, ◌++◌, map,
}
use unifi_netwatcher.Base.Decimal.{show}
use unifi_netwatcher.Models.Values.{Json, obj, int, fields}
use unifi_netwatcher.Base.Ints.{pos}

abbrev pub delete_batch_size : ℕ
delete_batch_size = 500

-- The ids of the first rows before the cutoff, at most one batch of them.
unfoldable pub batch_ids : {A : Type 0} → (A → ℕ) → (A → ℕ) → ℕ → List A → List ℕ
unfolding filter
batch_ids id_of time_of cutoff rows =
    take delete_batch_size (map id_of (filter (λ x. ltb (time_of x) cutoff) rows))

-- `.filter(id.in_(ids)).delete()`: how many rows, and the others.
unfoldable pub delete_in : {A : Type 0} → (A → ℕ) → List ℕ → List A → ℕ × List A
unfolding filter
delete_in id_of ids rows =
    (length (filter (λ x. elem (id_of x) ids) rows), filter (λ x. not (elem (id_of x) ids)) rows)

module _ {A : Type 0} (id_of time_of : A → ℕ) (cutoff : ℕ) where
  -- `while True`, once for each unit of fuel: how many rows are deleted, and the others.
  unfoldable pub prune : ℕ → List A → ℕ × List A
  prune zero rows = (0, rows)
  prune (suc fuel) rows =
      let ids = batch_ids id_of time_of cutoff rows in
      let (n, kept) = delete_in id_of ids rows in
      let (more, rest) = prune fuel kept in if is_empty ids then (0, rows) else (n + more, rest)

-- The loop over events, which deletes the deliveries of a batch before the batch: how many
-- deliveries and events are deleted, and the others.
abbrev pub refers_to : List ℕ → NotificationDelivery → Bool
refers_to ids x = elim x.event_id [ none ↦ false | some k ↦ elem k ids ]

unfoldable pub prune_events :
    ℕ
    → ℕ
    → List Event
    → List NotificationDelivery
    → (ℕ × ℕ) × (List Event × List NotificationDelivery)
unfolding filter
prune_events cutoff zero events deliveries = ((0, 0), (events, deliveries))
prune_events cutoff (suc fuel) events deliveries =
    let ids = batch_ids (λ (e : Event). e.id) (λ (e : Event). e.created_at) cutoff events in
    let (n, kept) = delete_in (λ (e : Event). e.id) ids events in
    let gone = filter (refers_to ids) deliveries in
    let left = filter (λ x. not (refers_to ids x)) deliveries in
    let ((more_d, more_e), rest) = prune_events cutoff fuel kept left in
    if is_empty ids
    then ((0, 0), (events, deliveries))
    else ((length gone + more_d, n + more_e), rest)

abbrev pub day : ℕ
day = 24 * 3600 * 10 ^ 6

-- `now - timedelta(days=days)`; a `timedelta` has at most 999999999 days, and no `datetime` is
-- before the first.
unfoldable pub cutoff_before : ℕ → ℕ → Result ℕ
cutoff_before now days =
    if ltb 999999999 days || ltb now (days * day) then err overflow_error else ok (now - days * day)

pub record Summary : Type 0 where
  pub observations_deleted : ℕ
  pub events_deleted : ℕ
  pub deliveries_deleted : ℕ
  pub observation_retention_days : ℕ
  pub event_retention_days : ℕ

unfoldable pub prune_observations : ℕ → ℕ → Db → Result (ℕ × Db)
prune_observations now days db =
    if ltb 0 days
    then map_ok
        (λ cutoff.
          let (n, kept) =
            prune (λ (o : Observation). o.id) (λ (o : Observation). o.seen_at) cutoff
              (suc (length db.observations)) db.observations in
          (n, record db { observations = kept }))
        (cutoff_before now days)
    else ok (0, db)

unfoldable pub prune_old_events : ℕ → ℕ → Db → Result ((ℕ × ℕ) × Db)
prune_old_events now days db =
    if ltb 0 days
    then map_ok
        (λ cutoff.
          let (n, (events, deliveries)) =
            prune_events cutoff (suc (length db.events)) db.events db.deliveries in
          (n, record db { events = events; deliveries = deliveries }))
        (cutoff_before now days)
    else ok ((0, 0), db)

abbrev source_text : Source → Text
source_text stored_override = t "stored override"
source_text environment_default = t "environment default"

unfoldable pub retention_message : Summary → Source → Source → Text
retention_message s obs_source event_source =
    t "Retention cleanup: deleted "
    ++ (show s.observations_deleted
        ++ (t " observations (policy "
            ++ (show s.observation_retention_days
                ++ (t "d/"
                    ++ (source_text obs_source
                        ++ (t "), "
                            ++ (show s.events_deleted
                                ++ (t " events (policy "
                                    ++ (show s.event_retention_days
                                        ++ (t "d/"
                                            ++ (source_text event_source
                                                ++ (t "), "
                                                    ++ (show s.deliveries_deleted
                                                        ++ t " notification deliveries")))))))))))))

abbrev int_of : ℕ → Json
int_of n = int (pos n)

-- The message, the event and the summary of a run; `at` is the time of the flush.
abbrev pub finish_retention :
    (List ℕ → ℕ) → ℕ → ℕ × Source → ℕ × Source → ℕ → (ℕ × ℕ) × Db → Summary × Db
finish_retention fresh at (obs_days, obs_source) (event_days, event_source) n ((m_d, m_e), db) =
    let summary : Summary = record {
      observations_deleted = n;
      events_deleted = m_e;
      deliveries_deleted = m_d;
      observation_retention_days = obs_days;
      event_retention_days = event_days;
    } in
    (
      summary,
      add_event fresh at none (t "retention_run") info
          (retention_message summary obs_source event_source)
          (obj (
            fields (
              (t "observations_deleted", int_of n)
              ∷ (t "events_deleted", int_of m_e)
              ∷ (t "deliveries_deleted", int_of m_d)
              ∷ (t "observation_retention_days", int_of obs_days)
              ∷ (t "event_retention_days", int_of event_days)
              ∷ [])))
          db,
    )

-- The last two numbers are the defaults of the environment. A raised exception leaves nothing
-- committed.
unfoldable pub run_retention : (List ℕ → ℕ) → ℕ → ℕ → ℕ → ℕ → Db → Result (Summary × Db)
run_retention fresh now at obs_default event_default db =
    let obs = resolve_observation_retention db.settings obs_default in
    let event = resolve_event_retention db.settings event_default in
    prune_observations now obs.0 db >>= λ pruned.
    map_ok (finish_retention fresh at obs event pruned.0) (prune_old_events now event.0 pruned.1)

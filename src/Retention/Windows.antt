-- ===== src/Retention/Windows.antt =====
-- What a retention run keeps.
use unifi_netwatcher.Models.{Db, Observation, Event, NotificationDelivery}
use unifi_netwatcher.Base.{
  ltb, if◌then◌else◌, Bool-cases, and-eq_true, length, filter, length-filter-le, Distinct, ok, err,
  overflow_error, ℕ, suc, ◌-◌, ◌*◌, ◌≡◌, refl, ◌⊎◌, inl, inr, Bool, true, false, not, ◌&&◌, ◌||◌,
  List, [], ◌∷◌, ◌++◌, map, arith,
}
use unifi_netwatcher.Retention.{
  day, prune_observations, refers_to, prune_old_events, run_retention, cutoff_before, Summary,
  finish_retention,
}
use unifi_netwatcher.Web.Settings.{resolve_observation_retention, resolve_event_retention}
use unifi_netwatcher.Models.Tables.{add_event, event_ids}
use unifi_netwatcher.Retention.Deliveries.{old_ids, prune_events_lem, old}
use unifi_netwatcher.Retention.Batches.{prune_lem}

-- The rows inside the window of so many days; none are too old without one.
abbrev pub inside : {A : Type 0} → (A → ℕ) → ℕ → ℕ → List A → List A
inside time_of now days rows =
    if ltb 0 days then filter (λ x. not (ltb (time_of x) (now - days * day))) rows else rows

-- A window that `datetime` cannot subtract.
abbrev pub overflows : ℕ → ℕ → Bool
overflows now days = ltb 0 days && (ltb 999999999 days || ltb now (days * day))

prune_observations_lem :
    (now days : ℕ) (db : Db)
    → Distinct (map (λ (o : Observation). o.id) db.observations)
    → overflows now days ≡ false
    → (n : ℕ) × (prune_observations now days db
        ≡ ok (
          n,
          record db {
            observations = inside (λ (o : Observation). o.seen_at) now days db.observations;
          },
        ))
unfolding prune_observations cutoff_before
prune_observations_lem now days db d h = elim (Bool-cases (ltb 0 days)) [
  | inr e ↦ (0, rw e refl)
  | inl e ↦
      let fits : (ltb 999999999 days || ltb now (days * day)) ≡ false = rw e at h in
      (
        length (filter (λ (o : Observation). ltb o.seen_at (now - days * day)) db.observations),
        rw
            (
              e,
              fits,
              prune_lem (λ (o : Observation). o.id) (λ (o : Observation). o.seen_at)
                  (now - days * day) (suc (length db.observations)) db.observations d
                  (omega (
                    arith,
                    length-filter-le (λ (o : Observation). ltb o.seen_at (now - days * day))
                        db.observations,
                  )),
            )
            refl,
      )
]

-- The deliveries of the events inside the window.
abbrev pub deliveries_inside : ℕ → ℕ → Db → List NotificationDelivery
deliveries_inside now days db =
    if ltb 0 days
    then filter (λ x. not (refers_to (old_ids (now - days * day) db.events) x)) db.deliveries
    else db.deliveries

prune_old_events_lem :
    (now days : ℕ) (db : Db)
    → Distinct (event_ids db.events)
    → overflows now days ≡ false
    → (n : ℕ × ℕ) × (prune_old_events now days db
        ≡ ok (
          n,
          record db {
            events = inside (λ (e : Event). e.created_at) now days db.events;
            deliveries = deliveries_inside now days db;
          },
        ))
unfolding prune_old_events cutoff_before
prune_old_events_lem now days db d h = elim (Bool-cases (ltb 0 days)) [
  | inr e ↦ ((0, 0), rw e refl)
  | inl e ↦
      let fits : (ltb 999999999 days || ltb now (days * day)) ≡ false = rw e at h in
      (
        (
          length (filter (refers_to (old_ids (now - days * day) db.events)) db.deliveries),
          length (filter (old (now - days * day)) db.events),
        ),
        rw
            (
              e,
              fits,
              prune_events_lem (now - days * day) (suc (length db.events)) db.events db.deliveries d
                  (omega (arith, length-filter-le (old (now - days * day)) db.events)),
            )
            refl,
      )
]

prune_observations-err :
    (now days : ℕ) (db : Db)
    → overflows now days ≡ true
    → prune_observations now days db ≡ err overflow_error
unfolding prune_observations cutoff_before
prune_observations-err now days db h = let (e, f) = and-eq_true (ltb 0 days) _ h in rw (e, f) refl

prune_old_events-err :
    (now days : ℕ) (db : Db)
    → overflows now days ≡ true
    → prune_old_events now days db ≡ err overflow_error
unfolding prune_old_events cutoff_before
prune_old_events-err now days db h = let (e, f) = and-eq_true (ltb 0 days) _ h in rw (e, f) refl

module _ (fresh : List ℕ → ℕ) (now at obs_default event_default : ℕ) (db : Db) where
  abbrev pub obs_days : ℕ
  obs_days = (resolve_observation_retention db.settings obs_default).0

  abbrev pub event_days : ℕ
  event_days = (resolve_event_retention db.settings event_default).0

  -- The tables after a run.
  pub record IsPruned (db' : Db) : Type 0 where
    pub observations :
        db'.observations ≡ inside (λ (o : Observation). o.seen_at) now obs_days db.observations
    pub events :
        (e : Event) × (db'.events
          ≡ inside (λ (g : Event). g.created_at) now event_days db.events ++ e ∷ [])
    pub deliveries : db'.deliveries ≡ deliveries_inside now event_days db
    pub rest :
        (db'.devices ≡ db.devices)
        × (db'.channels ≡ db.channels)
        × (db'.settings ≡ db.settings)
        × (db'.audit_log ≡ db.audit_log)

  -- A retention run keeps exactly the observations and events inside their windows, in their order,
  -- and the deliveries of no event that is gone, and adds an event for itself; a window of 0 days
  -- keeps everything. It raises, and changes nothing, exactly if a window reaches back before
  -- the first `datetime`. No two rows of a table are taken to have the same id.
  pub run_retention-IsPruned :
      Distinct (map (λ (o : Observation). o.id) db.observations)
      → Distinct (event_ids db.events)
      → (((overflows now obs_days || overflows now event_days) ≡ true)
          × (run_retention fresh now at obs_default event_default db ≡ err overflow_error))
        ⊎ (((overflows now obs_days || overflows now event_days) ≡ false)
            × ((s : Summary) × ((db' : Db) × ((run_retention fresh now at obs_default event_default
                        db
                      ≡ ok (s, db'))
                    × IsPruned db'))))
  unfolding run_retention add_event
  run_retention-IsPruned d d' = elim (Bool-cases (overflows now obs_days)) [
    | inl e ↦ inl (ground (arith, e), rw (prune_observations-err now obs_days db e) refl)
    | inr e ↦
        let (n, q) = prune_observations_lem now obs_days db d e in
        let db1 : Db = record db {
          observations = inside (λ (o : Observation). o.seen_at) now obs_days db.observations;
        } in
        elim (Bool-cases (overflows now event_days)) [
          | inl f ↦ inl (ground (arith, f), rw (q, prune_old_events-err now event_days db1 f) refl)
          | inr f ↦
              let (m, r) = prune_old_events_lem now event_days db1 d' f in
              let db2 : Db = record db1 {
                events = inside (λ (e : Event). e.created_at) now event_days db.events;
                deliveries = deliveries_inside now event_days db;
              } in
              let (s, db') =
                finish_retention fresh at (resolve_observation_retention db.settings obs_default)
                  (resolve_event_retention db.settings event_default) n (m, db2) in
              inr (
                ground (arith, e, f),
                (
                  s,
                  (
                    db',
                    (
                      rw (q, r) refl,
                      record {
                        observations = refl;
                        events = (_, refl);
                        deliveries = refl;
                        rest = (refl, refl, refl, refl);
                      },
                    ),
                  ),
                ),
              )
        ]
  ]

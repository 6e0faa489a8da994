-- ===== src/Retention/Tests.antt =====
-- A run of the retention job.
use unifi_netwatcher.Models.{Db, Observation, empty_db}
use unifi_netwatcher.Base.{
  ltb, length, filter, t, ok, err, overflow_error, ℕ, suc, ◌*◌, ◌≡◌, ◌⊎◌, true, false, not, ◌||◌,
  none, List, [], ◌∷◌, arith,
}
use unifi_netwatcher.Models.Values.{null}
use unifi_netwatcher.Retention.{day, run_retention, Summary, prune}
use unifi_netwatcher.Retention.Windows.{
  overflows, obs_days, event_days, IsPruned, run_retention-IsPruned,
}
use unifi_netwatcher.Retention.Batches.{prune_lem}

abbrev observation : Observation
observation = record {
  id = 1;
  device_id = none;
  mac = t "aa:bb:cc:00:11:2f";
  ip = none;
  hostname = none;
  site = none;
  ssid = none;
  ap_mac = none;
  raw_json = null;
  seen_at = 5;
}

abbrev db : Db
db = record empty_db { observations = observation ∷ [] }

abbrev fresh : List ℕ → ℕ
fresh ids = suc (length ids)

abbrev now : ℕ
now = 100 * day

run_retention-IsPruned_example :
    (((overflows now (obs_days fresh now now 30 0 db)
          || overflows now (event_days fresh now now 30 0 db))
        ≡ true)
      × (run_retention fresh now now 30 0 db ≡ err overflow_error))
    ⊎ (((overflows now (obs_days fresh now now 30 0 db)
            || overflows now (event_days fresh now now 30 0 db))
          ≡ false)
        × ((s : Summary) × ((db' : Db) × ((run_retention fresh now now 30 0 db ≡ ok (s, db'))
                × IsPruned fresh now now 30 0 db db'))))
run_retention-IsPruned_example = run_retention-IsPruned fresh now now 30 0 db ((λ m. m), tt) tt

prune_lem_example :
    prune (λ (o : Observation). o.id) (λ (o : Observation). o.seen_at) 9 2 (observation ∷ []) ≡ (
      length (filter (λ (o : Observation). ltb o.seen_at 9) (observation ∷ [])),
      filter (λ (o : Observation). not (ltb o.seen_at 9)) (observation ∷ []),
    )
unfolding filter
prune_lem_example =
    prune_lem (λ (o : Observation). o.id) (λ (o : Observation). o.seen_at) 9 2 (observation ∷ [])
      ((λ m. m), tt) (omega arith)

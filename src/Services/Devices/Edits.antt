-- ===== src/Services/Devices/Edits.antt =====
-- The changes of one device against an independent description: a map from keys to devices.
use mathlib.Core.Option
use unifi_netwatcher.Base.Ints.{pos}
use unifi_netwatcher.Base.{
  ◌==◌, if◌then◌else◌, ==_refl, ==_ne, Option-cases, length, Text, t, Result, ok, err,
  device_not_found, ℕ, ◌≡◌, refl, sym, ap, ◌∙◌, ◌⊎◌, inl, inr, Bool, none, some, List, [], ◌∷◌,
  ◌++◌,
}
use unifi_netwatcher.Models.{Db, Device, trusted, ignored, unknown, Event, AuditLog}
use unifi_netwatcher.Models.Tables.{
  find_device, save_device, add_event, add_audit, new_event, new_audit, find_device-id,
  find_device-save_self, find_device-save_ne,
}
use unifi_netwatcher.Services.Log.{
  RequestContext, event_type_for_action, log_device_action, truncate, max_detail_len,
}
use unifi_netwatcher.Services.Devices.{
  trust, log_change, ignore, previous_status, reset, rename, set_notes, get_or_raise, with_device,
}
use unifi_netwatcher.Models.Values.{Json, bool, nullable, int}
use mathlib.Core.Path.{subst}
use unifi_netwatcher.Base.Decimal.{show}
use native.Mathlib.Decide.{ℕ_discrete}

pub data Edit : Type 0 where
  trusting ignoring : Bool → Edit
  resetting : Edit
  renaming noting : Text → Edit

-- What an edit is to make of a device.
abbrev pub edited : ℕ → Edit → Device → Device
edited now (trusting bulk) d = record d { status = trusted; updated_at = now }
edited now (ignoring bulk) d = record d { status = ignored; updated_at = now }
edited now resetting d = record d { status = unknown; updated_at = now }
edited now (renaming name) d = record d { display_name = some name; updated_at = now }
edited now (noting notes) d = record d { notes = some notes; updated_at = now }

abbrev pub action_of : Edit → Text
action_of (trusting bulk) = t "trust"
action_of (ignoring bulk) = t "ignore"
action_of resetting = t "reset"
action_of (renaming name) = t "rename"
action_of (noting notes) = t "notes"

-- The rows that an action adds, and the tables that it leaves.
pub record IsLogged (ctx : RequestContext) (d : Device) (action : Text) (db db' : Db) : Type 0 where
  pub event :
      (e : Event) × ((db'.events ≡ db.events ++ e ∷ [])
        × (e.device_id ≡ some d.id)
        × (e.event_type ≡ event_type_for_action action))
  pub audit :
      (a : AuditLog) × ((db'.audit_log ≡ db.audit_log ++ a ∷ [])
        × (a.actor ≡ some ctx.actor)
        × (a.action ≡ action)
        × (a.target_id ≡ some (show d.id)))
  pub kept :
      (db'.observations ≡ db.observations)
      × (db'.channels ≡ db.channels)
      × (db'.deliveries ≡ db.deliveries)
      × (db'.settings ≡ db.settings)
      × (db'.oui_entries ≡ db.oui_entries)

module _ (fresh : List ℕ → ℕ) (ctx : RequestContext) (now at : ℕ) where
  abbrev pub run_edit : Edit → ℕ → Db → Result Device × Db
  run_edit (trusting bulk) i db = trust fresh ctx now at bulk i db
  run_edit (ignoring bulk) i db = ignore fresh ctx now at bulk i db
  run_edit resetting i db = reset fresh ctx now at i db
  run_edit (renaming name) i db = rename fresh ctx now at name i db
  run_edit (noting notes) i db = set_notes fresh ctx now at notes i db

  pub log_change-IsLogged :
      (d : Device) (action : Text) (details : List (Text × Json)) (db : Db)
      → IsLogged ctx d action db (log_change fresh ctx now at d action details db).1
  unfolding log_change log_device_action add_event add_audit new_event new_audit
  log_change-IsLogged d action details db = record {
    event = (_, (refl, refl, refl));
    audit = (_, (refl, refl, refl, refl));
    kept = (refl, refl, refl, refl, refl);
  }

  pub devices-log_change :
      (d : Device) (action : Text) (details : List (Text × Json)) (db : Db)
      → (log_change fresh ctx now at d action details db).1.devices ≡ save_device d db.devices
  unfolding log_change log_device_action add_event add_audit
  devices-log_change d action details db = refl

  -- The details that an edit logs.
  abbrev details_of : Edit → Device → List (Text × Json)
  details_of (trusting bulk) d = previous_status d ++ (t "bulk", bool bulk) ∷ []
  details_of (ignoring bulk) d = previous_status d ++ (t "bulk", bool bulk) ∷ []
  details_of resetting d = previous_status d
  details_of (renaming name) d =
      (t "old_name", nullable (truncate d.display_name max_detail_len))
      ∷ (t "new_name", nullable (truncate (some name) max_detail_len))
      ∷ []
  details_of (noting notes) d = (t "notes_length", int (pos (length notes))) ∷ []

  with_device-found :
      (i : ℕ) (db : Db) (change : Device → Result Device × Db) (d : Device)
      → find_device i db.devices ≡ some d
      → with_device fresh ctx now at i db change ≡ change d
  unfolding get_or_raise
  with_device-found i db change d h = rw (h, with_device, get_or_raise) refl

  with_device-missing :
      (i : ℕ) (db : Db) (change : Device → Result Device × Db)
      → find_device i db.devices ≡ none
      → with_device fresh ctx now at i db change ≡ (err device_not_found, db)
  unfolding get_or_raise
  with_device-missing i db change h = rw (h, with_device, get_or_raise) refl

  pub run_edit-found :
      (e : Edit) (i : ℕ) (db : Db) (d : Device)
      → find_device i db.devices ≡ some d
      → run_edit e i db
        ≡ log_change fresh ctx now at (edited now e d) (action_of e) (details_of e d) db
  unfolding trust ignore reset rename set_notes
  run_edit-found (trusting bulk) i db d h = with_device-found i db _ d h
  run_edit-found (ignoring bulk) i db d h = with_device-found i db _ d h
  run_edit-found resetting i db d h = with_device-found i db _ d h
  run_edit-found (renaming name) i db d h = with_device-found i db _ d h
  run_edit-found (noting notes) i db d h = with_device-found i db _ d h

  pub run_edit-missing :
      (e : Edit) (i : ℕ) (db : Db)
      → find_device i db.devices ≡ none
      → run_edit e i db ≡ (err device_not_found, db)
  unfolding trust ignore reset rename set_notes
  run_edit-missing (trusting bulk) i db h = with_device-missing i db _ h
  run_edit-missing (ignoring bulk) i db h = with_device-missing i db _ h
  run_edit-missing resetting i db h = with_device-missing i db _ h
  run_edit-missing (renaming name) i db h = with_device-missing i db _ h
  run_edit-missing (noting notes) i db h = with_device-missing i db _ h

  edited-id : (e : Edit) (d : Device) → (edited now e d).id ≡ d.id
  edited-id (trusting bulk) d = refl
  edited-id (ignoring bulk) d = refl
  edited-id resetting d = refl
  edited-id (renaming name) d = refl
  edited-id (noting notes) d = refl

  log_change-ok :
      (d : Device) (action : Text) (details : List (Text × Json)) (db : Db)
      → (log_change fresh ctx now at d action details db).0 ≡ ok d
  unfolding log_change
  log_change-ok d action details db = refl

  -- Trust, ignore, reset, rename and notes on a device that is there: the changed device is
  -- returned, one event and one entry of the audit log are added, for this device and this actor,
  -- and the tables of the rest are as they were. On a device that is not there they raise, and
  -- change nothing.
  pub run_edit-IsLogged :
      (e : Edit) (i : ℕ) (db : Db)
      → ((run_edit e i db ≡ (err device_not_found, db)) × (find_device i db.devices ≡ none))
        ⊎ ((d : Device) × ((find_device i db.devices ≡ some d)
              × ((run_edit e i db).0 ≡ ok (edited now e d))
              × IsLogged ctx (edited now e d) (action_of e) db (run_edit e i db).1))
  run_edit-IsLogged e i db = elim (Option-cases (find_device i db.devices)) [
    | inl h ↦ inl (run_edit-missing e i db h, h)
    | inr (d, h) ↦ inr (
      d,
      (
        h,
        ap (λ r. r.0) (run_edit-found e i db d h)
            ∙ log_change-ok (edited now e d) (action_of e) (details_of e d) db,
        subst (λ r. IsLogged ctx (edited now e d) (action_of e) db r.1)
            (sym (run_edit-found e i db d h))
            (log_change-IsLogged (edited now e d) (action_of e) (details_of e d) db),
      ),
    )
  ]

  -- Read as a map from keys to devices, an edit changes the value at its key as described, and no
  -- other.
  pub find-run_edit :
      (e : Edit) (i j : ℕ) (db : Db)
      → find_device j (run_edit e i db).1.devices ≡ (
          if i == j
          then Option.map (edited now e) (find_device j db.devices)
          else find_device j db.devices)
  find-run_edit e i j db = elim (Option-cases (find_device i db.devices)) [
    | inl h ↦ rw (run_edit-missing e i db h) (elim (ℕ_discrete i j) [
      | yes q ↦ rw (sym q, h, ==_refl i) refl
      | no q ↦ rw (==_ne i j q) refl
    ])
    | inr (d, h) ↦
        let c = edited now e d in
        let moved = run_edit-found e i db d h in
        let saved = devices-log_change c (action_of e) (details_of e d) db in
        let id : c.id ≡ i = edited-id e d ∙ find_device-id i db.devices d h in
        rw (moved, saved)
          (elim (ℕ_discrete i j) [
            | yes q ↦
                let here : find_device i (save_device c db.devices) ≡ some c =
                  subst (λ k. find_device k (save_device c db.devices) ≡ some c) id
                    (find_device-save_self c d db.devices
                      (subst (λ k. find_device k db.devices ≡ some d) (sym id) h)) in
                rw (sym q, h, ==_refl i, here) refl
            | no q ↦ rw (==_ne i j q) (find_device-save_ne j c db.devices (λ z. q (sym id ∙ z)))
          ])
  ]

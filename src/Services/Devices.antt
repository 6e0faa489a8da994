-- ===== src/Services/Devices.antt =====
-- app/services/devices.py: DeviceService.
pub mod Edits
pub mod Removal
pub mod Bulk
pub mod Blocking
use unifi_netwatcher.Base.{
  ◌==◌, length, filter, any, Text, t, Result, ok, err, device_not_found, device_action, ℕ, suc,
  Bool, true, false, not, Option, none, some, List, [], ◌∷◌, ◌++◌,
}
use unifi_netwatcher.Models.{
  Db, Device, DeviceStatus, unknown, trusted, ignored, blocked, info, Event, Observation,
  NotificationDelivery,
}
use unifi_netwatcher.Models.Tables.{find_device, save_device, add_event, add_audit}
use unifi_netwatcher.Unifi.Client.{Session, block_client, unblock_client}
use unifi_netwatcher.Services.Log.{
  RequestContext, log_device_action, truncate, max_detail_len, ip_or_null,
}
use unifi_netwatcher.Models.Values.{Json, fields, nullable, bool, int, str, obj}
use unifi_netwatcher.Base.Ints.{pos}
use unifi_netwatcher.Base.Decimal.{show}

-- The `StrEnum`'s text.
unfoldable pub status_text : DeviceStatus → Text
status_text unknown = t "unknown"
status_text trusted = t "trusted"
status_text ignored = t "ignored"
status_text blocked = t "blocked"

abbrev pub previous_status : Device → List (Text × Json)
previous_status d = (t "previous_status", str (status_text d.status)) ∷ []

-- The cascades of `db.delete(device)`: its observations, its events and the deliveries of those.
abbrev pub belongs_to : ℕ → Option ℕ → Bool
belongs_to i none = false
belongs_to i (some j) = j == i

unfoldable pub delete_device : ℕ → Db → Db
unfolding filter any
delete_device i db =
    let gone = filter (λ (e : Event). belongs_to i e.device_id) db.events in
    record db {
      devices = filter (λ (d : Device). not (d.id == i)) db.devices;
      observations = filter (λ (o : Observation). not (belongs_to i o.device_id)) db.observations;
      events = filter (λ (e : Event). not (belongs_to i e.device_id)) db.events;
      deliveries =
          filter
            (λ (x : NotificationDelivery).
              not (any (λ (e : Event). belongs_to e.id x.event_id) gone))
            db.deliveries;
    }

-- `now` is the time of the change, `at` that of the flush.
module _ (fresh : List ℕ → ℕ) (ctx : RequestContext) (now at : ℕ) where
  unfoldable pub get_or_raise : ℕ → Db → Result Device
  get_or_raise device_id db = elim (find_device device_id db.devices) [
    | none ↦ err device_not_found
    | some device ↦ ok device
  ]

  -- A changed row and its log entries.
  unfoldable pub log_change : Device → Text → List (Text × Json) → Db → Result Device × Db
  log_change device action details db = (
    ok device,
    log_device_action fresh at device action (fields details) ctx
        (record db { devices = save_device device db.devices }),
  )

  abbrev pub with_device : ℕ → Db → (Device → Result Device × Db) → Result Device × Db
  with_device device_id db change = elim (get_or_raise device_id db) [
    | err e ↦ (err e, db)
    | ok device ↦ change device
  ]

  abbrev change_status : DeviceStatus → Text → List (Text × Json) → Db → Device → Result Device × Db
  change_status status action details db d =
      log_change (record d { status = status; updated_at = now }) action details db

  unfoldable pub trust : Bool → ℕ → Db → Result Device × Db
  trust bulk device_id db = with_device device_id db (λ d.
      change_status trusted (t "trust") (previous_status d ++ (t "bulk", bool bulk) ∷ []) db d)

  unfoldable pub ignore : Bool → ℕ → Db → Result Device × Db
  ignore bulk device_id db = with_device device_id db (λ d.
      change_status ignored (t "ignore") (previous_status d ++ (t "bulk", bool bulk) ∷ []) db d)

  unfoldable pub reset : ℕ → Db → Result Device × Db
  reset device_id db =
      with_device device_id db (λ d. change_status unknown (t "reset") (previous_status d) db d)

  unfoldable pub rename : Text → ℕ → Db → Result Device × Db
  rename display_name device_id db = with_device device_id db (λ d.
      log_change (record d { display_name = some display_name; updated_at = now }) (t "rename")
        ((t "old_name", nullable (truncate d.display_name max_detail_len))
          ∷ (t "new_name", nullable (truncate (some display_name) max_detail_len))
          ∷ [])
        db)

  unfoldable pub set_notes : Text → ℕ → Db → Result Device × Db
  set_notes notes device_id db = with_device device_id db (λ d.
      log_change (record d { notes = some notes; updated_at = now }) (t "notes")
        ((t "notes_length", int (pos (length notes))) ∷ []) db)

  abbrev pub deleted : ℕ → Db → Device → Result (ℕ × Text) × Db
  deleted device_id db d =
      let noted =
        add_event fresh at none (t "deleted") info (t "Device deleted: " ++ d.mac)
          (obj (
            fields (
              (t "mac", str d.mac)
              ∷ (t "status", str (status_text d.status))
              ∷ (t "device_id", int (pos d.id))
              ∷ [])))
          db in
      let audited =
        add_audit fresh at ctx.actor (t "delete") (show d.id)
          (obj (
            fields (
              (t "mac", str d.mac)
              ∷ (t "status", str (status_text d.status))
              ∷ (t "client_ip", ip_or_null ctx.client_ip)
              ∷ (t "request_id", str ctx.request_id)
              ∷ (t "result", str (t "success"))
              ∷ [])))
          noted in
      (ok (device_id, d.mac), delete_device d.id audited)

  unfoldable pub delete : ℕ → Db → Result (ℕ × Text) × Db
  delete device_id db = elim (get_or_raise device_id db) [
    | err e ↦ (err e, db)
    | ok d ↦ deleted device_id db d
  ]

  -- What the controller said, then the change.
  abbrev pub after_command :
      Bool × Session → DeviceStatus → Text → Db → Device → Result Device × (Session × Db)
  after_command (false, s) status action db d = (err device_action, (s, db))
  after_command (true, s) status action db d =
      let (r, db') = change_status status action ((t "dry_run", bool s.dry_run_blocks) ∷ []) db d in
      (r, (s, db'))

  unfoldable pub block : ℕ → Session → Db → Result Device × (Session × Db)
  block device_id s db = elim (get_or_raise device_id db) [
    | err e ↦ (err e, (s, db))
    | ok d ↦ after_command (block_client d.mac s) blocked (t "blocked") db d
  ]

  unfoldable pub unblock : ℕ → Session → Db → Result Device × (Session × Db)
  unblock device_id s db = elim (get_or_raise device_id db) [
    | err e ↦ (err e, (s, db))
    | ok d ↦ after_command (unblock_client d.mac s) unknown (t "unblocked") db d
  ]

  -- One round of a bulk loop: a device that is not there is passed over.
  abbrev pub counted : ℕ → Db → Result Device × Db → ℕ × Db
  counted updated db (err e, db') = (updated, db)
  counted updated db (ok d, db') = (suc updated, db')

  abbrev pub bulk_step : (ℕ → Db → Result Device × Db) → ℕ → ℕ × Db → ℕ × Db
  bulk_step change device_id (updated, db) = counted updated db (change device_id db)

  abbrev pub bulk : (ℕ → Db → Result Device × Db) → List ℕ → ℕ × Db → ℕ × Db
  bulk change [] s = s
  bulk change (i ∷ ids) s = bulk change ids (bulk_step change i s)

  unfoldable pub bulk_trust : List ℕ → Db → ℕ × Db
  bulk_trust ids db = bulk (trust true) ids (0, db)

  unfoldable pub bulk_ignore : List ℕ → Db → ℕ × Db
  bulk_ignore ids db = bulk (ignore true) ids (0, db)

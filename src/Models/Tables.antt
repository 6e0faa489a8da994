-- ===== src/Models/Tables.antt =====
-- What the session does with the tables: look a device up by its key, write it back, add rows.
-- `fresh` is the key that the database gives to a new row of a table with the given keys.
use unifi_netwatcher.Base.{
  ◌==◌, if◌then◌else◌, find, Text, t, ℕ, ◌≡◌, refl, ◌≢◌, Option, some, List, [], ◌∷◌, ◌++◌, map,
  arith,
}
use unifi_netwatcher.Models.{Device, Event, EventSeverity, AuditLog, Db}
use unifi_netwatcher.Models.Values.{Json}

-- `db.query(Device).filter(Device.id == device_id).first()`
unfoldable pub find_device : ℕ → List Device → Option Device
unfolding find
find_device i devices = find (λ d. d.id == i) devices

-- The changed fields of a loaded row go to the row with its key.
unfoldable pub save_device : Device → List Device → List Device
save_device d [] = []
save_device d (x ∷ xs) = (if x.id == d.id then d else x) ∷ save_device d xs

abbrev pub device_ids : List Device → List ℕ
device_ids devices = map (λ d. d.id) devices

abbrev pub device_macs : List Device → List Text
device_macs devices = map (λ d. d.mac) devices

abbrev pub event_ids : List Event → List ℕ
event_ids events = map (λ e. e.id) events

module _ (fresh : List ℕ → ℕ) where
  -- `Event(...)`, flushed at the time `at`.
  unfoldable pub new_event : ℕ → Option ℕ → Text → EventSeverity → Text → Json → List Event → Event
  new_event at device_id event_type severity message metadata events = record {
    id = fresh (event_ids events);
    device_id = device_id;
    event_type = event_type;
    severity = severity;
    message = some message;
    metadata_json = metadata;
    created_at = at;
  }

  -- `db.add(Event(...))`
  unfoldable pub add_event : ℕ → Option ℕ → Text → EventSeverity → Text → Json → Db → Db
  add_event at device_id event_type severity message metadata db = record db {
    events =
        db.events ++ new_event at device_id event_type severity message metadata db.events ∷ [];
  }

  -- `db.add(AuditLog(...))` for a device.
  unfoldable pub new_audit : ℕ → Text → Text → Text → Json → List AuditLog → AuditLog
  new_audit at actor action target_id details log = record {
    id = fresh (map (λ (a : AuditLog). a.id) log);
    actor = some actor;
    action = action;
    target_type = some (t "device");
    target_id = some target_id;
    details_json = details;
    created_at = at;
  }

  unfoldable pub add_audit : ℕ → Text → Text → Text → Json → Db → Db
  add_audit at actor action target_id details db = record db {
    audit_log = db.audit_log ++ new_audit at actor action target_id details db.audit_log ∷ [];
  }

pub device_ids-save :
    (d : Device) (xs : List Device) → device_ids (save_device d xs) ≡ device_ids xs
unfolding save_device
device_ids-save d [] = refl
device_ids-save d (x ∷ xs) = ground (arith, device_ids-save d xs)

pub find_device-id : (i : ℕ) (xs : List Device) (d : Device) → find_device i xs ≡ some d → d.id ≡ i
unfolding find_device
find_device-id i [] d h = absurd (ground arith)
find_device-id i (x ∷ xs) d h = ground (arith, find_device-id i xs d)

pub find_device-save_self :
    (d e : Device) (xs : List Device)
    → find_device d.id xs ≡ some e
    → find_device d.id (save_device d xs) ≡ some d
unfolding find_device save_device
find_device-save_self d e [] h = absurd (ground arith)
find_device-save_self d e (x ∷ xs) h = ground (arith, find_device-save_self d e xs)

pub find_device-save_ne :
    (i : ℕ) (d : Device) (xs : List Device)
    → d.id ≢ i
    → find_device i (save_device d xs) ≡ find_device i xs
unfolding find_device save_device
find_device-save_ne i d [] h = refl
find_device-save_ne i d (x ∷ xs) h = ground (arith, find_device-save_ne i d xs h)

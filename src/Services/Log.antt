-- ===== src/Services/Log.antt =====
-- app/services/context.py and the log entries of app/services/devices.py.
use unifi_netwatcher.Base.{
  leb, if◌then◌else◌, length, take, Text, t, text_eq, ℕ, ◌-◌, Option, none, some, List, [], ◌∷◌,
  ◌++◌,
}
use unifi_netwatcher.Models.{Db, Device, info}
use unifi_netwatcher.Models.Tables.{add_event, add_audit}
use unifi_netwatcher.Models.Values.{Json, Fields, end, field, null, str, obj, get, has_key}
use unifi_netwatcher.Base.Decimal.{show}

pub record RequestContext : Type 0 where
  pub actor : Text
  pub client_ip : Text
  pub request_id : Text

abbrev pub system_context : Text → RequestContext
system_context request_id = record { actor = t "system"; client_ip = []; request_id = request_id }

unfoldable pub truncate : Option Text → ℕ → Option Text
truncate none limit = none
truncate (some value) limit =
    if leb (length value) limit then some value else some (take (limit - 1) value ++ 0x2026 ∷ [])

abbrev pub max_detail_len : ℕ
max_detail_len = 200

-- `dict.get(action, action)` on the table of event types
unfoldable pub event_type_for_action : Text → Text
event_type_for_action action =
    if text_eq action (t "trust")
    then t "trusted"
    else if text_eq action (t "ignore")
    then t "ignored"
    else if text_eq action (t "rename")
    then t "renamed"
    else if text_eq action (t "notes")
    then t "note_added"
    else if text_eq action (t "delete")
    then t "deleted"
    else action

-- `{**d, key: value}`: a key that is there keeps its place.
unfoldable pub set_field : Text → Json → Fields → Fields
set_field key v end = field key v end
set_field key v (field k w rest) =
    let others = set_field key v rest in if text_eq k key then field k v rest else field k w others

unfoldable pub drop_field : Text → Fields → Fields
drop_field key end = end
drop_field key (field k w rest) =
    let others = drop_field key rest in if text_eq k key then others else field k w others

-- `ctx.client_ip or None`
abbrev pub ip_or_null : Text → Json
ip_or_null [] = null
ip_or_null (c ∷ s) = str (c ∷ s)

unfoldable pub safe_details : Fields → RequestContext → Fields
safe_details details ctx =
    let result =
      if has_key details (t "result") then get details (t "result") else str (t "success") in
    set_field (t "result") result (
      set_field (t "request_id") (str ctx.request_id)
        (set_field (t "client_ip") (ip_or_null ctx.client_ip) details))

-- `at` is the time of the flush.
unfoldable pub log_device_action :
    (List ℕ → ℕ) → ℕ → Device → Text → Fields → RequestContext → Db → Db
log_device_action fresh at device action details ctx db =
    let safe = safe_details details ctx in
    add_event fresh at (some device.id) (event_type_for_action action) info
      (t "Device " ++ (device.mac ++ (t " " ++ action))) (obj (drop_field (t "result") safe))
      (add_audit fresh at ctx.actor action (show device.id) (obj safe) db)

-- ===== src/Models.antt =====
-- app/models.py and app/security/models.py: the rows of the tables, and the database as the
-- list of its rows. A time is a number of microseconds since `datetime.min`.
pub mod Values
pub mod Tables
use unifi_netwatcher.Base.{Text, ℕ, Bool, Option, List, []}
use unifi_netwatcher.Base.Ints.{ℤ}
use Values.{Json}

-- `StrEnum` DeviceStatus: the values that the check constraint of the column admits.
pub data DeviceStatus : Type 0 where
  unknown trusted ignored blocked : DeviceStatus

pub data EventSeverity : Type 0 where
  info warning error : EventSeverity

pub record Device : Type 0 where
  pub id : ℕ
  pub mac : Text
  pub hostname : Option Text
  pub display_name : Option Text
  pub ip : Option Text
  pub vendor : Option Text
  pub status : DeviceStatus
  pub first_seen_at : Option ℕ
  pub last_seen_at : Option ℕ
  pub last_site : Option Text
  pub last_ssid : Option Text
  pub last_ap_mac : Option Text
  pub name : Option Text
  pub is_wired : Option Bool
  pub radio_proto : Option Text
  pub channel : Option ℤ
  pub rssi : Option ℤ
  pub satisfaction : Option ℤ
  pub tx_rate_bps : Option ℤ
  pub rx_rate_bps : Option ℤ
  pub tx_bytes_r : Option ℤ
  pub rx_bytes_r : Option ℤ
  pub sw_port : Option ℤ
  pub dev_cat : Option Text
  pub dev_family : Option Text
  pub dev_vendor : Option Text
  pub os_name : Option Text
  pub notes : Option Text
  pub created_at : ℕ
  pub updated_at : ℕ

pub record Observation : Type 0 where
  pub id : ℕ
  pub device_id : Option ℕ
  pub mac : Text
  pub ip : Option Text
  pub hostname : Option Text
  pub site : Option Text
  pub ssid : Option Text
  pub ap_mac : Option Text
  pub raw_json : Json
  pub seen_at : ℕ

pub record Event : Type 0 where
  pub id : ℕ
  pub device_id : Option ℕ
  pub event_type : Text
  pub severity : EventSeverity
  pub message : Option Text
  pub metadata_json : Json
  pub created_at : ℕ

pub record NotificationChannel : Type 0 where
  pub id : ℕ
  pub type : Text
  pub name : Text
  pub enabled : Bool
  pub config_json : Json
  pub created_at : ℕ
  pub updated_at : ℕ

pub record NotificationDelivery : Type 0 where
  pub id : ℕ
  pub event_id : Option ℕ
  pub channel_id : Option ℕ
  pub success : Bool
  pub status_code : Option ℕ
  pub response : Option Text
  pub error : Option Text
  pub created_at : ℕ

pub record Setting : Type 0 where
  pub key : Text
  pub value : Option Text

pub record AuditLog : Type 0 where
  pub id : ℕ
  pub actor : Option Text
  pub action : Text
  pub target_type : Option Text
  pub target_id : Option Text
  pub details_json : Json
  pub created_at : ℕ

pub record OuiEntry : Type 0 where
  pub mac_prefix : Text
  pub vendor : Text

pub record Db : Type 0 where
  pub devices : List Device
  pub observations : List Observation
  pub events : List Event
  pub channels : List NotificationChannel
  pub deliveries : List NotificationDelivery
  pub settings : List Setting
  pub audit_log : List AuditLog
  pub oui_entries : List OuiEntry

abbrev pub empty_db : Db
empty_db = record {
  devices = [];
  observations = [];
  events = [];
  channels = [];
  deliveries = [];
  settings = [];
  audit_log = [];
  oui_entries = [];
}

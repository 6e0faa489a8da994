-- ===== src/Scanner/Telemetry.antt =====
-- app/scanner.py: the telemetry fields of a UniFi client, and their transfer to a device.
use unifi_netwatcher.Base.{
  if◌then◌else◌, Text, t, text_in, strip, lower, ◌>>=◌, Result, ok, err, overflow_error, ℕ, suc,
  ◌/◌, ◌^◌, Bool, true, false, Option, none, some, [], ◌∷◌,
}
use unifi_netwatcher.Base.Ints.{ℤ, pos, negsuc}
use unifi_netwatcher.Base.Decimal.{int_of_text, negate}
use unifi_netwatcher.Models.{Device}
use unifi_netwatcher.Models.Values.{
  Json, null, infinity, nan, bool, int, float, str, arr, obj, truthy,
}

-- A client object of `stat/sta`. A key whose value is a text or absent is an `Option Text`; a key
-- that the scan converts keeps its JSON value, `null` if it is absent.
pub record StaClient : Type 0 where
  pub mac : Option Text
  pub ip : Option Text
  pub hostname : Option Text
  pub oui : Option Text
  pub site_id : Option Text
  pub essid : Option Text
  pub ap_mac : Option Text
  pub name : Option Text
  pub is_wired : Json
  pub radio_proto : Option Text
  pub channel : Json
  pub rssi : Json
  pub signal : Json
  pub satisfaction : Json
  pub tx_rate : Json
  pub rx_rate : Json
  pub tx_bytes_r : Json
  pub rx_bytes_r : Json
  pub sw_port : Json
  pub dev_cat : Option Text
  pub dev_family : Option Text
  pub dev_vendor : Option Text
  pub os_name : Option Text
  pub raw : Json

-- `int(x)` of a float drops the fraction.
abbrev truncated : ℤ → ℕ → ℤ
truncated (pos m) k = pos (m / 10 ^ k)
truncated (negsuc m) k = negate (suc m / 10 ^ k)

-- `int(inf)` raises an `OverflowError`, which the `except` clause does not name.
unfoldable pub as_int : Json → Result (Option ℤ)
as_int null = ok none
as_int (bool b) = ok (some (if b then pos 1 else pos 0))
as_int (int n) = ok (some n)
as_int (float m k) = ok (some (truncated m k))
as_int infinity = err overflow_error
as_int nan = ok none
as_int (str s) = ok (int_of_text s)
as_int (arr vs) = ok none
as_int (obj fs) = ok none

unfoldable pub as_bool : Json → Option Bool
as_bool null = none
as_bool (bool b) = some b
as_bool (int n) = some (truthy (int n))
as_bool (float m k) = some (truthy (float m k))
as_bool infinity = some true
as_bool nan = some true
as_bool (str s) =
    let lowered = lower (strip s) in
    if text_in lowered (t "1" ∷ t "true" ∷ t "yes" ∷ [])
    then some true
    else if text_in lowered (t "0" ∷ t "false" ∷ t "no" ∷ [])
    then some false
    else none
as_bool (arr vs) = none
as_bool (obj fs) = none

pub record Telemetry : Type 0 where
  pub name : Option Text
  pub is_wired : Option Bool
  pub radio_proto : Option Text
  pub channel : Option ℤ
  pub rssi : Option ℤ
  pub satisfaction : Option ℤ
  pub tx_rate_bps : Option ℤ
  pub rx_rate_bps : Option ℤ
  pub tx_bytes_r : Option ℤ
  pub rx_bytes_r : Option ℤ
  pub sw_port : Option ℤ
  pub dev_cat : Option Text
  pub dev_family : Option Text
  pub dev_vendor : Option Text
  pub os_name : Option Text

-- `rssi`, or `signal` where it is `None`.
unfoldable pub rssi_or_signal : Json → Json → Json
rssi_or_signal null signal = signal
rssi_or_signal rssi signal = rssi

unfoldable pub client_telemetry : StaClient → Result Telemetry
client_telemetry c = do
  channel ← as_int c.channel
  rssi ← as_int (rssi_or_signal c.rssi c.signal)
  satisfaction ← as_int c.satisfaction
  tx_rate ← as_int c.tx_rate
  rx_rate ← as_int c.rx_rate
  tx_bytes ← as_int c.tx_bytes_r
  rx_bytes ← as_int c.rx_bytes_r
  sw_port ← as_int c.sw_port
  ok (record {
    name = c.name;
    is_wired = as_bool c.is_wired;
    radio_proto = c.radio_proto;
    channel = channel;
    rssi = rssi;
    satisfaction = satisfaction;
    tx_rate_bps = tx_rate;
    rx_rate_bps = rx_rate;
    tx_bytes_r = tx_bytes;
    rx_bytes_r = rx_bytes;
    sw_port = sw_port;
    dev_cat = c.dev_cat;
    dev_family = c.dev_family;
    dev_vendor = c.dev_vendor;
    os_name = c.os_name;
  })

-- `if value is not None: setattr(device, key, value)`
abbrev pub keep {ℓ} : {A : Type ℓ} → Option A → Option A → Option A
keep old none = old
keep old (some v) = some v

unfoldable pub apply_telemetry : Device → Telemetry → Device
apply_telemetry d m = record d {
  name = keep d.name m.name;
  is_wired = keep d.is_wired m.is_wired;
  radio_proto = keep d.radio_proto m.radio_proto;
  channel = keep d.channel m.channel;
  rssi = keep d.rssi m.rssi;
  satisfaction = keep d.satisfaction m.satisfaction;
  tx_rate_bps = keep d.tx_rate_bps m.tx_rate_bps;
  rx_rate_bps = keep d.rx_rate_bps m.rx_rate_bps;
  tx_bytes_r = keep d.tx_bytes_r m.tx_bytes_r;
  rx_bytes_r = keep d.rx_bytes_r m.rx_bytes_r;
  sw_port = keep d.sw_port m.sw_port;
  dev_cat = keep d.dev_cat m.dev_cat;
  dev_family = keep d.dev_family m.dev_family;
  dev_vendor = keep d.dev_vendor m.dev_vendor;
  os_name = keep d.os_name m.os_name;
}

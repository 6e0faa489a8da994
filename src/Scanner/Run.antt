-- ===== src/Scanner/Run.antt =====
-- app/scanner.py: `run_scan` and its lock.
use unifi_netwatcher.Base.{
  if◌then◌else◌, length, is_empty, Text, t, Result, ok, err, ℕ, Bool, true, false, not, ◌&&◌, none,
  some, List, [], ◌∷◌, ◌++◌, map,
}
use unifi_netwatcher.Base.Decimal.{show}
use unifi_netwatcher.Models.{info, error, Db}
use unifi_netwatcher.Models.Values.{null}
use unifi_netwatcher.Models.Tables.{add_event}
use unifi_netwatcher.Scanner.Telemetry.{StaClient}
use unifi_netwatcher.Scanner.Upsert.{
  Pass, mac_prefix, prepare, batch_load_devices, batch_load_oui_vendors, process_clients,
}
use unifi_netwatcher.Scanner.Alerts.{
  AlertIntent, Outside, devices_in_alert_cooldown, collect_intents, deliver_queued_alerts,
}

-- The answer of the UniFi client, and the times that the scan reads off the clock.
pub record ScanInput : Type 0 where
  pub source : Text
  pub clients : List StaClient
  pub mock_mode : Bool
  pub cooldown : ℕ
  pub started : ℕ
  pub now : ℕ
  pub written : ℕ
  pub delivered : AlertIntent → ℕ

pub record Report : Type 0 where
  pub success : Bool
  pub message : Text
  pub devices_processed : ℕ
  pub busy : Bool

unfoldable pub scan_failed_message : Text
scan_failed_message =
    t "Failed to fetch clients from UniFi. "
    ++ t "Check UNIFI_URL, credentials, and SSL settings, or set UNIFI_MOCK_MODE=true for testing."

unfoldable pub prefixes_of : List (Text × StaClient) → List Text
prefixes_of [] = []
prefixes_of ((mac, c) ∷ rest) = elim (mac_prefix mac) [
  | none ↦ prefixes_of rest
  | some p ↦ p ∷ prefixes_of rest
]

module _ (o : Outside) (i : ScanInput) where
  abbrev pub oui_vendors : Db → List (Text × Text)
  oui_vendors db = batch_load_oui_vendors db (prefixes_of (prepare i.clients))

  abbrev pub first_pass : Db → Result Pass
  first_pass db =
      process_clients o.fresh i.now i.written (oui_vendors db) (prepare i.clients) (record {
        db = db;
        by_mac = batch_load_devices db (map (λ p. p.0) (prepare i.clients));
        candidates = [];
      })

  abbrev pub intents_of : Pass → List AlertIntent
  intents_of st =
      collect_intents st.db.devices (devices_in_alert_cooldown i.cooldown i.now st.db st.candidates)
        st.candidates

  abbrev finished_message : Text
  finished_message =
      t "Scan finished ("
      ++ (i.source ++ (t "). Processed " ++ (show (length i.clients) ++ t " clients.")))

  -- From the end of the first pass on. The commit stands before the deliveries.
  unfoldable pub finish_scan : Pass → Report × Db
  finish_scan st =
      let committed =
        add_event o.fresh i.written none (t "scan_finished") info finished_message null st.db in
      (
        record {
          success = true;
          message = finished_message;
          devices_processed = length i.clients;
          busy = false;
        },
        deliver_queued_alerts o i.delivered (intents_of st) committed,
      )

  -- A scan that raises leaves what was committed before: `scan_started`.
  abbrev pub or_rollback : Db → Result Pass → Result Report × Db
  or_rollback db (ok st) = let (r, db') = finish_scan st in (ok r, db')
  or_rollback db (err e) = (err e, db)

  unfoldable pub run_scan_locked : Db → Result Report × Db
  run_scan_locked db =
      let started =
        add_event o.fresh i.started none (t "scan_started") info
          (t "Scan started (" ++ (i.source ++ t ")")) null db in
      if is_empty i.clients && not i.mock_mode
      then (
        ok (record {
          success = false;
          message = scan_failed_message;
          devices_processed = 0;
          busy = false;
        }),
        add_event o.fresh i.written none (t "scan_failed") error scan_failed_message null started,
      )
      else or_rollback started (first_pass started)

-- The process-wide lock `_scan_lock` beside the database.
pub record Scanner : Type 0 where
  pub locked : Bool
  pub db : Db

unfoldable pub scan_busy : Report
scan_busy = record {
  success = false;
  message = t "Scan already in progress";
  devices_processed = 0;
  busy = true;
}

-- `acquire(blocking=False)`: a scan that cannot have the lock reports that and does nothing else.
unfoldable pub acquire : Scanner → Bool × Scanner
acquire s = if s.locked then (false, s) else (true, record s { locked = true })

-- The `finally` clause.
unfoldable pub release : Scanner → Scanner
release s = record s { locked = false }

unfoldable pub run_scan : Outside → ScanInput → Scanner → Result Report × Scanner
run_scan o i s =
    let (acquired, held) = acquire s in
    let (report, db') = run_scan_locked o i held.db in
    if acquired then (report, release (record held { db = db' })) else (ok scan_busy, held)

-- ===== src/Scanner/Outcome.antt =====
-- What a scan as a whole guarantees.
use unifi_netwatcher.Base.{
  Bool-cases, length, is_empty, filter, In, Text, t, Result, ok, err, ℕ, ◌+◌, ◌≤◌, ◌<◌, ◌≡◌, refl,
  sym, inl, inr, true, false, not, ◌&&◌, ◌||◌, none, some, List, [], ◌∷◌, ◌++◌, arith,
}
use unifi_netwatcher.Models.{Db, NotificationChannel, Device, unknown, info}
use unifi_netwatcher.Scanner.Alerts.{Outside, deliver_queued_alerts, AlertIntent}
use unifi_netwatcher.Scanner.Run.{
  ScanInput, finish_scan, run_scan, first_pass, acquire, release, intents_of, or_rollback,
  run_scan_locked, Scanner, scan_busy, oui_vendors,
}
use unifi_netwatcher.Scanner.Upsert.{Pass}
use unifi_netwatcher.Models.Tables.{add_event, find_device}
use unifi_netwatcher.Scanner.Decisions.{process_clients-IsSound}
use unifi_netwatcher.Scanner.Kept.{Keeps, Keeps-refl}
use unifi_netwatcher.Scanner.Growth.{
  devices-deliver_each, Extends, IsAlerted-Extends, deliver_each-IsAlerted, process_clients-Extends,
}
use mathlib.Core.Path.{subst}
use unifi_netwatcher.Scanner.Selection.{intent_ids, intents_of_iff}
use unifi_netwatcher.Scanner.Cooldown.{IsAlerted}
use unifi_netwatcher.Scanner.Deliveries.{takers}
use unifi_netwatcher.Models.Values.{null}

abbrev pub enabled_channels : Db → List NotificationChannel
enabled_channels db = filter (λ (c : NotificationChannel). c.enabled) db.channels

module _ (o : Outside) (i : ScanInput) where
  devices-finish : (st : Pass) → (finish_scan o i st).1.devices ≡ st.db.devices
  unfolding finish_scan deliver_queued_alerts add_event
  devices-finish st =
      elim (Bool-cases (is_empty (intents_of o i st) || is_empty (enabled_channels st.db))) [
        | inl e ↦ rw e refl
        | inr e ↦
            rw e (devices-deliver_each o i.delivered (enabled_channels st.db) (intents_of o i st) _)
      ]

  module _ (fresh_new : (ids : List ℕ) → ¬ In (o.fresh ids) ids) where
    or_rollback-Keeps :
        (db : Db) (r : Result Pass)
        → first_pass o i db ≡ r
        → Keeps db.devices (or_rollback o i db r).1.devices
    or_rollback-Keeps db (ok st) e =
        subst (λ ds. Keeps db.devices ds) (sym (devices-finish st))
          (process_clients-IsSound o.fresh i.now i.written (oui_vendors o i db) fresh_new _ _ st
            e).keeps
    or_rollback-Keeps db (err x) e = Keeps-refl db.devices

    run_scan_locked-Keeps : (db : Db) → Keeps db.devices (run_scan_locked o i db).1.devices
    unfolding run_scan_locked
    run_scan_locked-Keeps db = elim (Bool-cases (is_empty i.clients && not i.mock_mode)) [
      | inl e ↦ rw e (unfold add_event in Keeps-refl db.devices)
      | inr e ↦ rw e (
          unfold add_event in
          or_rollback-Keeps
            (add_event o.fresh i.started none (t "scan_started") info
              (t "Scan started (" ++ (i.source ++ t ")")) null db)
            _ refl)
    ]

    -- Whatever the controller reports, and whether the scan succeeds, fails or raises: every device
    -- is still there afterwards, and its mac, status, display name, notes and first-seen time are
    -- unchanged. New keys are taken to differ from those in use.
    pub run_scan-Keeps : (s : Scanner) → Keeps s.db.devices (run_scan o i s).1.db.devices
    unfolding run_scan acquire release
    run_scan-Keeps s = elim (Bool-cases s.locked) [
      | inl e ↦ rw e (Keeps-refl s.db.devices)
      | inr e ↦ rw e (run_scan_locked-Keeps s.db)
    ]

    -- A scan alerts only about devices that were unknown and still are when it ends, if its first
    -- pass succeeds. New keys are taken to differ from those in use.
    pub alerts_unknown :
        (db : Db) (st : Pass) (k : ℕ)
        → first_pass o i db ≡ ok st
        → In k (intent_ids (intents_of o i st))
        → (d : Device) × (find_device k (finish_scan o i st).1.devices ≡ some d)
          × (d.status ≡ unknown)
    alerts_unknown db st k e m =
        let sound =
          process_clients-IsSound o.fresh i.now i.written (oui_vendors o i db) fresh_new _ _ st e in
        let candidate = ((intents_of_iff o i st k).0 m).0 in
        let (d, f, u) = sound.unknown_kept (λ j z. elim z [ ]) k candidate in
        (d, subst (λ ds. find_device k ds ≡ some d) (sym (devices-finish st)) f, u)

-- The lock is as it was after a scan: a scan that finds it held leaves everything as it is and
-- says so, and one that takes it gives it back, also if it raises.
pub run_scan_lock :
    (o : Outside) (i : ScanInput) (s : Scanner)
    → ((run_scan o i s).1.locked ≡ s.locked)
      × (s.locked ≡ true → run_scan o i s ≡ (ok scan_busy, s))
unfolding run_scan acquire release
run_scan_lock o i s = (ground arith, λ e. rw e)

nonempty_of_In : {A : Type 0} (a : A) (xs : List A) → In a xs → is_empty xs ≡ false
nonempty_of_In a [] m = elim m [ ]
nonempty_of_In a (x ∷ xs) m = refl

nonempty_of_takers :
    (o : Outside) (message : Text) (cs : List NotificationChannel)
    → 0 < length (takers o message cs)
    → is_empty cs ≡ false
nonempty_of_takers o message [] h = absurd (unfold filter in omega arith)
nonempty_of_takers o message (c ∷ cs) h = refl

finish-IsAlerted :
    (o : Outside) (i : ScanInput) (st : Pass) (a : AlertIntent) (cooldown now : ℕ)
    → In a (intents_of o i st)
    → 0 < length (takers o a.message (enabled_channels st.db))
    → now ≤ i.delivered a + cooldown
    → IsAlerted cooldown now a.device_id (finish_scan o i st).1.events
unfolding finish_scan deliver_queued_alerts add_event
finish-IsAlerted o i st a cooldown now m taken late =
    rw (nonempty_of_In a _ m, nonempty_of_takers o a.message _ taken)
      (deliver_each-IsAlerted o i.delivered (enabled_channels st.db) (intents_of o i st) _ a
        cooldown now m taken late)

-- After an alert that some channel took, no later scan within the cooldown alerts about the device,
-- as long as the events since then are kept.
pub alert_cooldown :
    (o o' : Outside) (i i' : ScanInput) (st st' : Pass) (db : Db) (a : AlertIntent)
    → In a (intents_of o i st)
    → 0 < length (takers o a.message (enabled_channels st.db))
    → Extends (finish_scan o i st).1.events db.events
    → first_pass o' i' db ≡ ok st'
    → i'.now ≤ i.delivered a + i'.cooldown
    → ¬ In a.device_id (intent_ids (intents_of o' i' st'))
alert_cooldown o o' i i' st st' db a m taken more e late again =
    let on_record = finish-IsAlerted o i st a i'.cooldown i'.now m taken late in
    let kept = IsAlerted-Extends i'.cooldown i'.now a.device_id _ db.events more on_record in
    let seen =
      process_clients-Extends o'.fresh i'.now i'.written (oui_vendors o' i' db) _ _ st' e in
    ((intents_of_iff o' i' st' a.device_id).0 again).2
      (IsAlerted-Extends i'.cooldown i'.now a.device_id db.events _ seen kept)

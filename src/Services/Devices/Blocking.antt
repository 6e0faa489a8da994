-- ===== src/Services/Devices/Blocking.antt =====
-- Blocking: the row follows the controller.
use unifi_netwatcher.Services.Devices.{get_or_raise, log_change, after_command, block, unblock}
use unifi_netwatcher.Services.Log.{RequestContext}
use unifi_netwatcher.Models.Values.{bool}
use unifi_netwatcher.Base.{
  Option-cases, Text, t, Exception, Result, ok, err, device_not_found, device_action, ℕ, ◌≡◌, refl,
  sym, ◌⊎◌, inl, inr, Bool, true, false, ◌||◌, none, some, List, [], ◌∷◌,
}
use unifi_netwatcher.Unifi.Client.{Session, post_stamgr, stamgr_cmd, block_client, unblock_client}
use unifi_netwatcher.Models.{DeviceStatus, Db, Device, blocked, unknown}
use unifi_netwatcher.Unifi.Client.Requests.{LastSent, stamgr_cmd-LastSent}
use unifi_netwatcher.Models.Tables.{save_device, find_device}
use unifi_netwatcher.Services.Devices.Edits.{devices-log_change}
use mathlib.Core.Path.{subst}

module _ (fresh : List ℕ → ℕ) (ctx : RequestContext) (now at : ℕ) where
  -- A command about a device was carried out, or simulated.
  abbrev pub IsCommanded : Text → Text → Session → Session → Type 0
  IsCommanded cmd mac s s' =
      ((s.mock_mode || s.dry_run_blocks) ≡ false) → LastSent (post_stamgr cmd mac) s'

  after_command-cases :
      (o : Bool × Session) (status : DeviceStatus) (action : Text) (db : Db) (d : Device)
      → (((after_command fresh ctx now at o status action db d).0 ≡ err device_action)
          × ((after_command fresh ctx now at o status action db d).1.1 ≡ db))
        ⊎ ((o.0 ≡ true)
            × ((after_command fresh ctx now at o status action db d).0
                ≡ ok (record d { status = status; updated_at = now }))
            × ((after_command fresh ctx now at o status action db d).1.0 ≡ o.1)
            × ((after_command fresh ctx now at o status action db d).1.1.devices
                ≡ save_device (record d { status = status; updated_at = now }) db.devices))
  unfolding log_change
  after_command-cases (false, s) status action db d = inl (refl, refl)
  after_command-cases (true, s) status action db d = inr (
    refl,
    refl,
    refl,
    devices-log_change fresh ctx now at (record d { status = status; updated_at = now }) action
        ((t "dry_run", bool s.dry_run_blocks) ∷ []) db,
  )

  abbrev with_status : DeviceStatus → Device → Device
  with_status status d = record d { status = status; updated_at = now }

  -- The two results of a command about a device: an exception and the database as it was, or the
  -- changed row.
  abbrev pub Follows :
      DeviceStatus → Text → ℕ → Session → Db → Result Device × (Session × Db) → Type 0
  Follows status cmd i s db r =
      ((e : Exception) × ((r.0 ≡ err e) × (r.1.1 ≡ db)))
      ⊎ ((d : Device) × ((find_device i db.devices ≡ some d)
            × (r.0 ≡ ok (with_status status d))
            × (r.1.1.devices ≡ save_device (with_status status d) db.devices)
            × IsCommanded cmd d.mac s r.1.0))

  after_command-Follows :
      (status : DeviceStatus) (cmd action : Text) (i : ℕ) (s : Session) (db : Db) (d : Device)
      → find_device i db.devices ≡ some d
      → Follows status cmd i s db
          (after_command fresh ctx now at (stamgr_cmd cmd d.mac s) status action db d)
  after_command-Follows status cmd action i s db d h =
      elim (after_command-cases (stamgr_cmd cmd d.mac s) status action db d) [
        | inl (q, k) ↦ inl (device_action, (q, k))
        | inr (done, r, same, saved) ↦ inr (
          d,
          (
            h,
            r,
            saved,
            λ real.
                subst (λ z. LastSent (post_stamgr cmd d.mac) z) (sym same)
                  ((stamgr_cmd-LastSent cmd d.mac s).1 real done),
          ),
        )
      ]

  pub get_or_raise-missing :
      (i : ℕ) (db : Db)
      → find_device i db.devices ≡ none
      → get_or_raise fresh ctx now at i db ≡ err device_not_found
  unfolding get_or_raise
  get_or_raise-missing i db h = rw (h, get_or_raise) refl

  pub get_or_raise-found :
      (i : ℕ) (db : Db) (d : Device)
      → find_device i db.devices ≡ some d
      → get_or_raise fresh ctx now at i db ≡ ok d
  unfolding get_or_raise
  get_or_raise-found i db d h = rw (h, get_or_raise) refl

  block-missing :
      (i : ℕ) (s : Session) (db : Db)
      → find_device i db.devices ≡ none
      → (block fresh ctx now at i s db ≡ (err device_not_found, (s, db)))
        × (unblock fresh ctx now at i s db ≡ (err device_not_found, (s, db)))
  unfolding block unblock
  block-missing i s db h = rw (get_or_raise-missing i db h, block, unblock) (refl, refl)

  block-found :
      (i : ℕ) (s : Session) (db : Db) (d : Device)
      → find_device i db.devices ≡ some d
      → (block fresh ctx now at i s db
          ≡ after_command fresh ctx now at
              (stamgr_cmd (t "block-sta") d.mac s)
              blocked
              (t "blocked")
              db
              d)
        × (unblock fresh ctx now at i s db
            ≡ after_command fresh ctx now at
                (stamgr_cmd (t "unblock-sta") d.mac s)
                unknown
                (t "unblocked")
                db
                d)
  unfolding block unblock block_client unblock_client
  block-found i s db d h = rw (get_or_raise-found i db d h, block, unblock) (refl, refl)

  -- Blocking and unblocking either raise and leave the database as it was, or the device is there
  -- and becomes blocked, or unknown again: then the command for its address was the last thing sent
  -- to the controller, unless commands are simulated.
  pub block-Follows :
      (i : ℕ) (s : Session) (db : Db)
      → Follows blocked (t "block-sta") i s db (block fresh ctx now at i s db)
        × Follows unknown (t "unblock-sta") i s db (unblock fresh ctx now at i s db)
  block-Follows i s db = elim (Option-cases (find_device i db.devices)) [
    | inl h ↦
        let (a, b) = block-missing i s db h in
        rw (a, b) (inl (device_not_found, (refl, refl)), inl (device_not_found, (refl, refl)))
    | inr (d, h) ↦
        let (a, b) = block-found i s db d h in
        (
          subst (Follows blocked (t "block-sta") i s db) (sym a)
              (after_command-Follows blocked (t "block-sta") (t "blocked") i s db d h),
          subst (Follows unknown (t "unblock-sta") i s db) (sym b)
              (after_command-Follows unknown (t "unblock-sta") (t "unblocked") i s db d h),
        )
  ]

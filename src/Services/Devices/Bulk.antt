-- ===== src/Services/Devices/Bulk.antt =====
-- The bulk loops against their description: every listed device, and no other.
use mathlib.Core.Option
use unifi_netwatcher.Services.Devices.Edits.{trusting, ignoring, resetting, renaming, noting}
use unifi_netwatcher.Base.{
  ◌==◌, if◌then◌else◌, ==_refl, ==_ne, Bool-cases, is_some, any, Result, ok, err, ℕ, suc, ◌+◌, ◌≡◌,
  refl, sym, ap, ◌∙◌, inl, inr, Bool, true, false, Option, none, some, List, [], ◌∷◌, arith,
}
use unifi_netwatcher.Services.Log.{RequestContext}
use unifi_netwatcher.Services.Devices.Edits.{
  Edit, run_edit, edited, run_edit-IsLogged, find-run_edit, trusting, ignoring, renaming,
}
use unifi_netwatcher.Models.{Db, Device}
use unifi_netwatcher.Services.Devices.{bulk_trust, bulk, bulk_step, bulk_ignore, counted}
use unifi_netwatcher.Models.Tables.{find_device}
use unifi_netwatcher.Scanner.Alerts.{elem}
use native.Mathlib.Decide.{ℕ_discrete}

module _ (fresh : List ℕ → ℕ) (ctx : RequestContext) (now at : ℕ) where
  edited_twice :
      (e : Edit) (o : Option Device)
      → Option.map (edited now e) (Option.map (edited now e) o) ≡ Option.map (edited now e) o
  edited_twice e none = refl
  edited_twice (trusting b) (some d) = refl
  edited_twice (ignoring b) (some d) = refl
  edited_twice resetting (some d) = refl
  edited_twice (renaming name) (some d) = refl
  edited_twice (noting notes) (some d) = refl

  abbrev run : Edit → List ℕ → ℕ × Db → ℕ × Db
  run e ids s = bulk fresh ctx now at (run_edit fresh ctx now at e) ids s

  abbrev step : Edit → ℕ → ℕ × Db → ℕ × Db
  step e i s = bulk_step fresh ctx now at (run_edit fresh ctx now at e) i s

  counted-ok :
      (n : ℕ) (db : Db) (r : Result Device × Db) (d : Device)
      → r.0 ≡ ok d
      → counted fresh ctx now at n db r ≡ (suc n, r.1)
  counted-ok n db (ok d', db') d h = refl
  counted-ok n db (err x, db') d h = absurd (ground arith)

  -- A round of the loop has the database of the single edit, and counts it if it did something.
  bulk_step-edit :
      (e : Edit) (i n : ℕ) (db : Db)
      → step e i (n, db) ≡ (
        (if is_some (find_device i db.devices) then suc n else n),
        (run_edit fresh ctx now at e i db).1,
      )
  bulk_step-edit e i n db = elim (run_edit-IsLogged fresh ctx now at e i db) [
    | inl (q, h) ↦ rw (ap (counted fresh ctx now at n db) q, h, ap (λ r. r.1) q) refl
    | inr (d, (h, r, l)) ↦
        rw (h) (counted-ok n db (run_edit fresh ctx now at e i db) (edited now e d) r)
  ]

  run-cons :
      (e : Edit) (i n : ℕ) (ids : List ℕ) (db : Db)
      → run e (i ∷ ids) (n, db)
        ≡ run e ids (
          (if is_some (find_device i db.devices) then suc n else n),
          (run_edit fresh ctx now at e i db).1,
        )
  run-cons e i n ids db = ap (run e ids) (bulk_step-edit e i n db)

  listed :
      (e : Edit) (i j : ℕ) (ids : List ℕ) (o : Option Device)
      → (if elem j ids
          then Option.map (edited now e) (if i == j then Option.map (edited now e) o else o)
          else if i == j
          then Option.map (edited now e) o
          else o)
        ≡ (if elem j (i ∷ ids) then Option.map (edited now e) o else o)
  unfolding any
  listed e i j ids o = elim (ℕ_discrete i j) [
    | yes q ↦
        rw (q, ==_refl j)
          (elim (Bool-cases (elem j ids)) [ inl h ↦ rw h (edited_twice e o) | inr h ↦ rw h refl ])
    | no q ↦ rw (==_ne i j q, ==_ne j i (λ z. q (sym z))) refl
  ]

  bulk-find :
      (e : Edit) (ids : List ℕ) (j n : ℕ) (db : Db)
      → find_device j (run e ids (n, db)).1.devices ≡ (
          if elem j ids
          then Option.map (edited now e) (find_device j db.devices)
          else find_device j db.devices)
  bulk-find e [] j n db = unfold any in refl
  bulk-find e (i ∷ ids) j n db =
      let db' = (run_edit fresh ctx now at e i db).1 in
      let rest = bulk-find e ids j (if is_some (find_device i db.devices) then suc n else n) db' in
      ap (λ r. find_device j r.1.devices) (run-cons e i n ids db)
      ∙ rest
      ∙ (rw (find-run_edit fresh ctx now at e i j db) (listed e i j ids (find_device j db.devices)))

  some_map : (e : Edit) (o : Option Device) → is_some (Option.map (edited now e) o) ≡ is_some o
  some_map e none = refl
  some_map e (some d) = refl

  is_some-run_edit :
      (e : Edit) (i j : ℕ) (db : Db)
      → is_some (find_device j (run_edit fresh ctx now at e i db).1.devices)
        ≡ is_some (find_device j db.devices)
  is_some-run_edit e i j db =
      rw (find-run_edit fresh ctx now at e i j db) (elim (Bool-cases (i == j)) [
        | inl h ↦ rw h (some_map e (find_device j db.devices))
        | inr h ↦ rw h refl
      ])

  -- How many of the keys name a device.
  unfoldable pub count_present : List ℕ → Db → ℕ
  count_present [] db = 0
  count_present (i ∷ ids) db =
      (if is_some (find_device i db.devices) then 1 else 0) + count_present ids db

  count-run_edit :
      (e : Edit) (i : ℕ) (ids : List ℕ) (db : Db)
      → count_present ids (run_edit fresh ctx now at e i db).1 ≡ count_present ids db
  unfolding count_present
  count-run_edit e i [] db = refl
  count-run_edit e i (j ∷ ids) db = rw (is_some-run_edit e i j db, count-run_edit e i ids db) refl

  counts : (b : Bool) (n m : ℕ) → (if b then suc n else n) + m ≡ n + ((if b then 1 else 0) + m)
  counts true n m = omega arith
  counts false n m = omega arith

  bulk-count :
      (e : Edit) (ids : List ℕ) (n : ℕ) (db : Db) → (run e ids (n, db)).0 ≡ n + count_present ids db
  unfolding count_present
  bulk-count e [] n db = omega arith
  bulk-count e (i ∷ ids) n db =
      ap (λ r. r.0) (run-cons e i n ids db)
      ∙ bulk-count e ids _ _
      ∙ (rw (count-run_edit e i ids db)
          (counts (is_some (find_device i db.devices)) n (count_present ids db)))

  -- `bulk_trust` and `bulk_ignore` change the listed devices that are there, and no other, as the
  -- single operations do, in whatever order and however often they are listed, and return how
  -- many of the keys name a device.
  pub bulk_lem :
      (ids : List ℕ) (j : ℕ) (db : Db)
      → (find_device j (bulk_trust fresh ctx now at ids db).1.devices ≡ (
          if elem j ids
          then Option.map (edited now (trusting true)) (find_device j db.devices)
          else find_device j db.devices))
        × ((bulk_trust fresh ctx now at ids db).0 ≡ count_present ids db)
        × (find_device j (bulk_ignore fresh ctx now at ids db).1.devices ≡ (
            if elem j ids
            then Option.map (edited now (ignoring true)) (find_device j db.devices)
            else find_device j db.devices))
        × ((bulk_ignore fresh ctx now at ids db).0 ≡ count_present ids db)
  unfolding bulk_trust bulk_ignore
  bulk_lem ids j db = (
    bulk-find (trusting true) ids j 0 db,
    omega (arith, bulk-count (trusting true) ids 0 db),
    bulk-find (ignoring true) ids j 0 db,
    omega (arith, bulk-count (ignoring true) ids 0 db),
  )

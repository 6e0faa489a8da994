-- ===== src/Services/Devices/Removal.antt =====
-- Deleting a device takes what belongs to it along, and leaves no reference to it.
use unifi_netwatcher.Models.{Device, Observation, Event, NotificationDelivery, Db}
use unifi_netwatcher.Services.Devices.{belongs_to, delete_device, delete, deleted}
use unifi_netwatcher.Base.{
  ◌==◌, ==_iff, ==_ne, Bool-cases, Option-cases, not-true, not-false, filter, any, find, All,
  All-filter_self, In, In-append_left, In-of_filter, In-filter, All-In, All-of_In, ok, err,
  device_not_found, ℕ, ◌≡◌, refl, sym, ap, ◌∙◌, ◌≢◌, ◌↔◌, ◌⊎◌, inl, inr, Bool, true, false, not,
  Option, none, some, List, [], ◌∷◌, ◌++◌, arith,
}
use unifi_netwatcher.Models.Tables.{find_device, add_event, add_audit, find_device-id}
use unifi_netwatcher.Services.Log.{RequestContext}
use unifi_netwatcher.Services.Devices.Blocking.{get_or_raise-missing, get_or_raise-found}
use mathlib.Core.Path.{subst}

-- The foreign keys of deliveries to events.
abbrev pub References : Db → Type 0
References db =
    All
      (λ (x : NotificationDelivery).
        (k : ℕ) → x.event_id ≡ some k → (e : Event) × ((In e db.events) × (e.id ≡ k)))
      db.deliveries

belongs_to_refl : (i : ℕ) (o : Option ℕ) → o ≡ some i → belongs_to i o ≡ true
belongs_to_refl i none h = absurd (ground arith)
belongs_to_refl i (some j) h = ground arith

any_of_In :
    {A : Type 0} (p : A → Bool) (a : A) (xs : List A) → In a xs → p a ≡ true → any p xs ≡ true
unfolding any
any_of_In p a [] m h = elim m [ ]
any_of_In p a (x ∷ xs) (inl q) h = let e : p x ≡ true = ap p (sym q) ∙ h in rw e refl
any_of_In p a (x ∷ xs) (inr m) h = ground (arith, any_of_In p a xs m h)

find_device-removed :
    (i : ℕ) (ds : List Device) → find_device i (filter (λ (d : Device). not (d.id == i)) ds) ≡ none
unfolding find_device filter find
find_device-removed i [] = refl
find_device-removed i (d ∷ ds) = elim (Bool-cases (d.id == i)) [
  | inl e ↦ rw e (find_device-removed i ds)
  | inr e ↦ rw (e, e) (find_device-removed i ds)
]

find_device-others :
    (i j : ℕ) (ds : List Device)
    → i ≢ j
    → find_device j (filter (λ (d : Device). not (d.id == i)) ds) ≡ find_device j ds
unfolding find_device filter find
find_device-others i j [] n = refl
find_device-others i j (d ∷ ds) n = elim (Bool-cases (d.id == i)) [
  | inl e ↦
      rw (e, ==_ne d.id j (λ q. n (sym ((==_iff d.id i).0 e) ∙ q))) (find_device-others i j ds n)
  | inr e ↦ rw (e, find_device-others i j ds n) refl
]

-- What is left of a database without a device.
pub record IsRemoved (i : ℕ) (db db' : Db) : Type 0 where
  pub gone : find_device i db'.devices ≡ none
  pub others : (j : ℕ) → i ≢ j → find_device j db'.devices ≡ find_device j db.devices
  pub observations :
      (o : Observation)
      → In o db'.observations ↔ (In o db.observations × (belongs_to i o.device_id ≡ false))
  pub events_left : All (λ (e : Event). belongs_to i e.device_id ≡ false) db'.events
  pub events_kept :
      (e : Event) → In e db.events → belongs_to i e.device_id ≡ false → In e db'.events
  pub references : References db → References db'

delete_device-References : (i : ℕ) (db : Db) → References db → References (delete_device i db)
unfolding delete_device
delete_device-References i db h = All-of_In _ _ (λ x m k q.
    let (m', kept) = In-of_filter x _ db.deliveries m in
    let (e, (me, id)) = All-In _ x db.deliveries h m' k q in
    (
      e,
      (
        In-filter e _ db.events me (elim (Bool-cases (belongs_to i e.device_id)) [
          | inr b ↦ not-false _ b
          | inl b ↦
              let dead =
                any_of_In (λ (g : Event). belongs_to g.id x.event_id) e
                  (filter (λ (g : Event). belongs_to i g.device_id) db.events)
                  (In-filter e (λ (g : Event). belongs_to i g.device_id) db.events me b)
                  (belongs_to_refl e.id x.event_id (rw id q)) in
              absurd (ground (arith, dead, kept))
        ]),
        id,
      ),
    ))

-- More events, the same deliveries.
References-more :
    (db db' : Db) (e : Event)
    → db'.events ≡ db.events ++ e ∷ []
    → db'.deliveries ≡ db.deliveries
    → References db
    → References db'
References-more db db' e q r h =
    rw (q, r)
      (All-of_In _ db.deliveries (λ x m k z.
        let (g, (mg, id)) = All-In _ x db.deliveries h m k z in
        (g, (In-append_left g db.events (e ∷ []) mg, id))))

delete_device-IsRemoved :
    (i : ℕ) (db db' : Db) (e : Event)
    → db'.devices ≡ db.devices
    → db'.observations ≡ db.observations
    → db'.events ≡ db.events ++ e ∷ []
    → db'.deliveries ≡ db.deliveries
    → IsRemoved i db (delete_device i db')
unfolding delete_device
delete_device-IsRemoved i db db' e ds os es xs = record {
  gone = find_device-removed i db'.devices;
  others = λ j n. find_device-others i j db'.devices n ∙ ap (find_device j) ds;
  observations = λ o. (
    λ m.
        let (m', b) = In-of_filter o _ db'.observations m in
        (rw os at m', not-true (belongs_to i o.device_id) b),
    λ z.
        In-filter o _ db'.observations (rw (sym os) at z.0)
          (not-false (belongs_to i o.device_id) z.1),
  );
  events_left = All-filter_self _ _ db'.events (λ g b. not-true (belongs_to i g.device_id) b);
  events_kept = λ g m b.
      In-filter g _ db'.events (rw es (In-append_left g db.events (e ∷ []) m))
        (not-false (belongs_to i g.device_id) b);
  references = λ h. delete_device-References i db' (References-more db db' e es xs h);
}

module _ (fresh : List ℕ → ℕ) (ctx : RequestContext) (now at : ℕ) where
  delete-missing :
      (i : ℕ) (db : Db)
      → find_device i db.devices ≡ none
      → delete fresh ctx now at i db ≡ (err device_not_found, db)
  unfolding delete
  delete-missing i db h = rw (get_or_raise-missing fresh ctx now at i db h, delete) refl

  delete-found :
      (i : ℕ) (db : Db) (d : Device)
      → find_device i db.devices ≡ some d
      → delete fresh ctx now at i db ≡ deleted fresh ctx now at i db d
  unfolding delete
  delete-found i db d h = rw (get_or_raise-found fresh ctx now at i db d h, delete) refl

  deleted-IsRemoved :
      (i : ℕ) (db : Db) (d : Device) → IsRemoved d.id db (deleted fresh ctx now at i db d).1
  unfolding add_event add_audit
  deleted-IsRemoved i db d = delete_device-IsRemoved d.id db _ _ refl refl refl refl

  -- Deleting a device that is not there raises and changes nothing. Deleting one that is there
  -- returns its key and address; afterwards it is not found, every other device is as it was, the
  -- observations are those of the others, no event refers to it, the events of the others are kept,
  -- and deliveries still refer to events, if they did.
  pub delete-IsRemoved :
      (i : ℕ) (db : Db)
      → ((find_device i db.devices ≡ none)
          × (delete fresh ctx now at i db ≡ (err device_not_found, db)))
        ⊎ ((d : Device) × ((find_device i db.devices ≡ some d)
              × ((delete fresh ctx now at i db).0 ≡ ok (i, d.mac))
              × IsRemoved i db (delete fresh ctx now at i db).1))
  delete-IsRemoved i db = elim (Option-cases (find_device i db.devices)) [
    | inl h ↦ inl (h, delete-missing i db h)
    | inr (d, h) ↦
        let id : d.id ≡ i = find_device-id i db.devices d h in
        inr (
          d,
          (
            h,
            ap (λ r. r.0) (delete-found i db d h),
            subst (λ r. IsRemoved i db r.1) (sym (delete-found i db d h))
                (subst (λ k. IsRemoved k db (deleted fresh ctx now at i db d).1) id
                  (deleted-IsRemoved i db d)),
          ),
        )
  ]

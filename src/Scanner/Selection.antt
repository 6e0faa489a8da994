-- ===== src/Scanner/Selection.antt =====
-- Which devices a scan alerts: unknown ones, outside their cooldown, once each.
use unifi_netwatcher.Base.{
  Bool-cases, Option-cases, any, In, Distinct, ℕ, ◌≡◌, sym, ◌∙◌, ◌≢◌, ◌↔◌, inl, inr, false, some,
  List, [], ◌∷◌, map, arith,
}
use unifi_netwatcher.Scanner.Upsert.{Pass}
use unifi_netwatcher.Scanner.Alerts.{Outside}
use unifi_netwatcher.Scanner.Run.{ScanInput, intents_of}
use native.Mathlib.Decide.{ℕ_discrete}
use unifi_netwatcher.Models.{Device}
use unifi_netwatcher.Models.Tables.{find_device, find_device-id}
use unifi_netwatcher.Scanner.Alerts.{elem, AlertIntent, intent_of, collect_intents, Outside}
use unifi_netwatcher.Scanner.Cooldown.{IsAlerted, cooldown_iff}

-- Membership of the pair read backwards.
not_elem_cons : (i j : ℕ) (ids : List ℕ) → elem i (j ∷ ids) ≡ false → (i ≢ j) × (elem i ids ≡ false)
unfolding any
not_elem_cons i j ids h = (ground arith, ground arith)

not_elem_cons_ne : (i j : ℕ) (ids : List ℕ) → i ≢ j → elem i ids ≡ false → elem i (j ∷ ids) ≡ false
unfolding any
not_elem_cons_ne i j ids n h = ground arith

abbrev pub intent_ids : List AlertIntent → List ℕ
intent_ids intents = map (λ a. a.device_id) intents

module _ (devices : List Device) where
  -- An intent is for a candidate that was not cooling.
  record Chosen (cooling ids : List ℕ) (i : ℕ) : Type 0 where
    candidate : In i ids
    awake : elem i cooling ≡ false
    device : Device
    found : find_device i devices ≡ some device

  collect_intents-Chosen :
      (cooling ids : List ℕ) (i : ℕ)
      → In i (intent_ids (collect_intents devices cooling ids))
      → Chosen cooling ids i
  unfolding collect_intents intent_of
  collect_intents-Chosen cooling [] i m = elim m [ ]
  collect_intents-Chosen cooling (j ∷ ids) i m = elim (Bool-cases (elem j cooling)) [
    | inl e ↦
        let c = collect_intents-Chosen cooling ids i (rw e at m) in
        record { candidate = inr c.candidate; awake = c.awake; device = c.device; found = c.found }
    | inr e ↦ elim (Option-cases (find_device j devices)) [
      | inl q ↦
          let c = collect_intents-Chosen (j ∷ cooling) ids i (rw (e, q) at m) in
          record {
            candidate = inr c.candidate;
            awake = (not_elem_cons i j cooling c.awake).1;
            device = c.device;
            found = c.found;
          }
      | inr (d, q) ↦ elim (rw (e, q) at m) [
        | inl p ↦ record {
          candidate = inl (p ∙ find_device-id j devices d q);
          awake = rw (p ∙ find_device-id j devices d q) e;
          device = d;
          found = rw (p ∙ find_device-id j devices d q) q;
        }
        | inr later ↦
            let c = collect_intents-Chosen (j ∷ cooling) ids i later in
            record {
              candidate = inr c.candidate;
              awake = (not_elem_cons i j cooling c.awake).1;
              device = c.device;
              found = c.found;
            }
      ]
    ]
  ]

  -- No device gets two intents.
  collect_intents-Distinct :
      (cooling ids : List ℕ) → Distinct (intent_ids (collect_intents devices cooling ids))
  unfolding collect_intents intent_of
  collect_intents-Distinct cooling [] = tt
  collect_intents-Distinct cooling (j ∷ ids) = elim (Bool-cases (elem j cooling)) [
    | inl e ↦ rw e (collect_intents-Distinct cooling ids)
    | inr e ↦ elim (Option-cases (find_device j devices)) [
      | inl q ↦ rw (e, q) (collect_intents-Distinct (j ∷ cooling) ids)
      | inr (d, q) ↦
          rw (e, q)
            (
              λ m.
                  let c = collect_intents-Chosen (j ∷ cooling) ids d.id m in
                  (not_elem_cons d.id j cooling c.awake).0 (find_device-id j devices d q),
              collect_intents-Distinct (j ∷ cooling) ids,
            )
    ]
  ]

  collect_intents_head :
      (cooling ids : List ℕ) (i : ℕ) (d : Device)
      → elem i cooling ≡ false
      → find_device i devices ≡ some d
      → In i (intent_ids (collect_intents devices cooling (i ∷ ids)))
  unfolding collect_intents intent_of
  collect_intents_head cooling ids i d a f = rw (a, f) (inl (sym (find_device-id i devices d f)))

  -- Every candidate outside its cooldown that is a device gets an intent.
  collect_intents_complete :
      (cooling ids : List ℕ) (i : ℕ) (d : Device)
      → In i ids
      → elem i cooling ≡ false
      → find_device i devices ≡ some d
      → In i (intent_ids (collect_intents devices cooling ids))
  unfolding collect_intents intent_of
  collect_intents_complete cooling [] i d m a f = elim m [ ]
  collect_intents_complete cooling (j ∷ ids) i d (inl p) a f =
      rw (← p) (collect_intents_head cooling ids i d a f)
  collect_intents_complete cooling (j ∷ ids) i d (inr m) a f = elim (Bool-cases (elem j cooling)) [
    | inl e ↦ rw e (collect_intents_complete cooling ids i d m a f)
    | inr e ↦ elim (ℕ_discrete i j) [
      | yes p ↦ rw (← p) (collect_intents_head cooling ids i d a f)
      | no n ↦ elim (Option-cases (find_device j devices)) [
        | inl q ↦
            rw (e, q)
              (collect_intents_complete (j ∷ cooling) ids i d m (not_elem_cons_ne i j cooling n a)
                f)
        | inr (x, q) ↦
            rw (e, q)
              (inr (
                collect_intents_complete (j ∷ cooling) ids i d m (not_elem_cons_ne i j cooling n a)
                  f))
      ]
    ]
  ]

-- The event records an alert that was sent to the device within the last `cooldown`.
module _ (o : Outside) (i : ScanInput) (st : Pass) where
  -- After the first pass of a scan, the alerts go exactly to the candidates that are devices of the
  -- database and to which no alert was sent within the cooldown before the scan's time.
  pub intents_of_iff :
      (k : ℕ)
      → In k (intent_ids (intents_of o i st))
        ↔ In k st.candidates
          × ((d : Device) × (find_device k st.db.devices ≡ some d))
          × (¬ IsAlerted i.cooldown i.now k st.db.events)
  intents_of_iff k = (
    λ m.
        let c = collect_intents-Chosen st.db.devices _ st.candidates k m in
        (
          c.candidate,
          (c.device, c.found),
          (cooldown_iff i.cooldown i.now st.db st.candidates k c.candidate).0 c.awake,
        ),
    λ (m, (d, f), n).
        collect_intents_complete st.db.devices _ st.candidates k d m
          ((cooldown_iff i.cooldown i.now st.db st.candidates k m).1 n) f,
  )

  -- One scan makes at most one alert for a device, also if the controller lists it twice.
  pub intents_of-Distinct : Distinct (intent_ids (intents_of o i st))
  intents_of-Distinct = collect_intents-Distinct st.db.devices _ st.candidates

-- ===== src/Scanner/Decisions.antt =====
-- A scan never changes what an operator decided about a device, and alerts unknown devices only.
use unifi_netwatcher.Base.{
  Bool-cases, Option-cases, dict_get, In, In-of_append, Text, t, text_eq, bind-eq-ok, ok-injective,
  ok, ℕ, ◌≡◌, refl, sym, ◌∙◌, inl, inr, true, Option, none, some, List, [], ◌∷◌, ◌++◌, arith,
}
use mathlib.Core.Path.{subst}
use unifi_netwatcher.Models.{Device, DeviceStatus, unknown}
use unifi_netwatcher.Models.Tables.{
  find_device, save_device, device_ids, find_device-id, find_device-save_self,
}
use unifi_netwatcher.Scanner.Telemetry.{StaClient, Telemetry, client_telemetry, apply_telemetry}
use unifi_netwatcher.Scanner.Upsert.{
  Pass, is_unknown, note_candidate, upsert_new, upsert_known, upsert, loaded, process_client,
  process_clients, refresh_device, new_device, add_observation, vendor_of,
}
use unifi_netwatcher.Mac.{normalize_mac}
use unifi_netwatcher.Scanner.Upsert.{vendor_of}
use unifi_netwatcher.Models.{info}
use unifi_netwatcher.Models.Values.{null}
use unifi_netwatcher.Models.Tables.{add_event}
use unifi_netwatcher.Scanner.Kept.{
  Kept, Keeps, Keeps-save, Keeps-refl, Keeps-append, Keeps-trans, find_device-append_new,
}

-- Every candidate is a device, and unknown.
abbrev pub AllUnknown : Pass → Type 0
AllUnknown st =
    (k : ℕ)
    → In k st.candidates
    → (d : Device) × (find_device k st.db.devices ≡ some d) × (d.status ≡ unknown)

pub db-note : (d : Device) (st : Pass) → (note_candidate d st).db ≡ st.db
unfolding note_candidate
db-note d st = ground arith

unknown_of : (s : DeviceStatus) → is_unknown s ≡ true → s ≡ unknown
unknown_of s h = ground arith

none-ne-some : {A : Type 0} {a : A} → ◌≡◌ {A = Option A} none (some a) → ⊥
none-ne-some h = cc

AllUnknown-note :
    (d : Device) (st : Pass)
    → find_device d.id st.db.devices ≡ some d
    → AllUnknown st
    → AllUnknown (note_candidate d st)
unfolding note_candidate
AllUnknown-note d st f h k m = elim (Bool-cases (is_unknown d.status)) [
  | inl e ↦ rw e (elim (In-of_append k st.candidates (d.id ∷ []) (rw e at m)) [
    | inl old ↦ h k old
    | inr (inl p) ↦ (d, rw p f, unknown_of d.status e)
    | inr (inr z) ↦ elim z [ ]
  ])
  | inr e ↦ rw e (h k (rw e at m))
]

module _ (fresh : List ℕ → ℕ) (now written : ℕ) (oui : List (Text × Text)) where
  refresh-Kept :
      (c : StaClient) (vendor ap_mac : Option Text) (m : Telemetry) (d : Device)
      → Kept d (refresh_device now written c vendor ap_mac m d)
  unfolding refresh_device apply_telemetry
  refresh-Kept c vendor ap_mac m d = record {
    id = refl;
    mac = refl;
    status = refl;
    display_name = refl;
    notes = refl;
    first_seen_at = refl;
  }

  loaded-find :
      (mac : Text) (st : Pass) (d : Device)
      → loaded mac st ≡ some d
      → find_device d.id st.db.devices ≡ some d
  unfolding loaded
  loaded-find mac st d e = elim (Option-cases (dict_get text_eq mac st.by_mac)) [
    | inl q ↦ absurd (none-ne-some (rw q at e))
    | inr (i, q) ↦
        let f : find_device i st.db.devices ≡ some d = rw q at e in
        subst (λ k. find_device k st.db.devices ≡ some d) (sym (find_device-id i st.db.devices d f))
          f
  ]

  AllUnknown-Keeps :
      (st st' : Pass)
      → Keeps st.db.devices st'.db.devices
      → st'.candidates ≡ st.candidates
      → AllUnknown st
      → AllUnknown st'
  AllUnknown-Keeps st st' keeps same h k m =
      let (d, f, u) = h k (rw same at m) in
      let (d', f', kept) = keeps k d f in (d', f', kept.status ∙ u)

  upsert_known-Keeps :
      (known : Device) (mac : Text) (c : StaClient) (m : Telemetry) (st : Pass)
      → find_device known.id st.db.devices ≡ some known
      → Keeps st.db.devices (upsert_known fresh now written oui known mac c m st).db.devices
  unfolding upsert_known add_observation
  upsert_known-Keeps known mac c m st f =
      let d = refresh_device now written c (vendor_of oui mac c) (normalize_mac c.ap_mac) m known in
      rw db-note (
        Keeps-save st.db.devices d known f
          (refresh-Kept c (vendor_of oui mac c) (normalize_mac c.ap_mac) m known))

  upsert_known-AllUnknown :
      (known : Device) (mac : Text) (c : StaClient) (m : Telemetry) (st : Pass)
      → find_device known.id st.db.devices ≡ some known
      → AllUnknown st
      → AllUnknown (upsert_known fresh now written oui known mac c m st)
  unfolding upsert_known add_observation
  upsert_known-AllUnknown known mac c m st f h =
      let d = refresh_device now written c (vendor_of oui mac c) (normalize_mac c.ap_mac) m known in
      let kept = refresh-Kept c (vendor_of oui mac c) (normalize_mac c.ap_mac) m known in
      let here : find_device d.id st.db.devices ≡ some known =
        subst (λ n. find_device n st.db.devices ≡ some known) (sym kept.id) f in
      let stored = record st.db { devices = save_device d st.db.devices } in
      let st' = record st { db = add_observation fresh now written oui d mac c stored } in
      AllUnknown-note d st' (find_device-save_self d known st.db.devices here)
        (AllUnknown-Keeps st st' (Keeps-save st.db.devices d known f kept) refl h)

  -- What one round, or all rounds, do to the devices.
  pub record IsSound (st st' : Pass) : Type 0 where
    pub keeps : Keeps st.db.devices st'.db.devices
    pub unknown_kept : AllUnknown st → AllUnknown st'

  module _ (fresh_new : (ids : List ℕ) → ¬ In (fresh ids) ids) where
    upsert_new-IsSound :
        (mac : Text) (c : StaClient) (m : Telemetry) (st : Pass)
        → IsSound st (upsert_new fresh now written oui mac c m st)
    unfolding upsert_new add_observation new_device add_event
    upsert_new-IsSound mac c m st =
        let id = fresh (device_ids st.db.devices) in
        let d = new_device id now written mac c (vendor_of oui mac c) (normalize_mac c.ap_mac) m in
        let stored = record st.db { devices = st.db.devices ++ d ∷ [] } in
        let observed = add_observation fresh now written oui d mac c stored in
        let noted =
          add_event fresh written (some id) (t "discovered") info
            (t "New device discovered: " ++ mac) null observed in
        let st' : Pass = record {
          db = noted;
          by_mac = (mac, id) ∷ st.by_mac;
          candidates = st.candidates;
        } in
        let keeps : Keeps st.db.devices st'.db.devices = Keeps-append st.db.devices (d ∷ []) in
        record {
          keeps = rw db-note keeps;
          unknown_kept = λ h.
              AllUnknown-note d st' (find_device-append_new d st.db.devices (fresh_new _))
                (AllUnknown-Keeps st st' keeps refl h);
        }

    upsert-IsSound :
        (found : Option Device) (mac : Text) (c : StaClient) (m : Telemetry) (st : Pass)
        → loaded mac st ≡ found
        → IsSound st (upsert fresh now written oui found mac c m st)
    unfolding upsert
    upsert-IsSound none mac c m st e = upsert_new-IsSound mac c m st
    upsert-IsSound (some known) mac c m st e =
        let f = loaded-find mac st known e in
        record {
          keeps = upsert_known-Keeps known mac c m st f;
          unknown_kept = upsert_known-AllUnknown known mac c m st f;
        }

    process_client-IsSound :
        (p : Text × StaClient) (st st' : Pass)
        → process_client fresh now written oui p st ≡ ok st'
        → IsSound st st'
    unfolding process_client
    process_client-IsSound (mac, c) st st' h =
        let (m, _, e) = bind-eq-ok (client_telemetry c) _ h in
        subst (λ r. IsSound st r) (ok-injective e) (upsert-IsSound (loaded mac st) mac c m st refl)

    pub process_clients-IsSound :
        (ps : List (Text × StaClient)) (st st' : Pass)
        → process_clients fresh now written oui ps st ≡ ok st'
        → IsSound st st'
    unfolding process_clients
    process_clients-IsSound [] st st' h =
        subst (λ r. IsSound st r) (ok-injective h)
          (record { keeps = Keeps-refl st.db.devices; unknown_kept = λ u. u })
    process_clients-IsSound (p ∷ ps) st st' h =
        let (mid, e, rest) = bind-eq-ok (process_client fresh now written oui p st) _ h in
        let a = process_client-IsSound p st mid e in
        let b = process_clients-IsSound ps mid st' rest in
        record {
          keeps = Keeps-trans st.db.devices mid.db.devices st'.db.devices a.keeps b.keeps;
          unknown_kept = λ u. b.unknown_kept (a.unknown_kept u);
        }

-- ===== src/Api/Trusted/Outcome.antt =====
-- An import makes its rows trusted, and touches nothing else.
use unifi_netwatcher.Base.{
  Bool-cases, Option-cases, and-eq_true, is_empty, All, dict_get, In, Text, text_eq, eq_of_text_eq,
  ℕ, ◌≡◌, refl, sym, ap, ◌∙◌, inl, inr, not, ◌&&◌, Option, none, some, List, [], ◌∷◌, ◌++◌, map,
  arith,
}
use unifi_netwatcher.Models.{Device, trusted}
use unifi_netwatcher.Models.Tables.{
  find_device, device_ids, add_event, add_audit, find_device-save_self, find_device-id,
}
use mathlib.Core.Path.{subst}
use unifi_netwatcher.Api.Trusted.{
  is_trusted, fill_name, Import, trust_existing, is_blank, import_row, existing_device, import_new,
  imported_device, import_rows,
}
use mathlib.Core.Option.{some-injective}
use unifi_netwatcher.Services.Log.{log_device_action}
use unifi_netwatcher.Api.Trusted.Applied.{
  Updates, Updates-refl, IsIndexed, Updates-save, IsTrustedMac, Updates-trans, IsTrustedMac-Updates,
  Updates-append, is_trusted-true,
}
use unifi_netwatcher.Scanner.Kept.{find_device-append_new, find_device-append}

module _ (fresh : List ℕ → ℕ) (request_id : Text → Text) (now at : ℕ) (touched : Device → ℕ) where
  fill_name-Updates :
      (macs : List Text) (i : ℕ) (note : Text) (name : Option Text) (st : Import) (d : Device)
      → find_device i st.db.devices ≡ some d
      → d.display_name ≡ name
      → Updates macs st.db.devices
          (fill_name fresh request_id now at touched i note name st).db.devices
  unfolding fill_name
  fill_name-Updates macs i note name st d f same =
      elim (Bool-cases (not (is_empty note) && is_blank name)) [
        | inr e ↦ rw e (Updates-refl macs st.db.devices)
        | inl e ↦
            rw (e, f)
              (Updates-save macs st.db.devices _ d
                (subst (λ k. find_device k st.db.devices ≡ some d)
                  (sym (find_device-id i st.db.devices d f)) f)
                (record {
                  id = refl;
                  mac = refl;
                  status = inl refl;
                  keeps_trust = λ h. h;
                  display_name = inr (rw same ((and-eq_true _ _ e).1));
                  notes = refl;
                  last_seen_at = refl;
                }))
      ]

  existing-fill_name :
      (i : ℕ) (note : Text) (name : Option Text) (st : Import) (o : Option Device)
      → find_device i st.db.devices ≡ o
      → (fill_name fresh request_id now at touched i note name st).existing ≡ st.existing
  unfolding fill_name
  existing-fill_name i note name st none f = rw f (ground arith)
  existing-fill_name i note name st (some d) f = rw f (ground arith)

  -- A known device is trusted, and its log entries are written.
  record Trusts (macs : List Text) (d : Device) (st st' : Import) : Type 0 where
    device : Device
    found : find_device d.id st'.db.devices ≡ some device
    updates : Updates macs st.db.devices st'.db.devices
    existing : st'.existing ≡ st.existing
    status : device.status ≡ trusted
    mac : device.mac ≡ d.mac
    display_name : device.display_name ≡ d.display_name

  trust_existing-Trusts :
      (macs : List Text) (d : Device) (st : Import)
      → In d.mac macs
      → find_device d.id st.db.devices ≡ some d
      → Trusts macs d st (trust_existing fresh request_id now at touched d st)
  unfolding trust_existing log_device_action add_event add_audit
  trust_existing-Trusts macs d st m f = elim (Bool-cases (is_trusted d.status)) [
    | inl e ↦ rw e (record {
      device = d;
      found = f;
      updates = Updates-refl macs st.db.devices;
      existing = refl;
      status = is_trusted-true d.status e;
      mac = refl;
      display_name = refl;
    })
    | inr e ↦ rw e (record {
      device = record d { status = trusted; updated_at = now };
      found = find_device-save_self (record d { status = trusted; updated_at = now }) d _ f;
      updates =
          Updates-save macs st.db.devices (record d { status = trusted; updated_at = now }) d f
            (record {
              id = refl;
              mac = refl;
              status = inr (m, refl);
              keeps_trust = λ z. refl;
              display_name = inl refl;
              notes = refl;
              last_seen_at = refl;
            });
      existing = refl;
      status = refl;
      mac = refl;
      display_name = refl;
    })
  ]

  -- What a round of the loop does.
  record Applies (macs : List Text) (mac : Text) (st st' : Import) : Type 0 where
    indexed : IsIndexed st'
    updates : Updates macs st.db.devices st'.db.devices
    done : IsTrustedMac st'.db.devices mac

  IsIndexed-Updates :
      (macs : List Text) (st st' : Import)
      → Updates macs st.db.devices st'.db.devices
      → st'.existing ≡ st.existing
      → IsIndexed st
      → IsIndexed st'
  IsIndexed-Updates macs st st' u e h mac i q =
      let (d, (f, m)) = h mac i (rw e at q) in let (d', f', p) = u i d f in (d', (f', p.mac ∙ m))

  import_known-Applies :
      (macs : List Text) (d : Device) (mac note : Text) (st : Import)
      → In mac macs
      → IsIndexed st
      → find_device d.id st.db.devices ≡ some d
      → d.mac ≡ mac
      → Applies macs mac st (import_row fresh request_id now at touched (some d) mac note st)
  unfolding import_row
  import_known-Applies macs d mac note st m h f e =
      let mid = trust_existing fresh request_id now at touched d st in
      let w = trust_existing-Trusts macs d st (rw e m) f in
      let u = fill_name-Updates macs d.id note d.display_name mid w.device w.found w.display_name in
      let st' = fill_name fresh request_id now at touched d.id note d.display_name mid in
      let all = Updates-trans macs st.db.devices mid.db.devices st'.db.devices w.updates u in
      record {
        indexed =
            IsIndexed-Updates macs st st' all
              (existing-fill_name d.id note d.display_name mid (some w.device) w.found ∙ w.existing)
              h;
        updates = all;
        done =
            IsTrustedMac-Updates macs mid.db.devices st'.db.devices mac u
              (d.id, (w.device, (w.found, w.mac ∙ e, w.status)));
      }

  existing_device-find :
      (mac : Text) (st : Import) (d : Device)
      → IsIndexed st
      → existing_device mac st ≡ some d
      → (find_device d.id st.db.devices ≡ some d) × (d.mac ≡ mac)
  unfolding existing_device
  existing_device-find mac st d h e = elim (Option-cases (dict_get text_eq mac st.existing)) [
    | inl q ↦ absurd (ground (arith, rw q at e))
    | inr (i, q) ↦
        let f : find_device i st.db.devices ≡ some d = rw q at e in
        let (d', (f', m)) = h mac i q in
        let same : d' ≡ d = some-injective d' d (sym f' ∙ f) in
        (
          subst (λ k. find_device k st.db.devices ≡ some d)
              (sym (find_device-id i st.db.devices d f)) f,
          ap (λ (z : Device). z.mac) (sym same) ∙ m,
        )
  ]

  module _ (fresh_new : (ids : List ℕ) → ¬ In (fresh ids) ids) where
    import_new-Applies :
        (macs : List Text) (mac note : Text) (st : Import)
        → IsIndexed st
        → Applies macs mac st (import_new fresh request_id now at touched mac note st)
    unfolding import_new log_device_action add_event add_audit
    import_new-Applies macs mac note st h =
        let id = fresh (device_ids st.db.devices) in
        let d = imported_device id now at mac note in
        let facts : (d.id ≡ id) × (d.mac ≡ mac) × (d.status ≡ trusted) =
          unfold imported_device in (refl, refl, refl) in
        let new : find_device id (st.db.devices ++ d ∷ []) ≡ some d =
          unfold imported_device in
          find_device-append_new d st.db.devices (fresh_new (device_ids st.db.devices)) in
        record {
          indexed = λ other i q. elim (Bool-cases (text_eq mac other)) [
            | inl e ↦ (
              d,
              (
                subst (λ k. find_device k (st.db.devices ++ d ∷ []) ≡ some d)
                    (some-injective id i (unfold dict_get in rw e at q)) new,
                facts.1 ∙ eq_of_text_eq mac other e,
              ),
            )
            | inr e ↦
                let (x, (f, m)) = h other i (unfold dict_get in rw e at q) in
                (x, (find_device-append i st.db.devices (d ∷ []) x f, m))
          ];
          updates = Updates-append macs st.db.devices (d ∷ []);
          done = (id, (d, (new, facts.1, facts.2)));
        }

    import_row-Applies :
        (macs : List Text) (found : Option Device) (mac note : Text) (st : Import)
        → In mac macs
        → IsIndexed st
        → existing_device mac st ≡ found
        → Applies macs mac st (import_row fresh request_id now at touched found mac note st)
    import_row-Applies macs none mac note st m h e =
        unfold import_row in import_new-Applies macs mac note st h
    import_row-Applies macs (some d) mac note st m h e =
        let (f, q) = existing_device-find mac st d h e in
        import_known-Applies macs d mac note st m h f q

    pub import_rows-Updates :
        (macs : List Text) (rows : List (Text × Text)) (st : Import)
        → All (λ (r : Text × Text). In r.0 macs) rows
        → IsIndexed st
        → let st' = import_rows fresh request_id now at touched rows st in
          Updates macs st.db.devices st'.db.devices
          × All (IsTrustedMac st'.db.devices) (map (λ (r : Text × Text). r.0) rows)
    unfolding import_rows
    import_rows-Updates macs [] st a h = (Updates-refl macs st.db.devices, tt)
    import_rows-Updates macs ((mac, note) ∷ rows) st a h =
        let mid = import_row fresh request_id now at touched (existing_device mac st) mac note st in
        let w = import_row-Applies macs (existing_device mac st) mac note st a.0 h refl in
        let st' = import_rows fresh request_id now at touched rows mid in
        let (u, done) = import_rows-Updates macs rows mid a.1 w.indexed in
        (
          Updates-trans macs st.db.devices mid.db.devices st'.db.devices w.updates u,
          (IsTrustedMac-Updates macs mid.db.devices st'.db.devices mac u w.done, done),
        )

-- ===== src/Scanner/Growth.antt =====
-- A scan adds events and deletes none.
use unifi_netwatcher.Base.{
  if◌then◌else◌, lt→ltb, length, In, Text, t, bind-eq-ok, ok-injective, ok, ℕ, ◌+◌, ◌≤◌, ◌<◌, ◌≡◌,
  refl, sym, ap, ◌∙◌, inl, inr, Option, none, some, List, [], ◌∷◌, ◌++◌,
}
use unifi_netwatcher.Models.{Device, Event, Db, NotificationChannel}
use mathlib.Core.List.{append-nil, append_assoc}
use unifi_netwatcher.Scanner.Cooldown.{IsAlerted, RecentAlert}
use unifi_netwatcher.Scanner.Upsert.{
  upsert, process_clients, upsert_new, process_client, upsert_known, add_observation, Pass, loaded,
}
use unifi_netwatcher.Scanner.Alerts.{Outside, AlertIntent, deliver_each, deliver_intent}
use unifi_netwatcher.Scanner.Telemetry.{StaClient, Telemetry, client_telemetry}
use unifi_netwatcher.Models.Tables.{add_event}
use mathlib.Core.Path.{subst}
use unifi_netwatcher.Scanner.Deliveries.{deliver_intent-Delivered, takers}
use unifi_netwatcher.Scanner.Decisions.{db-note}

-- `es'` is `es` with more events behind it.
abbrev pub Extends : List Event → List Event → Type 0
Extends es es' = (xs : List Event) × (es' ≡ es ++ xs)

pub Extends-refl : (es : List Event) → Extends es es
Extends-refl es = ([], sym (append-nil es))

pub Extends-trans : (a b c : List Event) → Extends a b → Extends b c → Extends a c
Extends-trans a b c (xs, p) (ys, q) = (xs ++ ys, q ∙ ap (λ l. l ++ ys) p ∙ append_assoc a xs ys)

pub IsAlerted-append :
    (cooldown now i : ℕ) (es xs : List Event)
    → IsAlerted cooldown now i es
    → IsAlerted cooldown now i (es ++ xs)
IsAlerted-append cooldown now i [] xs h = elim h [ ]
IsAlerted-append cooldown now i (e ∷ es) xs (inl r) = inl r
IsAlerted-append cooldown now i (e ∷ es) xs (inr h) = inr (IsAlerted-append cooldown now i es xs h)

pub IsAlerted-append_right :
    (cooldown now i : ℕ) (es xs : List Event)
    → IsAlerted cooldown now i xs
    → IsAlerted cooldown now i (es ++ xs)
IsAlerted-append_right cooldown now i [] xs h = h
IsAlerted-append_right cooldown now i (e ∷ es) xs h =
    inr (IsAlerted-append_right cooldown now i es xs h)

pub IsAlerted-Extends :
    (cooldown now i : ℕ) (es es' : List Event)
    → Extends es es'
    → IsAlerted cooldown now i es
    → IsAlerted cooldown now i es'
IsAlerted-Extends cooldown now i es es' (xs, p) h = rw p (IsAlerted-append cooldown now i es xs h)

module _ (fresh : List ℕ → ℕ) (now written : ℕ) (oui : List (Text × Text)) where
  upsert-Extends :
      (found : Option Device) (mac : Text) (c : StaClient) (m : Telemetry) (st : Pass)
      → Extends st.db.events (upsert fresh now written oui found mac c m st).db.events
  unfolding upsert upsert_new upsert_known add_observation add_event
  upsert-Extends none mac c m st = rw db-note (_ ∷ [], refl)
  upsert-Extends (some known) mac c m st = rw db-note (Extends-refl st.db.events)

  pub process_clients-Extends :
      (ps : List (Text × StaClient)) (st st' : Pass)
      → process_clients fresh now written oui ps st ≡ ok st'
      → Extends st.db.events st'.db.events
  unfolding process_clients process_client
  process_clients-Extends [] st st' h =
      subst (λ r. Extends st.db.events r.db.events) (ok-injective h) (Extends-refl st.db.events)
  process_clients-Extends ((mac, c) ∷ ps) st st' h =
      let (mid, e, rest) = bind-eq-ok (process_client fresh now written oui (mac, c) st) _ h in
      let (m, _, q) = bind-eq-ok (client_telemetry c) _ e in
      Extends-trans st.db.events mid.db.events st'.db.events
        (subst (λ r. Extends st.db.events r.db.events) (ok-injective q)
          (upsert-Extends (loaded mac st) mac c m st))
        (process_clients-Extends ps mid st' rest)

module _ (o : Outside) (at : AlertIntent → ℕ) (channels : List NotificationChannel) where
  pub deliver_each-Extends :
      (intents : List AlertIntent) (db : Db)
      → Extends db.events (deliver_each o at channels intents db).events
  unfolding deliver_each
  deliver_each-Extends [] db = Extends-refl db.events
  deliver_each-Extends (i ∷ is) db =
      let d = deliver_intent-Delivered o (at i) channels i db in
      let db' = deliver_intent o (at i) channels i db in
      Extends-trans db.events db'.events _ (d.queued ∷ d.closing ∷ [], d.events)
        (deliver_each-Extends is db')

  pub devices-deliver_each :
      (intents : List AlertIntent) (db : Db)
      → (deliver_each o at channels intents db).devices ≡ db.devices
  unfolding deliver_each
  devices-deliver_each [] db = refl
  devices-deliver_each (i ∷ is) db =
      devices-deliver_each is (deliver_intent o (at i) channels i db)
      ∙ (deliver_intent-Delivered o (at i) channels i db).devices

  closing-RecentAlert :
      (cooldown now : ℕ) (a : AlertIntent) (db : Db)
      → 0 < length (takers o a.message channels)
      → now ≤ at a + cooldown
      → RecentAlert cooldown now a.device_id
          (deliver_intent-Delivered o (at a) channels a db).closing
  closing-RecentAlert cooldown now a db taken late =
      let d = deliver_intent-Delivered o (at a) channels a db in
      record {
        kind =
            d.closing_type
            ∙ ap (λ b. if b then t "alert_sent" else t "alert_failed") (lt→ltb 0 _ taken);
        device = d.closing_device;
        time = rw d.closing_time late;
      }

  deliver_each_head :
      (is : List AlertIntent) (db : Db) (a : AlertIntent) (cooldown now : ℕ)
      → 0 < length (takers o a.message channels)
      → now ≤ at a + cooldown
      → IsAlerted cooldown now a.device_id (deliver_each o at channels (a ∷ is) db).events
  unfolding deliver_each
  deliver_each_head is db a cooldown now taken late =
      let d = deliver_intent-Delivered o (at a) channels a db in
      let db' = deliver_intent o (at a) channels a db in
      IsAlerted-Extends cooldown now a.device_id db'.events _ (deliver_each-Extends is db') (
        rw d.events (
          IsAlerted-append_right cooldown now a.device_id db.events (d.queued ∷ d.closing ∷ [])
            (inr (inl (closing-RecentAlert cooldown now a db taken late)))))

  -- An alert that some channel took is on record.
  pub deliver_each-IsAlerted :
      (intents : List AlertIntent) (db : Db) (a : AlertIntent) (cooldown now : ℕ)
      → In a intents
      → 0 < length (takers o a.message channels)
      → now ≤ at a + cooldown
      → IsAlerted cooldown now a.device_id (deliver_each o at channels intents db).events
  unfolding deliver_each
  deliver_each-IsAlerted [] db a cooldown now m taken late = elim m [ ]
  deliver_each-IsAlerted (i ∷ is) db a cooldown now (inl p) taken late =
      subst
        (λ z. IsAlerted cooldown now a.device_id (deliver_each o at channels (z ∷ is) db).events) p
        (deliver_each_head is db a cooldown now taken late)
  deliver_each-IsAlerted (i ∷ is) db a cooldown now (inr m) taken late =
      unfold deliver_each in
      deliver_each-IsAlerted is (deliver_intent o (at i) channels i db) a cooldown now m taken late

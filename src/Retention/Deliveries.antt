-- ===== src/Retention/Deliveries.antt =====
-- The deliveries of old events go with them.
use unifi_netwatcher.Models.{Event, NotificationDelivery}
use unifi_netwatcher.Base.{
  ltb, Bool-cases, not-true, length, is_empty, filter, any, All, Distinct, In-of_filter, In-filter,
  All-In, All-of_In, In-map, ℕ, zero, suc, ◌+◌, ◌<◌, ◌≡◌, refl, sym, ap, ◌∙◌, inl, inr, Bool, true,
  false, not, Option, none, some, List, [], ◌∷◌, map, arith,
}
use unifi_netwatcher.Retention.{batch_ids, refers_to, prune_events, delete_batch_size, delete_in}
use unifi_netwatcher.Scanner.Alerts.{elem}
use unifi_netwatcher.Retention.Batches.{
  Implies, In-of_map, In-of_take, batch-empty, none_old, batch-Implies, count-filter,
  batch-progress, Distinct-filter, ap_pair, filter-filter,
}
use unifi_netwatcher.Scanner.Cooldown.{elem-of_In, In-of_elem}
use unifi_netwatcher.Models.Tables.{event_ids}

bool_ext : (b c : Bool) → (b ≡ true → c ≡ true) → (c ≡ true → b ≡ true) → b ≡ c
bool_ext true c f g = sym (f refl)
bool_ext false true f g = g refl
bool_ext false false f g = refl

filter-ext :
    {A : Type 0} (p q : A → Bool) (xs : List A)
    → All (λ x. p x ≡ q x) xs
    → filter p xs ≡ filter q xs
unfolding filter
filter-ext p q [] h = refl
filter-ext p q (x ∷ xs) h = rw (h.0, filter-ext p q xs h.1) refl

module _ (cutoff : ℕ) where
  abbrev pub old : Event → Bool
  old e = ltb e.created_at cutoff

  abbrev pub old_ids : List Event → List ℕ
  old_ids events = map (λ (e : Event). e.id) (filter old events)

  abbrev ids_of : List Event → List ℕ
  ids_of events = batch_ids (λ (e : Event). e.id) (λ (e : Event). e.created_at) cutoff events

  abbrev left_of : List Event → List Event
  left_of events = filter (λ (e : Event). not (elem e.id (ids_of events))) events

  -- What is old and in no batch yet is old in what is left.
  old_ids-left :
      (k : ℕ) (events : List Event)
      → elem k (ids_of events) ≡ false
      → elem k (old_ids (left_of events)) ≡ elem k (old_ids events)
  old_ids-left k events n =
      bool_ext _ _
        (λ h.
          let (e, (m, q)) = In-of_map (λ (e : Event). e.id) k _ (In-of_elem k _ h) in
          let (m', o) = In-of_filter e old (left_of events) m in
          let m'' = (In-of_filter e _ events m').0 in
          elem-of_In k _ (rw q (In-map (λ (e : Event). e.id) e _ (In-filter e old events m'' o))))
        (λ h.
          let (e, (m, q)) = In-of_map (λ (e : Event). e.id) k _ (In-of_elem k _ h) in
          let (m', o) = In-of_filter e old events m in
          let out : elem e.id (ids_of events) ≡ false = rw q at n in
          let m'' =
            In-filter e (λ (g : Event). not (elem g.id (ids_of events))) events m' (rw out refl) in
          elem-of_In k _
            (rw q (In-map (λ (e : Event). e.id) e _ (In-filter e old (left_of events) m'' o))))

  refers-left :
      (events : List Event) (x : NotificationDelivery) (o : Option ℕ)
      → x.event_id ≡ o
      → refers_to (ids_of events) x ≡ false
      → refers_to (old_ids (left_of events)) x ≡ refers_to (old_ids events) x
  refers-left events x none q h = rw q refl
  refers-left events x (some k) q h = rw q (old_ids-left k events (rw q at h))

  batch_in_old :
      (k : ℕ) (events : List Event) → elem k (ids_of events) ≡ true → elem k (old_ids events) ≡ true
  unfolding batch_ids
  batch_in_old k events h = elem-of_In k _ (In-of_take k delete_batch_size _ (In-of_elem k _ h))

  refers-batch :
      (events : List Event) (x : NotificationDelivery) (o : Option ℕ)
      → x.event_id ≡ o
      → refers_to (ids_of events) x ≡ true
      → refers_to (old_ids events) x ≡ true
  refers-batch events x none q h = absurd (ground (arith, rw q at h))
  refers-batch events x (some k) q h = rw q (batch_in_old k events (rw q at h))

  refers-Implies :
      (events : List Event) (xs : List NotificationDelivery)
      → Implies (refers_to (ids_of events)) (refers_to (old_ids events)) xs
  refers-Implies events xs = All-of_In _ xs (λ x m h. refers-batch events x x.event_id refl h)

  abbrev undelivered : List Event → List NotificationDelivery → List NotificationDelivery
  undelivered events xs = filter (λ x. not (refers_to (ids_of events) x)) xs

  refers-same :
      (events : List Event) (xs : List NotificationDelivery)
      → All
          (λ x. refers_to (old_ids (left_of events)) x ≡ refers_to (old_ids events) x)
          (undelivered events xs)
  refers-same events xs =
      All-of_In _ (undelivered events xs)
        (λ x m. refers-left events x x.event_id refl (not-true _ (In-of_filter x _ xs m).1))

  no_refers : (x : NotificationDelivery) (o : Option ℕ) → x.event_id ≡ o → refers_to [] x ≡ false
  unfolding any
  no_refers x none q = rw q refl
  no_refers x (some k) q = rw q refl

  none_refer :
      (xs : List NotificationDelivery)
      → (filter (refers_to []) xs ≡ []) × (filter (λ x. not (refers_to [] x)) xs ≡ xs)
  unfolding filter
  none_refer [] = (refl, refl)
  none_refer (x ∷ xs) =
      rw (no_refers x x.event_id refl, (none_refer xs).0, (none_refer xs).1) (refl, refl)

  -- With enough fuel the loop over events ends with the events that are not old and the deliveries
  -- that refer to none of the old ones, and has counted the others, if no two events have the same
  -- id.
  pub prune_events_lem :
      (fuel : ℕ) (events : List Event) (xs : List NotificationDelivery)
      → Distinct (event_ids events)
      → length (filter old events) < fuel
      → prune_events cutoff fuel events xs ≡ (
        (length (filter (refers_to (old_ids events)) xs), length (filter old events)),
        (filter (λ e. not (old e)) events, filter (λ x. not (refers_to (old_ids events) x)) xs),
      )
  unfolding prune_events delete_in
  prune_events_lem zero events xs d h = absurd (omega arith)
  prune_events_lem (suc fuel) events xs d h = elim (Bool-cases (is_empty (ids_of events))) [
    | inl e ↦
        let q = batch-empty (λ (e : Event). e.id) (λ (e : Event). e.created_at) cutoff events e in
        rw e (
          rw
            (
              q,
              none_old (λ (e : Event). e.id) (λ (e : Event). e.created_at) cutoff events q,
              (none_refer xs).0,
              (none_refer xs).1,
            )
            refl)
    | inr e ↦
        let imp =
          batch-Implies (λ (e : Event). e.id) (λ (e : Event). e.created_at) cutoff events d in
        let n = count-filter _ old events imp in
        let progress =
          batch-progress (λ (e : Event). e.id) (λ (e : Event). e.created_at) cutoff events e in
        let rest =
          prune_events_lem fuel (left_of events) (undelivered events xs)
            (Distinct-filter (λ (e : Event). e.id) (λ (e : Event). not (elem e.id (ids_of events)))
              events d)
            (omega (arith, h, n, progress)) in
        let imp' = refers-Implies events xs in
        let same = refers-same events xs in
        rw (e, rest)
          (ap_pair
            (ap_pair
              (ap (λ z. length (filter (refers_to (ids_of events)) xs) + length z)
                  (filter-ext _ _ (undelivered events xs) same)
                ∙ count-filter (refers_to (ids_of events)) (refers_to (old_ids events)) xs imp')
              n)
            (ap_pair (filter-filter _ old events imp) (
              filter-ext _ _ (undelivered events xs)
                (All-of_In _ _ (λ x m. ap not (All-In _ x _ same m)))
              ∙ filter-filter (refers_to (ids_of events)) (refers_to (old_ids events)) xs imp')))
  ]

-- ===== src/Scanner/Cooldown.antt =====
-- When a device counts as alerted, and the answer of the cooldown query.
use unifi_netwatcher.Base.{
  leb→le, le→leb, Bool-cases, Option-cases, and-eq_true, filter, any, In, In-append_right,
  In-of_filter, In-filter, t, text_eq, text_eq_refl, eq_of_text_eq, ℕ, ◌+◌, ◌≤◌, ◌≡◌, refl, sym, ap,
  ◌∙◌, ◌↔◌, ◌⊎◌, inl, inr, true, false, some, List, [], ◌∷◌, arith,
}
use unifi_netwatcher.Models.{Event, Db}
use unifi_netwatcher.Scanner.Alerts.{
  elem, is_recent_alert, recent_alert_ids, devices_in_alert_cooldown,
}

pub In-of_elem : (i : ℕ) (ids : List ℕ) → elem i ids ≡ true → In i ids
unfolding any
In-of_elem i [] h = absurd (ground arith)
In-of_elem i (j ∷ ids) h = ground (arith, In-of_elem i ids)

pub elem-of_In : (i : ℕ) (ids : List ℕ) → In i ids → elem i ids ≡ true
unfolding any
elem-of_In i [] h = elim h [ ]
elem-of_In i (j ∷ ids) h = ground (arith, elem-of_In i ids)

pub record RecentAlert (cooldown now i : ℕ) (e : Event) : Type 0 where
  pub kind : e.event_type ≡ t "alert_sent"
  pub device : e.device_id ≡ some i
  pub time : now ≤ e.created_at + cooldown

abbrev pub IsAlerted : ℕ → ℕ → ℕ → List Event → Type 0
IsAlerted cooldown now i [] = ⊥
IsAlerted cooldown now i (e ∷ es) = RecentAlert cooldown now i e ⊎ IsAlerted cooldown now i es

module _ (cooldown now : ℕ) where
  is_recent_alert_sound :
      (e : Event)
      → is_recent_alert cooldown now e ≡ true
      → (e.event_type ≡ t "alert_sent") × (now ≤ e.created_at + cooldown)
  is_recent_alert_sound e h =
      let (k, m) = and-eq_true (text_eq e.event_type (t "alert_sent")) _ h in
      (eq_of_text_eq e.event_type (t "alert_sent") k, leb→le now (e.created_at + cooldown) m)

  is_recent_alert_complete :
      (e : Event)
      → e.event_type ≡ t "alert_sent"
      → now ≤ e.created_at + cooldown
      → is_recent_alert cooldown now e ≡ true
  is_recent_alert_complete e k m =
      rw (k, text_eq_refl (t "alert_sent")) (le→leb now (e.created_at + cooldown) m)

  IsAlerted-of_In :
      (i : ℕ) (es : List Event)
      → In i (recent_alert_ids cooldown now es)
      → IsAlerted cooldown now i es
  unfolding recent_alert_ids
  IsAlerted-of_In i [] m = elim m [ ]
  IsAlerted-of_In i (e ∷ es) m = elim (Bool-cases (is_recent_alert cooldown now e)) [
    | inl h ↦ elim (Option-cases e.device_id) [
      | inl q ↦ inr (IsAlerted-of_In i es (rw (h, q) at m))
      | inr (j, q) ↦ elim (rw (h, q) at m) [
        | inl p ↦
            let (k, late) = is_recent_alert_sound e h in
            inl (record { kind = k; device = q ∙ ap some (sym p); time = late })
        | inr later ↦ inr (IsAlerted-of_In i es later)
      ]
    ]
    | inr h ↦ inr (IsAlerted-of_In i es (rw h at m))
  ]

  In-of_IsAlerted :
      (i : ℕ) (es : List Event)
      → IsAlerted cooldown now i es
      → In i (recent_alert_ids cooldown now es)
  unfolding recent_alert_ids
  In-of_IsAlerted i [] a = elim a [ ]
  In-of_IsAlerted i (e ∷ es) (inl r) =
      rw (is_recent_alert_complete e r.kind r.time, r.device) (inl refl)
  In-of_IsAlerted i (e ∷ es) (inr a) = elim (Bool-cases (is_recent_alert cooldown now e)) [
    | inl h ↦ rw h (In-append_right i _ _ (In-of_IsAlerted i es a))
    | inr h ↦ rw h (In-of_IsAlerted i es a)
  ]

  -- The query's answer, for a device that was asked for.
  pub cooldown_iff :
      (db : Db) (ids : List ℕ) (i : ℕ)
      → In i ids
      → (elem i (devices_in_alert_cooldown cooldown now db ids) ≡ false)
        ↔ (¬ IsAlerted cooldown now i db.events)
  unfolding devices_in_alert_cooldown
  cooldown_iff db ids i m = (
    λ h a. cc (
      h,
      elem-of_In i _
          (In-filter i (λ j. elem j ids) _ (In-of_IsAlerted i db.events a) (elem-of_In i ids m)),
    ),
    λ n.
        elim (Bool-cases
          (elem i (filter (λ j. elem j ids) (recent_alert_ids cooldown now db.events)))) [
            | inl h ↦ absurd (
                n (
                  IsAlerted-of_In i db.events
                    (In-of_filter i (λ j. elem j ids) _ (In-of_elem i _ h)).0))
            | inr h ↦ h
          ],
  )

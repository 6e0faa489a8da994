-- ===== src/Scanner/Kept.antt =====
-- What a scan leaves alone in the devices.
use unifi_netwatcher.Base.{In, ℕ, ◌≡◌, refl, sym, ◌∙◌, inl, inr, some, List, [], ◌∷◌, ◌++◌, arith}
use mathlib.Core.Path.{subst}
use mathlib.Core.Option.{some-injective}
use unifi_netwatcher.Models.{Device}
use unifi_netwatcher.Models.Tables.{
  find_device, save_device, device_ids, find_device-save_self, find_device-save_ne,
}
use native.Mathlib.Decide.{ℕ_discrete}

-- What a scan leaves alone in a device that it updates.
pub record Kept (d d' : Device) : Type 0 where
  pub id : d'.id ≡ d.id
  pub mac : d'.mac ≡ d.mac
  pub status : d'.status ≡ d.status
  pub display_name : d'.display_name ≡ d.display_name
  pub notes : d'.notes ≡ d.notes
  pub first_seen_at : d'.first_seen_at ≡ d.first_seen_at

pub Kept-refl : (d : Device) → Kept d d
Kept-refl d = record {
  id = refl;
  mac = refl;
  status = refl;
  display_name = refl;
  notes = refl;
  first_seen_at = refl;
}

pub Kept-trans : (a b c : Device) → Kept a b → Kept b c → Kept a c
Kept-trans a b c h k = record {
  id = k.id ∙ h.id;
  mac = k.mac ∙ h.mac;
  status = k.status ∙ h.status;
  display_name = k.display_name ∙ h.display_name;
  notes = k.notes ∙ h.notes;
  first_seen_at = k.first_seen_at ∙ h.first_seen_at;
}

-- Every device is still there, with those fields.
abbrev pub Keeps : List Device → List Device → Type 0
Keeps ds ds' =
    (i : ℕ) (d : Device)
    → find_device i ds ≡ some d
    → (d' : Device) × (find_device i ds' ≡ some d') × Kept d d'

pub Keeps-refl : (ds : List Device) → Keeps ds ds
Keeps-refl ds i d f = (d, f, Kept-refl d)

pub Keeps-trans : (a b c : List Device) → Keeps a b → Keeps b c → Keeps a c
Keeps-trans a b c h k i d f =
    let (d', f', p) = h i d f in
    let (d'', f'', q) = k i d' f' in (d'', f'', Kept-trans d d' d'' p q)

pub Keeps-save :
    (ds : List Device) (d e : Device)
    → find_device e.id ds ≡ some e
    → Kept e d
    → Keeps ds (save_device d ds)
Keeps-save ds d e f k i x g =
    let here : find_device d.id ds ≡ some e = subst (λ n. find_device n ds ≡ some e) (sym k.id) f in
    elim (ℕ_discrete d.id i) [
      | yes p ↦
          let g' : find_device d.id ds ≡ some x = rw p g in
          (
            d,
            rw (← p) (find_device-save_self d e ds here),
            subst (λ z. Kept z d) (some-injective e x (sym here ∙ g')) k,
          )
      | no n ↦ (x, find_device-save_ne i d ds n ∙ g, Kept-refl x)
    ]

pub find_device-append :
    (i : ℕ) (ds xs : List Device) (d : Device)
    → find_device i ds ≡ some d
    → find_device i (ds ++ xs) ≡ some d
unfolding find_device
find_device-append i [] xs d f = absurd (ground arith)
find_device-append i (x ∷ ds) xs d f = ground (arith, find_device-append i ds xs d)

pub find_device-append_new :
    (d : Device) (ds : List Device)
    → (¬ In d.id (device_ids ds))
    → find_device d.id (ds ++ d ∷ []) ≡ some d
unfolding find_device
find_device-append_new d [] n = ground arith
find_device-append_new d (x ∷ ds) n = elim (ℕ_discrete x.id d.id) [
  | yes p ↦ absurd (n (inl (sym p)))
  | no q ↦ ground (arith, find_device-append_new d ds (λ m. n (inr m)))
]

pub Keeps-append : (ds xs : List Device) → Keeps ds (ds ++ xs)
Keeps-append ds xs i d f = (d, find_device-append i ds xs d f, Kept-refl d)

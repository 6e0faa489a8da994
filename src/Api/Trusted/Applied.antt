-- ===== src/Api/Trusted/Applied.antt =====
-- What an import changes in the devices.
use unifi_netwatcher.Base.{
  dict_get, In, Text, text_eq, ℕ, ◌≡◌, refl, sym, ap, ◌∙◌, ◌⊎◌, inl, inr, true, some, List, ◌++◌,
  arith,
}
use unifi_netwatcher.Models.{unknown, ignored, blocked, DeviceStatus, Device, trusted}
use unifi_netwatcher.Api.Trusted.{Import, is_blank, is_trusted}
use unifi_netwatcher.Models.Tables.{
  find_device, save_device, find_device-save_self, find_device-save_ne,
}
use mathlib.Core.Path.{subst}
use unifi_netwatcher.Scanner.Kept.{find_device-append}
use native.Mathlib.Decide.{ℕ_discrete}
use mathlib.Core.Option.{some-injective}

pub is_trusted-true : (s : DeviceStatus) → is_trusted s ≡ true → s ≡ trusted
is_trusted-true unknown h = absurd (ground arith)
is_trusted-true trusted h = refl
is_trusted-true ignored h = absurd (ground arith)
is_trusted-true blocked h = absurd (ground arith)

-- A device before and after an import of rows with these addresses.
pub record Updated (macs : List Text) (d d' : Device) : Type 0 where
  pub id : d'.id ≡ d.id
  pub mac : d'.mac ≡ d.mac
  pub status : (d'.status ≡ d.status) ⊎ (In d.mac macs × (d'.status ≡ trusted))
  pub keeps_trust : d.status ≡ trusted → d'.status ≡ trusted
  pub display_name : (d'.display_name ≡ d.display_name) ⊎ (is_blank d.display_name ≡ true)
  pub notes : d'.notes ≡ d.notes
  pub last_seen_at : d'.last_seen_at ≡ d.last_seen_at

abbrev pub Updates : List Text → List Device → List Device → Type 0
Updates macs ds ds' =
    (i : ℕ) (d : Device)
    → find_device i ds ≡ some d
    → (d' : Device) × (find_device i ds' ≡ some d') × Updated macs d d'

-- Some row of the device table has the address and is trusted.
abbrev pub IsTrustedMac : List Device → Text → Type 0
IsTrustedMac ds mac =
    (i : ℕ) × ((d : Device) × ((find_device i ds ≡ some d) × (d.mac ≡ mac) × (d.status ≡ trusted)))

Updated-refl : (macs : List Text) (d : Device) → Updated macs d d
Updated-refl macs d = record {
  id = refl;
  mac = refl;
  status = inl refl;
  keeps_trust = λ h. h;
  display_name = inl refl;
  notes = refl;
  last_seen_at = refl;
}

Updated-trans :
    (macs : List Text) (a b c : Device) → Updated macs a b → Updated macs b c → Updated macs a c
Updated-trans macs a b c h k = record {
  id = k.id ∙ h.id;
  mac = k.mac ∙ h.mac;
  status = elim k.status [
    | inl e ↦ elim h.status [ inl f ↦ inl (e ∙ f) | inr (m, f) ↦ inr (m, e ∙ f) ]
    | inr (m, e) ↦ inr (subst (λ z. In z macs) h.mac m, e)
  ];
  keeps_trust = λ z. k.keeps_trust (h.keeps_trust z);
  display_name = elim h.display_name [
    | inr e ↦ inr e
    | inl f ↦ elim k.display_name [ inl e ↦ inl (e ∙ f) | inr e ↦ inr (ap is_blank (sym f) ∙ e) ]
  ];
  notes = k.notes ∙ h.notes;
  last_seen_at = k.last_seen_at ∙ h.last_seen_at;
}

pub Updates-refl : (macs : List Text) (ds : List Device) → Updates macs ds ds
Updates-refl macs ds i d f = (d, f, Updated-refl macs d)

pub Updates-trans :
    (macs : List Text) (a b c : List Device)
    → Updates macs a b
    → Updates macs b c
    → Updates macs a c
Updates-trans macs a b c h k i d f =
    let (d', f', p) = h i d f in
    let (d'', f'', q) = k i d' f' in (d'', f'', Updated-trans macs d d' d'' p q)

pub Updates-save :
    (macs : List Text) (ds : List Device) (d e : Device)
    → find_device e.id ds ≡ some e
    → Updated macs e d
    → Updates macs ds (save_device d ds)
Updates-save macs ds d e f k i x g =
    let here : find_device d.id ds ≡ some e = subst (λ n. find_device n ds ≡ some e) (sym k.id) f in
    elim (ℕ_discrete d.id i) [
      | yes p ↦
          let g' : find_device d.id ds ≡ some x = rw p g in
          (
            d,
            rw (← p) (find_device-save_self d e ds here),
            subst (λ z. Updated macs z d) (some-injective e x (sym here ∙ g')) k,
          )
      | no n ↦ (x, find_device-save_ne i d ds n ∙ g, Updated-refl macs x)
    ]

pub Updates-append : (macs : List Text) (ds xs : List Device) → Updates macs ds (ds ++ xs)
Updates-append macs ds xs i d f = (d, find_device-append i ds xs d f, Updated-refl macs d)

pub IsTrustedMac-Updates :
    (macs : List Text) (ds ds' : List Device) (mac : Text)
    → Updates macs ds ds'
    → IsTrustedMac ds mac
    → IsTrustedMac ds' mac
IsTrustedMac-Updates macs ds ds' mac u (i, (d, (f, m, s))) =
    let (d', f', p) = u i d f in (i, (d', (f', p.mac ∙ m, p.keeps_trust s)))

-- Every entry of `existing` leads to a device with its address.
abbrev pub IsIndexed : Import → Type 0
IsIndexed st =
    (mac : Text) (i : ℕ)
    → dict_get text_eq mac st.existing ≡ some i
    → (d : Device) × ((find_device i st.db.devices ≡ some d) × (d.mac ≡ mac))

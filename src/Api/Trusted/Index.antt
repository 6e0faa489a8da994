-- ===== src/Api/Trusted/Index.antt =====
-- The devices that an import loads, by their addresses.
use unifi_netwatcher.Base.{
  ==_refl, ==_ne, Bool-cases, All, All-reverse, All-filter, dict_get, In, Distinct, All-of_In,
  In-map, Text, text_eq, eq_of_text_eq, ℕ, ◌≡◌, refl, inl, inr, some, List, [], ◌∷◌, map, arith,
}
use unifi_netwatcher.Models.Tables.{find_device, device_ids}
use mathlib.Core.Path.{subst}
use unifi_netwatcher.Models.{Device, Db}
use unifi_netwatcher.Scanner.Upsert.{batch_load_devices}
use mathlib.Core.Option.{some-injective}

find_device-In :
    (ds : List Device) (d : Device)
    → Distinct (device_ids ds)
    → In d ds
    → find_device d.id ds ≡ some d
unfolding find_device
find_device-In [] d u m = elim m [ ]
find_device-In (x ∷ ds) d u (inl e) = rw e (rw (==_refl x.id) refl)
find_device-In (x ∷ ds) d u (inr m) =
    let n : ¬ (x.id ≡ d.id) = λ q. u.0 (rw q (In-map (λ (z : Device). z.id) d ds m)) in
    rw (==_ne x.id d.id n) (find_device-In ds d u.1 m)

All-map_lem :
    {A B : Type 0} (P : B → Type 0) (f : A → B) (xs : List A)
    → All (λ x. P (f x)) xs
    → All P (map f xs)
All-map_lem P f [] h = tt
All-map_lem P f (x ∷ xs) h = (h.0, All-map_lem P f xs h.1)

pub dict_get-All :
    (P : Text → ℕ → Type 0) (key : Text) (v : ℕ) (xs : List (Text × ℕ))
    → All (λ x. P x.0 x.1) xs
    → dict_get text_eq key xs ≡ some v
    → P key v
unfolding dict_get
dict_get-All P key v [] h q = absurd (ground arith)
dict_get-All P key v ((k, w) ∷ xs) h q = elim (Bool-cases (text_eq k key)) [
  | inl e ↦
      subst (λ z. P z v) (eq_of_text_eq k key e)
        (subst (λ z. P k z) (some-injective w v (rw e at q)) h.0)
  | inr e ↦ dict_get-All P key v xs h.1 (rw e at q)
]

abbrev pub Indexes : List Device → Text → ℕ → Type 0
Indexes ds mac i = (d : Device) × ((find_device i ds ≡ some d) × (d.mac ≡ mac))

pub batch_load-All :
    (db : Db) (macs : List Text)
    → Distinct (device_ids db.devices)
    → All (λ x. Indexes db.devices x.0 x.1) (batch_load_devices db macs)
unfolding batch_load_devices
batch_load-All db macs u =
    let entry : All (λ (d : Device). Indexes db.devices d.mac d.id) db.devices =
      All-of_In (λ (d : Device). Indexes db.devices d.mac d.id) db.devices
        (λ d m. (d, (find_device-In db.devices d u m, refl))) in
    All-reverse (λ x. Indexes db.devices x.0 x.1) _
      (All-map_lem (λ x. Indexes db.devices x.0 x.1) (λ (d : Device). (d.mac, d.id)) _
        (All-filter (λ (d : Device). Indexes db.devices d.mac d.id) _ db.devices entry))

-- ===== src/Api/Tools/Cells.antt =====
-- No exported cell starts a formula.
use unifi_netwatcher.Base.{Bool-cases, Text, drop_while, ◌≡◌, refl, ◌⊎◌, inl, inr, false, some, ◌∷◌}
use unifi_netwatcher.Api.Tools.{
  is_stripped, csv_safe, is_unsafe_start, is_formula_start, starts, apostrophe,
}

apostrophe_safe :
    (s : Text)
    → (starts is_unsafe_start (apostrophe ∷ s) ≡ false)
      × (starts is_formula_start (drop_while is_stripped (apostrophe ∷ s)) ≡ false)
unfolding drop_while is_stripped is_unsafe_start is_formula_start
apostrophe_safe s = (refl, refl)

-- An exported cell is the value's text, behind an apostrophe or not; in neither case does it, or what
-- follows its leading white space, start like a formula.
pub csv_safe_lem :
    (text : Text)
    → ((csv_safe (some text) ≡ text) ⊎ (csv_safe (some text) ≡ apostrophe ∷ text))
      × (starts is_unsafe_start (csv_safe (some text)) ≡ false)
      × (starts is_formula_start (drop_while is_stripped (csv_safe (some text))) ≡ false)
unfolding csv_safe
csv_safe_lem text = elim (Bool-cases (starts is_formula_start (drop_while is_stripped text))) [
  | inl e ↦ rw e (inr refl, (apostrophe_safe text).0, (apostrophe_safe text).1)
  | inr e ↦ elim (Bool-cases (starts is_unsafe_start text)) [
    | inl q ↦ rw (e, q) (inr refl, (apostrophe_safe text).0, (apostrophe_safe text).1)
    | inr q ↦ rw (e, q) (inl refl, q, e)
  ]
]

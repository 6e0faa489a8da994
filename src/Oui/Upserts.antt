-- ===== src/Oui/Upserts.antt =====
-- An upsert in batches is a change of a map from prefixes to vendors.
use unifi_netwatcher.Models.{OuiEntry}
use unifi_netwatcher.Base.{
  if◌then◌else◌, Bool-cases, length, take, drop, length-drop, take-append-drop, In, Distinct, Text,
  text_eq, text_eq_refl, eq_of_text_eq, ℕ, zero, suc, ◌≤◌, ◌≡◌, refl, sym, ap, ◌∙◌, inl, inr, true,
  Option, none, some, List, [], ◌∷◌, ◌++◌, map, arith,
}
use unifi_netwatcher.Oui.{set_entry, upsert_batch, upsert_batches, upsert_oui_entries}

-- The vendor of a prefix: of the first entry with it.
unfoldable pub vendor_for : Text → List OuiEntry → Option Text
vendor_for key [] = none
vendor_for key (e ∷ es) =
    let others = vendor_for key es in if text_eq e.mac_prefix key then some e.vendor else others

vendor_for-set_entry :
    (key owner other : Text) (es : List OuiEntry)
    → vendor_for other (set_entry key owner es)
      ≡ (if text_eq key other then some owner else vendor_for other es)
unfolding vendor_for set_entry
vendor_for-set_entry key owner other [] = refl
vendor_for-set_entry key owner other (e ∷ es) = elim (Bool-cases (text_eq e.mac_prefix key)) [
  | inl h ↦
      let q : text_eq e.mac_prefix other ≡ text_eq key other =
        ap (λ z. text_eq z other) (eq_of_text_eq e.mac_prefix key h) in
      rw (h, q) (elim (Bool-cases (text_eq key other)) [ inl k ↦ rw k refl | inr k ↦ rw k refl ])
  | inr h ↦
      rw (h, vendor_for-set_entry key owner other es)
        (elim (Bool-cases (text_eq key other)) [
          | inr k ↦ rw k refl
          | inl k ↦ elim (Bool-cases (text_eq e.mac_prefix other)) [
            | inr z ↦ rw (k, z) refl
            | inl z ↦
                let same : e.mac_prefix ≡ key =
                  eq_of_text_eq e.mac_prefix other z ∙ sym (eq_of_text_eq key other k) in
                let both : text_eq e.mac_prefix key ≡ true = rw same (text_eq_refl key) in
                absurd (ground (arith, h, both))
          ]
        ])
]

upsert_batch-append :
    (xs ys table : List OuiEntry)
    → upsert_batch (xs ++ ys) table ≡ upsert_batch ys (upsert_batch xs table)
unfolding upsert_batch
upsert_batch-append [] ys table = refl
upsert_batch-append (x ∷ xs) ys table =
    upsert_batch-append xs ys (set_entry x.mac_prefix x.vendor table)

upsert_batches-eq :
    (fuel : ℕ) (rows table : List OuiEntry)
    → length rows ≤ fuel
    → upsert_batches fuel rows table ≡ upsert_batch rows table
unfolding upsert_batches
upsert_batches-eq zero [] table h = unfold upsert_batch in refl
upsert_batches-eq zero (r ∷ rows) table h = absurd (omega arith)
upsert_batches-eq (suc fuel) [] table h = unfold upsert_batch in refl
upsert_batches-eq (suc fuel) (r ∷ rows) table h =
    upsert_batches-eq fuel (drop 750 (r ∷ rows)) (upsert_batch (take 750 (r ∷ rows)) table)
      (omega (arith, h, length-drop 750 (r ∷ rows)))
    ∙ sym (upsert_batch-append (take 750 (r ∷ rows)) (drop 750 (r ∷ rows)) table)
    ∙ ap (λ l. upsert_batch l table) (take-append-drop 750 (r ∷ rows))

not_listed :
    (key : Text) (es : List OuiEntry)
    → ¬ In key (map (λ (e : OuiEntry). e.mac_prefix) es)
    → vendor_for key es ≡ none
unfolding vendor_for
not_listed key [] n = refl
not_listed key (e ∷ es) n = elim (Bool-cases (text_eq e.mac_prefix key)) [
  | inl h ↦ absurd (n (inl (sym (eq_of_text_eq e.mac_prefix key h))))
  | inr h ↦ rw h (not_listed key es (λ m. n (inr m)))
]

-- What is found, or else the other.
abbrev pub found_or : Option Text → Option Text → Option Text
found_or none other = other
found_or (some v) other = some v

upsert_batch-find :
    (key : Text) (es table : List OuiEntry)
    → Distinct (map (λ (e : OuiEntry). e.mac_prefix) es)
    → vendor_for key (upsert_batch es table) ≡ found_or (vendor_for key es) (vendor_for key table)
unfolding upsert_batch vendor_for
upsert_batch-find key [] table d = refl
upsert_batch-find key (e ∷ es) table d =
    let rest = upsert_batch-find key es (set_entry e.mac_prefix e.vendor table) d.1 in
    let step = vendor_for-set_entry e.mac_prefix e.vendor key table in
    elim (Bool-cases (text_eq e.mac_prefix key)) [
      | inl h ↦
          let absent : vendor_for key es ≡ none =
            not_listed key es (λ m. d.0 (rw (eq_of_text_eq e.mac_prefix key h) m)) in
          rest ∙ (rw (absent, step, h) refl)
      | inr h ↦ rest ∙ (rw (step, h) refl)
    ]

-- After the entries are written, in batches of 750, each prefix has the vendor of the entries, and the
-- vendor that it had if the entries do not have it. No prefix is taken to stand twice in the entries.
pub upsert_oui_entries_lem :
    (key : Text) (entries table : List OuiEntry)
    → Distinct (map (λ (e : OuiEntry). e.mac_prefix) entries)
    → vendor_for key (upsert_oui_entries entries table)
      ≡ found_or (vendor_for key entries) (vendor_for key table)
unfolding upsert_oui_entries
upsert_oui_entries_lem key entries table d =
    ap (vendor_for key) (upsert_batches-eq (length entries) entries table (omega arith))
    ∙ upsert_batch-find key entries table d

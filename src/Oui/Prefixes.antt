-- ===== src/Oui/Prefixes.antt =====
-- What the parser's result looks like.
use unifi_netwatcher.Models.{OuiEntry}
use unifi_netwatcher.Base.{
  Bool-cases, length, get_elem?, All, In, Distinct, All-In, All-of_In, Text, text_eq, text_eq_refl,
  lower_char, lower, split, ◌≡◌, refl, sym, ◌⊎◌, inl, inr, true, Option, none, some, List, [], ◌∷◌,
  map, arith,
}
use unifi_netwatcher.Oui.{
  set_entry, parse_lines, parse_oui_data, prefix_of, add_block, is_start, oui_prefix, owner_of,
}
use mathlib.Core.Path.{subst}
use mathlib.Core.Option.{some-injective}

abbrev pub prefixes : List OuiEntry → List Text
prefixes es = map (λ (e : OuiEntry). e.mac_prefix) es

-- Six characters and the colons between their pairs.
abbrev pub IsPrefix : Text → Type 0
IsPrefix p = (length p ≡ 8) × (get_elem? p 2 ≡ some b':') × (get_elem? p 5 ≡ some b':')

-- An entry is set without a second one for its key.
record IsSound (es : List OuiEntry) : Type 0 where
  distinct : Distinct (prefixes es)
  shape : All IsPrefix (prefixes es)

In-set_entry :
    (key owner p : Text) (es : List OuiEntry)
    → In p (prefixes (set_entry key owner es))
    → (p ≡ key) ⊎ In p (prefixes es)
unfolding set_entry
In-set_entry key owner p [] (inl q) = inl q
In-set_entry key owner p [] (inr m) = elim m [ ]
In-set_entry key owner p (e ∷ es) m = elim (Bool-cases (text_eq e.mac_prefix key)) [
  | inl h ↦ inr (rw h at m)
  | inr h ↦ elim (rw h at m) [
    | inl q ↦ inr (inl q)
    | inr k ↦ elim (In-set_entry key owner p es k) [ inl q ↦ inl q | inr z ↦ inr (inr z) ]
  ]
]

set_entry-Distinct :
    (key owner : Text) (es : List OuiEntry)
    → Distinct (prefixes es)
    → Distinct (prefixes (set_entry key owner es))
unfolding set_entry
set_entry-Distinct key owner [] d = ((λ m. m), tt)
set_entry-Distinct key owner (e ∷ es) d = elim (Bool-cases (text_eq e.mac_prefix key)) [
  | inl h ↦ rw h d
  | inr h ↦ rw h (
    λ m. elim (In-set_entry key owner e.mac_prefix es m) [
      | inl q ↦
          (let both : text_eq e.mac_prefix key ≡ true = rw q (text_eq_refl key) in
            absurd (ground (arith, h, both)))
      | inr k ↦ d.0 k
    ],
    set_entry-Distinct key owner es d.1,
  )
]

set_entry-shape :
    (key owner : Text) (es : List OuiEntry)
    → IsPrefix key
    → All IsPrefix (prefixes es)
    → All IsPrefix (prefixes (set_entry key owner es))
set_entry-shape key owner es k h = All-of_In IsPrefix _ (λ p m.
    elim (In-set_entry key owner p es m) [
      | inl q ↦ subst IsPrefix (sym q) k
      | inr z ↦ All-In IsPrefix p (prefixes es) h z
    ])

prefix_of-IsPrefix : (s p : Text) → prefix_of s ≡ some p → IsPrefix p
prefix_of-IsPrefix (a ∷ b ∷ c ∷ d ∷ e ∷ f ∷ []) p h =
    subst IsPrefix (some-injective _ p h) (unfold lower lower_char in (refl, refl, refl))
prefix_of-IsPrefix [] p h = absurd (ground arith)
prefix_of-IsPrefix (a ∷ []) p h = absurd (ground arith)
prefix_of-IsPrefix (a ∷ b ∷ []) p h = absurd (ground arith)
prefix_of-IsPrefix (a ∷ b ∷ c ∷ []) p h = absurd (ground arith)
prefix_of-IsPrefix (a ∷ b ∷ c ∷ d ∷ []) p h = absurd (ground arith)
prefix_of-IsPrefix (a ∷ b ∷ c ∷ d ∷ e ∷ []) p h = absurd (ground arith)
prefix_of-IsPrefix (a ∷ b ∷ c ∷ d ∷ e ∷ f ∷ g ∷ s) p h = absurd (ground arith)

add_block-IsSound :
    (o : Option Text) (owner : Text) (es : List OuiEntry)
    → ((p : Text) → o ≡ some p → IsPrefix p)
    → IsSound es
    → IsSound (add_block o owner es)
add_block-IsSound none owner es h k = k
add_block-IsSound (some key) owner es h k = record {
  distinct = set_entry-Distinct key owner es k.distinct;
  shape = set_entry-shape key owner es (h key refl) k.shape;
}

parse_lines-IsSound :
    (lines : List Text) (es : List OuiEntry) → IsSound es → IsSound (parse_lines lines es)
unfolding parse_lines
parse_lines-IsSound [] es k = k
parse_lines-IsSound (a ∷ []) es k = k
parse_lines-IsSound (a ∷ b ∷ []) es k = k
parse_lines-IsSound (a ∷ b ∷ c ∷ rest) es k = elim (Bool-cases (is_start a b)) [
  | inl e ↦ rw e (
      parse_lines-IsSound rest _ (
        add_block-IsSound (oui_prefix c) (owner_of b) es
          (λ p q. unfold oui_prefix in prefix_of-IsPrefix _ p q) k))
  | inr e ↦ rw e (parse_lines-IsSound (b ∷ c ∷ rest) es k)
]

-- The parser never gives two entries for one prefix, and every prefix is three pairs of characters
-- with colons between them.
pub parse_oui_data-prefixes :
    (text : Text)
    → Distinct (prefixes (parse_oui_data text)) × All IsPrefix (prefixes (parse_oui_data text))
unfolding parse_oui_data
parse_oui_data-prefixes text =
    let k = parse_lines-IsSound (split b'\n' text) [] (record { distinct = tt; shape = tt }) in
    (k.distinct, k.shape)

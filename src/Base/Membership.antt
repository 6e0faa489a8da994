-- ===== src/Base/Membership.antt =====
-- Membership by recursion, with the position kept, and lists without repetition.
use mathlib.Core.Path.{◌≡◌, refl, ap, sym, ◌∙◌}
use mathlib.Core.Logic.{◌⊎◌, inl, inr}
use mathlib.Core.Bool.{Bool, true}
use mathlib.Core.List.{List, [], ◌∷◌, ◌++◌, map}
use unifi_netwatcher.Base.Tests.{Bool-cases}
use unifi_netwatcher.Base.Lists.{filter, All}

abbrev pub In : {A : Type 0} → A → List A → Type 0
In a [] = ⊥
In a (x ∷ xs) = (a ≡ x) ⊎ In a xs

-- No element stands twice.
abbrev pub Distinct : {A : Type 0} → List A → Type 0
Distinct [] = Unit
Distinct (x ∷ xs) = (¬ In x xs) × Distinct xs

module _ {A : Type 0} (a : A) where
  pub In-append_left : (xs ys : List A) → In a xs → In a (xs ++ ys)
  In-append_left [] ys h = elim h [ ]
  In-append_left (x ∷ xs) ys (inl e) = inl e
  In-append_left (x ∷ xs) ys (inr h) = inr (In-append_left xs ys h)

  pub In-append_right : (xs ys : List A) → In a ys → In a (xs ++ ys)
  In-append_right [] ys h = h
  In-append_right (x ∷ xs) ys h = inr (In-append_right xs ys h)

  pub In-of_append : (xs ys : List A) → In a (xs ++ ys) → In a xs ⊎ In a ys
  In-of_append [] ys h = inr h
  In-of_append (x ∷ xs) ys (inl e) = inl (inl e)
  In-of_append (x ∷ xs) ys (inr h) = elim (In-of_append xs ys h) [
    | inl g ↦ inl (inr g)
    | inr g ↦ inr g
  ]

  -- An element that passes the filter is an element, and it passes the test.
  pub In-of_filter : (p : A → Bool) (xs : List A) → In a (filter p xs) → In a xs × (p a ≡ true)
  unfolding filter
  In-of_filter p [] m = elim m [ ]
  In-of_filter p (x ∷ xs) m = elim (Bool-cases (p x)) [
    | inl e ↦ elim (rw e at m) [
      | inl q ↦ (inl q, ap p q ∙ e)
      | inr q ↦ let (h, r) = In-of_filter p xs q in (inr h, r)
    ]
    | inr e ↦ let (h, r) = In-of_filter p xs (rw e at m) in (inr h, r)
  ]

  pub In-filter : (p : A → Bool) (xs : List A) → In a xs → p a ≡ true → In a (filter p xs)
  unfolding filter
  In-filter p [] m h = elim m [ ]
  In-filter p (x ∷ xs) (inl q) h = let e : p x ≡ true = ap p (sym q) ∙ h in rw e (inl q)
  In-filter p (x ∷ xs) (inr m) h = elim (Bool-cases (p x)) [
    | inl e ↦ rw e (inr (In-filter p xs m h))
    | inr e ↦ rw e (In-filter p xs m h)
  ]

module _ {A : Type 0} (P : A → Type 0) where
  pub All-In : (a : A) (xs : List A) → All P xs → In a xs → P a
  All-In a [] h m = elim m [ ]
  All-In a (x ∷ xs) h (inl e) = rw e h.0
  All-In a (x ∷ xs) h (inr m) = All-In a xs h.1 m

  pub All-of_In : (xs : List A) → ((a : A) → In a xs → P a) → All P xs
  All-of_In [] h = tt
  All-of_In (x ∷ xs) h = (h x (inl refl), All-of_In xs (λ a m. h a (inr m)))

-- A new element at the end keeps a list without repetition.
pub Distinct-snoc :
    {A : Type 0} (a : A) (xs : List A) → Distinct xs → ¬ In a xs → Distinct (xs ++ a ∷ [])
Distinct-snoc a [] d n = ((λ m. m), tt)
Distinct-snoc a (x ∷ xs) d n = (
  λ m. elim (In-of_append x xs (a ∷ []) m) [
    | inl q ↦ d.0 q
    | inr q ↦ elim q [ inl e ↦ n (inl (sym e)) | inr z ↦ z ]
  ],
  Distinct-snoc a xs d.1 (λ m. n (inr m)),
)

pub In-map : {A B : Type 0} (f : A → B) (a : A) (xs : List A) → In a xs → In (f a) (map f xs)
In-map f a [] m = elim m [ ]
In-map f a (x ∷ xs) (inl e) = inl (ap f e)
In-map f a (x ∷ xs) (inr m) = inr (In-map f a xs m)

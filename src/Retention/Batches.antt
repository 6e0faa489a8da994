-- ===== src/Retention/Batches.antt =====
-- Deleting in batches deletes all old rows and no other.
use unifi_netwatcher.Base.{
  ltb, Bool-cases, length, take, is_empty, filter, All, In, Distinct, In-of_filter, In-filter,
  All-of_In, In-map, ℕ, zero, suc, ◌+◌, ◌<◌, ◌≡◌, refl, sym, ap, ◌∙◌, inl, inr, Bool, true, false,
  not, List, [], ◌∷◌, map, arith,
}
use unifi_netwatcher.Scanner.Alerts.{elem}
use unifi_netwatcher.Retention.{batch_ids, prune, delete_batch_size, delete_in}
use unifi_netwatcher.Scanner.Cooldown.{In-of_elem, elem-of_In}

pub In-of_take : {A : Type 0} (a : A) (n : ℕ) (xs : List A) → In a (take n xs) → In a xs
In-of_take a zero xs m = elim m [ ]
In-of_take a (suc n) [] m = elim m [ ]
In-of_take a (suc n) (x ∷ xs) (inl e) = inl e
In-of_take a (suc n) (x ∷ xs) (inr m) = inr (In-of_take a n xs m)

pub In-of_map :
    {A B : Type 0} (f : A → B) (b : B) (xs : List A)
    → In b (map f xs)
    → (a : A) × (In a xs × (b ≡ f a))
In-of_map f b [] m = elim m [ ]
In-of_map f b (x ∷ xs) (inl e) = (x, (inl refl, e))
In-of_map f b (x ∷ xs) (inr m) = let (a, (k, e)) = In-of_map f b xs m in (a, (inr k, e))

-- In a list with distinct keys, a key has one row.
same_row :
    {A : Type 0} (f : A → ℕ) (a b : A) (xs : List A)
    → Distinct (map f xs)
    → In a xs
    → In b xs
    → f a ≡ f b
    → a ≡ b
same_row f a b [] d m k e = elim m [ ]
same_row f a b (x ∷ xs) d (inl p) (inl q) e = p ∙ sym q
same_row f a b (x ∷ xs) d (inl p) (inr k) e = absurd (d.0 (rw (sym (ap f p) ∙ e) (In-map f b xs k)))
same_row f a b (x ∷ xs) d (inr m) (inl q) e =
    absurd (d.0 (rw (sym (ap f q) ∙ sym e) (In-map f a xs m)))
same_row f a b (x ∷ xs) d (inr m) (inr k) e = same_row f a b xs d.1 m k e

module _ {A : Type 0} (p q : A → Bool) where
  abbrev pub Implies : List A → Type 0
  Implies xs = All (λ x. p x ≡ true → q x ≡ true) xs

  pub filter-filter :
      (xs : List A)
      → Implies xs
      → filter (λ x. not (q x)) (filter (λ x. not (p x)) xs) ≡ filter (λ x. not (q x)) xs
  unfolding filter
  filter-filter [] h = refl
  filter-filter (x ∷ xs) h = elim (Bool-cases (p x)) [
    | inl e ↦ rw (e, h.0 e) (filter-filter xs h.1)
    | inr e ↦ elim (Bool-cases (q x)) [
      | inl z ↦ rw (e, z) (filter-filter xs h.1)
      | inr z ↦ rw (e, z, filter-filter xs h.1) refl
    ]
  ]

  pub count-filter :
      (xs : List A)
      → Implies xs
      → length (filter p xs) + length (filter q (filter (λ x. not (p x)) xs)) ≡ length (filter q xs)
  unfolding filter
  count-filter [] h = omega arith
  count-filter (x ∷ xs) h = elim (Bool-cases (p x)) [
    | inl e ↦ rw (e, h.0 e) (omega (arith, count-filter xs h.1))
    | inr e ↦ elim (Bool-cases (q x)) [
      | inl z ↦ rw (e, z) (omega (arith, count-filter xs h.1))
      | inr z ↦ rw (e, z) (count-filter xs h.1)
    ]
  ]

pub Distinct-filter :
    {A : Type 0} (f : A → ℕ) (p : A → Bool) (xs : List A)
    → Distinct (map f xs)
    → Distinct (map f (filter p xs))
unfolding filter
Distinct-filter f p [] d = tt
Distinct-filter f p (x ∷ xs) d = elim (Bool-cases (p x)) [
  | inl e ↦ rw e (
    λ m.
        let (a, (k, r)) = In-of_map f (f x) (filter p xs) m in
        d.0 (rw r (In-map f a xs (In-of_filter a p xs k).0)),
    Distinct-filter f p xs d.1,
  )
  | inr e ↦ rw e (Distinct-filter f p xs d.1)
]

take-empty : {A : Type 0} (n : ℕ) (xs : List A) → is_empty (take (suc n) xs) ≡ true → xs ≡ []
take-empty n [] h = refl
take-empty n (x ∷ xs) h = absurd (ground arith)

map-empty : {A B : Type 0} (f : A → B) (xs : List A) → map f xs ≡ [] → xs ≡ []
map-empty f [] h = refl
map-empty f (x ∷ xs) h = absurd (ground (arith, ap length h))

some_element : (xs : List ℕ) → is_empty xs ≡ false → (k : ℕ) × In k xs
some_element [] h = absurd (ground arith)
some_element (x ∷ xs) h = (x, inl refl)

positive-of_In : {A : Type 0} (a : A) (xs : List A) → In a xs → 0 < length xs
positive-of_In a [] m = elim m [ ]
positive-of_In a (x ∷ xs) m = omega arith

pub ap_pair : {A B : Type 0} {a a' : A} {b b' : B} → a ≡ a' → b ≡ b' → Path (A × B) (a, b) (a', b')
ap_pair p q = λ i. (p i, q i)

module _ {A : Type 0} (id_of time_of : A → ℕ) (cutoff : ℕ) where
  abbrev pub is_old : A → Bool
  is_old x = ltb (time_of x) cutoff

  abbrev pub in_batch : List A → A → Bool
  in_batch rows x = elem (id_of x) (batch_ids id_of time_of cutoff rows)

  -- A batch holds ids of old rows.
  pub batch-Implies :
      (rows : List A) → Distinct (map id_of rows) → Implies (in_batch rows) is_old rows
  unfolding batch_ids
  batch-Implies rows d = All-of_In _ rows (λ x m h.
      let listed = In-of_take (id_of x) delete_batch_size _ (In-of_elem (id_of x) _ h) in
      let (y, (k, e)) = In-of_map id_of (id_of x) (filter is_old rows) listed in
      let (k', old) = In-of_filter y is_old rows k in rw (same_row id_of x y rows d m k' e) old)

  -- An empty batch: nothing is old.
  pub batch-empty :
      (rows : List A)
      → is_empty (batch_ids id_of time_of cutoff rows) ≡ true
      → filter is_old rows ≡ []
  unfolding batch_ids
  batch-empty rows h = map-empty id_of (filter is_old rows) (take-empty 499 _ h)

  pub none_old :
      (rows : List A) → filter is_old rows ≡ [] → filter (λ x. not (is_old x)) rows ≡ rows
  unfolding filter
  none_old [] h = refl
  none_old (x ∷ xs) h = elim (Bool-cases (is_old x)) [
    | inl e ↦ absurd (ground (arith, ap length (rw e at h)))
    | inr e ↦ rw (e, none_old xs (rw e at h)) refl
  ]

  pub batch-progress :
      (rows : List A)
      → is_empty (batch_ids id_of time_of cutoff rows) ≡ false
      → 0 < length (filter (in_batch rows) rows)
  batch-progress rows h =
      let (k, m) = some_element (batch_ids id_of time_of cutoff rows) h in
      let (y, (n, e)) =
        In-of_map id_of k (filter is_old rows)
          (In-of_take k delete_batch_size _ (unfold batch_ids in m)) in
      let there = (In-of_filter y is_old rows n).0 in
      positive-of_In y _
        (In-filter y (in_batch rows) rows there (elem-of_In (id_of y) _ (rw (sym e) m)))

  -- If no two rows have the same id, the loop over batches ends within one round more than there are
  -- old rows: it comes to the rows that are not old, in their order, and to the number of the others,
  -- just as a single deletion would.
  pub prune_lem :
      (fuel : ℕ) (rows : List A)
      → Distinct (map id_of rows)
      → length (filter is_old rows) < fuel
      → prune id_of time_of cutoff fuel rows
        ≡ (length (filter is_old rows), filter (λ x. not (is_old x)) rows)
  unfolding prune delete_in
  prune_lem zero rows d h = absurd (omega arith)
  prune_lem (suc fuel) rows d h =
      elim (Bool-cases (is_empty (batch_ids id_of time_of cutoff rows))) [
        | inl e ↦ let q = batch-empty rows e in rw e (rw (q, none_old rows q) refl)
        | inr e ↦
            let imp = batch-Implies rows d in
            let n = count-filter (in_batch rows) is_old rows imp in
            let kept = filter (λ x. not (in_batch rows x)) rows in
            let rest =
              prune_lem fuel kept (Distinct-filter id_of (λ x. not (in_batch rows x)) rows d)
                (omega (arith, h, n, batch-progress rows e)) in
            rw (e, rest) (ap_pair n (filter-filter (in_batch rows) is_old rows imp))
      ]

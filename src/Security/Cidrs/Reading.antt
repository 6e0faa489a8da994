-- ===== src/Security/Cidrs/Reading.antt =====
-- What the loop over a multiline list collects.
use unifi_netwatcher.Base.{
  ltb, Bool-cases, length, is_empty, All, length-append, All-append, In, Distinct, Distinct-snoc,
  Text, text_eq, text_eq_refl, eq_of_text_eq, text_in, ℕ, suc, ◌≤◌, ◌<◌, ◌≡◌, refl, inl, inr, true,
  Option, none, some, List, [], ◌∷◌, arith,
}
use unifi_netwatcher.Security.Cidrs.{Lines, add_entry, read_line, read_lines, no_lines}

pub In-of_text_in : (s : Text) (xs : List Text) → text_in s xs ≡ true → In s xs
unfolding text_in
In-of_text_in s [] h = absurd (ground arith)
In-of_text_in s (x ∷ xs) h = elim (Bool-cases (text_eq s x)) [
  | inl e ↦ inl (eq_of_text_eq s x e)
  | inr e ↦ inr (In-of_text_in s xs (rw e at h))
]

pub text_in-of_In : (s : Text) (xs : List Text) → In s xs → text_in s xs ≡ true
unfolding text_in
text_in-of_In s [] m = elim m [ ]
text_in-of_In s (x ∷ xs) (inl e) = rw (e, text_eq_refl x) refl
text_in-of_In s (x ∷ xs) (inr m) = ground (arith, text_in-of_In s xs m)

module _ (prepare : Text → Text) (accept : Text → Option Text) (limit : ℕ) where
  -- What holds between two lines.
  record IsSound (s : Lines) : Type 0 where
    accepted : All (λ c. (v : Text) × (accept v ≡ some c)) s.normalized
    distinct : Distinct s.normalized
    counted : length s.normalized ≤ s.non_blank
    bounded : length s.normalized ≤ limit

  add_entry-IsSound :
      (i : ℕ) (raw v : Text) (o : Option Text) (s : Lines)
      → accept v ≡ o
      → length s.normalized < s.non_blank
      → s.non_blank ≤ limit
      → IsSound s
      → IsSound (add_entry prepare accept limit i raw o s)
  unfolding add_entry
  add_entry-IsSound i raw v none s e lt le k = record {
    accepted = k.accepted;
    distinct = k.distinct;
    counted = k.counted;
    bounded = k.bounded;
  }
  add_entry-IsSound i raw v (some c) s e lt le k = elim (Bool-cases (text_in c s.normalized)) [
    | inl q ↦ rw q k
    | inr q ↦ rw q (record {
      accepted = All-append _ s.normalized (c ∷ []) k.accepted ((v, e), tt);
      distinct =
          Distinct-snoc c s.normalized k.distinct
            (λ m. absurd (ground (arith, text_in-of_In c s.normalized m)));
      counted = omega (arith, lt, length-append s.normalized (c ∷ []));
      bounded = omega (arith, lt, le, length-append s.normalized (c ∷ []));
    })
  ]

  read_line-IsSound :
      (i : ℕ) (raw : Text) (s : Lines)
      → IsSound s
      → IsSound (read_line prepare accept limit i raw s).0
  unfolding read_line
  read_line-IsSound i raw s k = elim (Bool-cases (is_empty (prepare raw))) [
    | inl e ↦ rw e k
    | inr e ↦ elim (Bool-cases (ltb limit (suc s.non_blank))) [
      | inl q ↦
          rw (e, q)
            (record {
              accepted = k.accepted;
              distinct = k.distinct;
              counted = omega (arith, k.counted);
              bounded = k.bounded;
            })
      | inr q ↦
          rw (e, q)
            (add_entry-IsSound i raw (prepare raw) _ _ refl (omega (arith, k.counted))
              (ground (arith, q))
              (record {
                accepted = k.accepted;
                distinct = k.distinct;
                counted = omega (arith, k.counted);
                bounded = k.bounded;
              }))
    ]
  ]

  read_lines-IsSound :
      (i : ℕ) (lines : List Text) (s : Lines)
      → IsSound s
      → IsSound (read_lines prepare accept limit i lines s)
  unfolding read_lines
  read_lines-IsSound i [] s k = k
  read_lines-IsSound i (raw ∷ rest) s k =
      elim (Bool-cases (read_line prepare accept limit i raw s).1) [
        | inl e ↦ rw e (read_line-IsSound i raw s k)
        | inr e ↦ rw e (read_lines-IsSound (suc i) rest _ (read_line-IsSound i raw s k))
      ]

  -- The list read from a text has no entry twice, no more entries than the limit, and each of them
  -- is the canonical form of an accepted value.
  pub read_lines-normalized :
      (lines : List Text)
      → (Distinct (read_lines prepare accept limit 1 lines no_lines).normalized)
        × (length (read_lines prepare accept limit 1 lines no_lines).normalized ≤ limit)
        × All
            (λ c. (v : Text) × (accept v ≡ some c))
            (read_lines prepare accept limit 1 lines no_lines).normalized
  read_lines-normalized lines =
      let k =
        read_lines-IsSound 1 lines no_lines
          (record { accepted = tt; distinct = tt; counted = omega arith; bounded = omega arith }) in
      (k.distinct, k.bounded, k.accepted)

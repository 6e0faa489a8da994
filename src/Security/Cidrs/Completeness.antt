-- ===== src/Security/Cidrs/Completeness.antt =====
-- A list that is read without an error has every line.
use unifi_netwatcher.Base.{
  ltb, Bool-cases, is_empty, All, In, In-append_left, In-append_right, Text, text_in, strip, ℕ, suc,
  ◌≡◌, refl, sym, ◌⊎◌, inl, inr, true, false, Option, none, some, List, [], ◌∷◌, ◌++◌, arith,
}
use unifi_netwatcher.Security.Cidrs.{Lines, add_entry, read_line, read_lines, invalid, too_many}
use unifi_netwatcher.Security.Cidrs.Reading.{In-of_text_in}
use mathlib.Core.Path.{subst}

module _ (prepare : Text → Text) (accept : Text → Option Text) (limit : ℕ) where
  -- The line is blank, or its canonical form is in the list.
  abbrev pub IsRead : List Text → Text → Type 0
  IsRead found raw =
      (is_empty (prepare raw) ≡ true)
      ⊎ ((c : Text) × ((accept (prepare raw) ≡ some c) × In c found))

  -- Nothing is lost, and an error stays.
  record Grows (s s' : Lines) : Type 0 where
    entries : (c : Text) → In c s.normalized → In c s'.normalized
    errors : is_empty s'.errors ≡ true → is_empty s.errors ≡ true

  not_empty_snoc : {A : Type 0} (xs : List A) (x : A) → is_empty (xs ++ x ∷ []) ≡ false
  not_empty_snoc [] x = refl
  not_empty_snoc (y ∷ xs) x = refl

  add_entry-Grows :
      (i : ℕ) (raw : Text) (o : Option Text) (s : Lines)
      → Grows s (add_entry prepare accept limit i raw o s)
  unfolding add_entry
  add_entry-Grows i raw none s = record {
    entries = λ c m. m;
    errors = λ h. absurd (ground (arith, not_empty_snoc s.errors (invalid i (strip raw)), h));
  }
  add_entry-Grows i raw (some c) s = elim (Bool-cases (text_in c s.normalized)) [
    | inl q ↦ rw q (record { entries = λ d m. m; errors = λ h. h })
    | inr q ↦
        rw q (record { entries = λ d m. In-append_left d s.normalized (c ∷ []) m; errors = λ h. h })
  ]

  read_line-Grows :
      (i : ℕ) (raw : Text) (s : Lines) → Grows s (read_line prepare accept limit i raw s).0
  unfolding read_line
  read_line-Grows i raw s = elim (Bool-cases (is_empty (prepare raw))) [
    | inl e ↦ rw e (record { entries = λ d m. m; errors = λ h. h })
    | inr e ↦ elim (Bool-cases (ltb limit (suc s.non_blank))) [
      | inl q ↦
          rw (e, q)
            (record {
              entries = λ d m. m;
              errors = λ h. absurd (ground (arith, not_empty_snoc s.errors (too_many limit), h));
            })
      | inr q ↦
          rw (e, q)
            (let g =
                add_entry-Grows i raw (accept (prepare raw))
                  (record s { non_blank = suc s.non_blank }) in
              record { entries = g.entries; errors = g.errors })
    ]
  ]

  read_lines-Grows :
      (i : ℕ) (lines : List Text) (s : Lines) → Grows s (read_lines prepare accept limit i lines s)
  unfolding read_lines
  read_lines-Grows i [] s = record { entries = λ d m. m; errors = λ h. h }
  read_lines-Grows i (raw ∷ rest) s = elim (Bool-cases (read_line prepare accept limit i raw s).1) [
    | inl e ↦ rw e (read_line-Grows i raw s)
    | inr e ↦
        let g = read_line-Grows i raw s in
        let g' = read_lines-Grows (suc i) rest (read_line prepare accept limit i raw s).0 in
        rw e (record {
          entries = λ d m. g'.entries d (g.entries d m);
          errors = λ h. g.errors (g'.errors h);
        })
  ]

  add_entry-Read :
      (i : ℕ) (raw : Text) (o : Option Text) (s : Lines)
      → accept (prepare raw) ≡ o
      → is_empty (add_entry prepare accept limit i raw o s).errors ≡ true
      → IsRead (add_entry prepare accept limit i raw o s).normalized raw
  unfolding add_entry
  add_entry-Read i raw none s q h =
      absurd (ground (arith, not_empty_snoc s.errors (invalid i (strip raw)), h))
  add_entry-Read i raw (some c) s q h = elim (Bool-cases (text_in c s.normalized)) [
    | inl e ↦ rw e (inr (c, (q, In-of_text_in c s.normalized e)))
    | inr e ↦ rw e (inr (c, (q, In-append_right c s.normalized (c ∷ []) (inl refl))))
  ]

  -- The loop goes on after a line without an error.
  read_line-Read :
      (i : ℕ) (raw : Text) (s : Lines)
      → is_empty (read_line prepare accept limit i raw s).0.errors ≡ true
      → ((read_line prepare accept limit i raw s).1 ≡ false)
        × IsRead (read_line prepare accept limit i raw s).0.normalized raw
  unfolding read_line
  read_line-Read i raw s h = elim (Bool-cases (is_empty (prepare raw))) [
    | inl e ↦ rw e (refl, inl refl)
    | inr e ↦ elim (Bool-cases (ltb limit (suc s.non_blank))) [
      | inl q ↦ absurd (ground (arith, not_empty_snoc s.errors (too_many limit), rw (e, q) at h))
      | inr q ↦
          elim (add_entry-Read i raw (accept (prepare raw))
            (record s { non_blank = suc s.non_blank }) refl (rw (e, q) at h)) [
              | inl z ↦ absurd (ground (arith, e, z))
              | inr z ↦ rw (e, q) (refl, inr z)
            ]
    ]
  ]

  IsRead-Grows :
      (s s' : Lines) (raw : Text) → Grows s s' → IsRead s.normalized raw → IsRead s'.normalized raw
  IsRead-Grows s s' raw g (inl e) = inl e
  IsRead-Grows s s' raw g (inr (c, (q, m))) = inr (c, (q, g.entries c m))

  -- If no line is in error, the loop has read every line: each is blank, or it is accepted and its
  -- canonical form is in the list.
  pub read_lines-Complete :
      (i : ℕ) (lines : List Text) (s : Lines)
      → is_empty (read_lines prepare accept limit i lines s).errors ≡ true
      → All (IsRead (read_lines prepare accept limit i lines s).normalized) lines
  unfolding read_lines
  read_lines-Complete i [] s h = tt
  read_lines-Complete i (raw ∷ rest) s h =
      elim (Bool-cases (read_line prepare accept limit i raw s).1) [
        | inl e ↦ absurd (ground (arith, (read_line-Read i raw s (rw e at h)).0))
        | inr e ↦
            let s' = (read_line prepare accept limit i raw s).0 in
            let g = read_lines-Grows (suc i) rest s' in
            let h' : is_empty (read_lines prepare accept limit (suc i) rest s').errors ≡ true =
              rw e at h in
            let q : read_lines prepare accept limit i (raw ∷ rest) s
                ≡ read_lines prepare accept limit (suc i) rest s' =
              rw e in
            subst (λ z. All (IsRead z.normalized) (raw ∷ rest)) (sym q)
              (
                IsRead-Grows s' _ raw g (read_line-Read i raw s (g.errors h')).1,
                read_lines-Complete (suc i) rest s' h',
              )
      ]

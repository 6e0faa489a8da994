-- ===== src/Web/Pagination/Pages.antt =====
-- The pages of a list, one after the other, are the list.
use native.Mathlib.Nat.{zero-add, suc-add, suc-mul, zero-mul, le-div_iff_mul-le, lt-div-mul-add}
use unifi_netwatcher.Base.{
  leb, ltb→lt, lt→ltb, length, take, drop, ℕ, zero, suc, ◌+◌, ◌-◌, ◌*◌, ◌/◌, ◌≤◌, ◌<◌, max, ◌≡◌,
  refl, ap, ◌∙◌, ◌↔◌, true, false, List, [], ◌∷◌, ◌++◌, arith,
}
use unifi_netwatcher.Web.Pagination.{paginate, total_pages, has_next}

module _ {A : Type 0} (rows : List A) (size : ℕ) where
  -- The items of the first `n` pages.
  unfoldable pub first_pages : ℕ → List A
  unfolding paginate
  first_pages zero = []
  first_pages (suc n) = first_pages n ++ (paginate rows (suc n) size).items

take-add : {A : Type 0} (m n : ℕ) (xs : List A) → take m xs ++ take n (drop m xs) ≡ take (m + n) xs
take-add zero n xs = rw (zero-add n) refl
take-add (suc m) zero [] = rw (suc-add m 0) refl
take-add (suc m) (suc n) [] = rw (suc-add m (suc n)) refl
take-add (suc m) n (x ∷ xs) = rw (suc-add m n) (ap (λ l. x ∷ l) (take-add m n xs))

take-all : {A : Type 0} (n : ℕ) (xs : List A) → length xs ≤ n → take n xs ≡ xs
take-all zero [] h = refl
take-all zero (x ∷ xs) h = absurd (omega arith)
take-all (suc n) [] h = refl
take-all (suc n) (x ∷ xs) h = ap (λ l. x ∷ l) (take-all n xs (omega arith))

module _ {A : Type 0} (rows : List A) (size : ℕ) where
  first_pages-take : (n : ℕ) → first_pages rows size n ≡ take (n * size) rows
  unfolding first_pages paginate
  first_pages-take zero = rw (zero-mul size) refl
  first_pages-take (suc n) =
      let e : suc n - 1 ≡ n = omega arith in
      rw (first_pages-take n, suc-mul n size, e) (take-add (n * size) size rows)

  abbrev ceiling : ℕ
  ceiling = (length rows + size - 1) / size

  covers : 0 < size → length rows ≤ ceiling * size
  covers h =
      let lt : length rows + size - 1 < ceiling * size + size = lt-div-mul-add h in
      omega (arith, lt, h)

  max-covers : (n : ℕ) → length rows ≤ n * size → length rows ≤ max 1 n * size
  max-covers zero h = omega (arith, h)
  max-covers (suc n) h = let e : max 1 (suc n) ≡ suc n = omega arith in rw e h

  total_pages-eq : (page : ℕ) → 0 < size → total_pages (paginate rows page size) ≡ max 1 ceiling
  unfolding total_pages paginate
  total_pages-eq page h = let e : leb size 0 ≡ false = ground (arith, h) in rw e refl

  next_iff : (page : ℕ) → 0 < size → 1 ≤ page → (page < max 1 ceiling) ↔ (page * size < length rows)
  next_iff page h one =
      let q : suc page ≤ ceiling ↔ suc page * size ≤ length rows + size - 1 = le-div_iff_mul-le h in
      let e : suc page * size ≡ page * size + size = suc-mul page size in
      (
        λ lt. omega (arith, q.0 (omega (arith, lt, one)), e, h),
        λ lt.
            let below : suc page ≤ ceiling = q.1 (omega (arith, lt, e, h)) in omega (arith, below),
      )

  -- Whichever page one is on, the pages from the first to the last hold every row, in order and once
  -- each, if the page size is positive; and there is a next page exactly if rows are left behind
  -- this one.
  pub pages_lem :
      (page : ℕ)
      → 0 < size
      → (first_pages rows size (total_pages (paginate rows page size)) ≡ rows)
        × (1 ≤ page → (has_next (paginate rows page size) ≡ true) ↔ (page * size < length rows))
  unfolding has_next paginate
  pages_lem page h = (
    (rw (total_pages-eq page h) (
        first_pages-take (max 1 ceiling)
        ∙ take-all (max 1 ceiling * size) rows (max-covers ceiling (covers h)))),
    λ one.
        let e = total_pages-eq page h in
        let n = next_iff page h one in
        (
          λ g. n.0 (ltb→lt page (max 1 ceiling) (rw e at g)),
          λ g. rw e (lt→ltb page (max 1 ceiling) (n.1 g)),
        ),
  )

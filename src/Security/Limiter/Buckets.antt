-- ===== src/Security/Limiter/Buckets.antt =====
-- What the limiter's operations do to the bucket of each address.
use unifi_netwatcher.Base.{
  ltb, Bool-cases, length, All, Text, t, text_eq, text_eq_refl, eq_of_text_eq, ℕ, ◌+◌, ◌≤◌, ◌≡◌,
  refl, ap, ◌∙◌, inl, inr, false, List, [], ◌∷◌, ◌++◌, arith,
}
use unifi_netwatcher.Security.Limiter.{
  bucket_of, auth_fail_window, drop_old, put_bucket, remove_bucket, Failures,
}

pub bucket_of-put_self :
    (ip : Text) (ts : List ℕ) (f : Failures) → bucket_of ip (put_bucket ip ts f) ≡ ts
unfolding bucket_of put_bucket
bucket_of-put_self ip ts f = rw (text_eq_refl ip)

pub bucket_of-remove_self : (ip : Text) (f : Failures) → bucket_of ip (remove_bucket ip f) ≡ []
unfolding bucket_of remove_bucket
bucket_of-remove_self ip [] = refl
bucket_of-remove_self ip ((k, ts) ∷ rest) = ground (arith, bucket_of-remove_self ip rest)

pub bucket_of-remove_ne :
    (ip other : Text) (f : Failures)
    → text_eq ip other ≡ false
    → bucket_of other (remove_bucket ip f) ≡ bucket_of other f
unfolding bucket_of remove_bucket
bucket_of-remove_ne ip other [] h = refl
bucket_of-remove_ne ip other ((k, ts) ∷ rest) h = elim (Bool-cases (text_eq k ip)) [
  | inl e ↦
      let q : text_eq k other ≡ false = ap (λ z. text_eq z other) (eq_of_text_eq k ip e) ∙ h in
      rw (e, q) (bucket_of-remove_ne ip other rest h)
  | inr e ↦ rw (e, bucket_of-remove_ne ip other rest h)
]

pub bucket_of-put_ne :
    (ip other : Text) (ts : List ℕ) (f : Failures)
    → text_eq ip other ≡ false
    → bucket_of other (put_bucket ip ts f) ≡ bucket_of other f
unfolding bucket_of put_bucket
bucket_of-put_ne ip other ts f h = rw h (bucket_of-remove_ne ip other f h)

-- A failure that counts at a time.
abbrev pub IsRecent : ℕ → ℕ → Type 0
IsRecent now x = now ≤ x + auth_fail_window

-- Recent failures stay; of those before them, some do.
pub drop_old-append :
    (t now : ℕ) (old new : List ℕ)
    → t ≤ now
    → All (IsRecent now) new
    → (kept : List ℕ) × (drop_old t (old ++ new) ≡ kept ++ new)
unfolding drop_old
drop_old-append t now [] [] le h = ([], refl)
drop_old-append t now [] (x ∷ new) le h = ([], ground arith)
drop_old-append t now (x ∷ old) new le h = elim (Bool-cases (ltb (x + auth_fail_window) t)) [
  | inl e ↦ let (kept, q) = drop_old-append t now old new le h in (kept, rw e q)
  | inr e ↦ (x ∷ old, rw e)
]

pub length-drop_old : (t : ℕ) (xs : List ℕ) → length (drop_old t xs) ≤ length xs
unfolding drop_old
length-drop_old t [] = omega arith
length-drop_old t (x ∷ xs) = ground (arith, length-drop_old t xs)

-- ===== src/Security/Limiter/Lockout.antt =====
-- The limit itself: ten recent failures lock an address out, and no other.
use unifi_netwatcher.Base.{
  le→leb, Bool-cases, length, is_empty, All, length-append, All-append, Text, text_eq,
  eq_of_text_eq, ℕ, ◌≤◌, ◌<◌, ◌≡◌, refl, sym, ◌∙◌, inl, inr, true, false, List, [], ◌∷◌, ◌++◌,
  arith,
}
use unifi_netwatcher.Security.Limiter.{
  Failures, record_auth_failure, prune_failures, bucket_of, auth_failures_exceeded, auth_fail_limit,
  clear_auth_failures, put_bucket, drop_old,
}
use unifi_netwatcher.Security.Limiter.Buckets.{
  IsRecent, drop_old-append, bucket_of-put_self, bucket_of-remove_ne, bucket_of-remove_self,
  length-drop_old, bucket_of-put_ne,
}
use mathlib.Core.List.{append-nil, append_assoc}

-- The failures recorded one after the other.
unfoldable pub record_all : Text → List ℕ → Failures → Failures
record_all ip [] f = f
record_all ip (x ∷ xs) f = record_all ip xs (record_auth_failure ip x f)

record_auth_failure-Tail :
    (ip : Text) (x now : ℕ) (old new : List ℕ) (f : Failures)
    → is_empty ip ≡ false
    → x ≤ now
    → All (IsRecent now) new
    → bucket_of ip f ≡ old ++ new
    → (kept : List ℕ) × (bucket_of ip (record_auth_failure ip x f) ≡ kept ++ (new ++ x ∷ []))
unfolding record_auth_failure prune_failures
record_auth_failure-Tail ip x now old new f ne le recent q =
    let (kept, e) = drop_old-append x now old new le recent in
    (kept, rw ne (bucket_of-put_self ip _ _ ∙ (rw (q, e) (append_assoc kept new (x ∷ [])))))

record_all-Tail :
    (ip : Text) (now : ℕ) (xs old new : List ℕ) (f : Failures)
    → is_empty ip ≡ false
    → All (IsRecent now) new
    → All (λ x. (x ≤ now) × IsRecent now x) xs
    → bucket_of ip f ≡ old ++ new
    → (kept : List ℕ) × ((bucket_of ip (record_all ip xs f) ≡ kept ++ (new ++ xs))
        × All (IsRecent now) (new ++ xs))
unfolding record_all
record_all-Tail ip now [] old new f ne recent h q =
    (old, (rw (append-nil new) q, rw (append-nil new) recent))
record_all-Tail ip now (x ∷ xs) old new f ne recent h q =
    let (kept, e) = record_auth_failure-Tail ip x now old new f ne h.0.0 recent q in
    let more = All-append (IsRecent now) new (x ∷ []) recent (h.0.1, tt) in
    let (k, (e', r)) = record_all-Tail ip now xs kept (new ++ x ∷ []) _ ne more h.1 e in
    (k, (rw (append_assoc new (x ∷ []) xs) at e', rw (append_assoc new (x ∷ []) xs) at r))

-- Ten failures of an address, none of them older than the window, exceed its limit, whatever was
-- recorded before.
pub ten_failures_exceed :
    (ip : Text) (now : ℕ) (xs : List ℕ) (f : Failures)
    → is_empty ip ≡ false
    → All (λ x. (x ≤ now) × IsRecent now x) xs
    → auth_fail_limit ≤ length xs
    → (auth_failures_exceeded ip now (record_all ip xs f)).0 ≡ true
unfolding auth_failures_exceeded prune_failures
ten_failures_exceed ip now xs f ne h n =
    let (kept, (e, r)) =
      record_all-Tail ip now xs (bucket_of ip f) [] f ne tt h (sym (append-nil (bucket_of ip f))) in
    let (k, q) = drop_old-append now now kept xs (omega arith) r in
    rw (ne, e, q) (le→leb 10 _ (omega (arith, length-append k xs, n)))

-- Failures of one address do not count against another, and neither does forgetting them.
pub others_unaffected :
    (ip other : Text) (now : ℕ) (f : Failures)
    → text_eq ip other ≡ false
    → (bucket_of other (record_auth_failure ip now f) ≡ bucket_of other f)
      × (bucket_of other (auth_failures_exceeded ip now f).1 ≡ bucket_of other f)
      × (bucket_of other (clear_auth_failures ip f) ≡ bucket_of other f)
unfolding record_auth_failure auth_failures_exceeded clear_auth_failures prune_failures
others_unaffected ip other now f h = elim (Bool-cases (is_empty ip)) [
  | inl e ↦ rw e (refl, refl, bucket_of-remove_ne ip other f h)
  | inr e ↦ rw e (
    bucket_of-put_ne ip other _ _ h ∙ bucket_of-put_ne ip other _ f h,
    bucket_of-put_ne ip other _ f h,
    bucket_of-remove_ne ip other f h,
  )
]

-- The limiter never holds more than ten failures of an address.
abbrev pub IsBounded : Failures → Type 0
IsBounded f = (ip : Text) → length (bucket_of ip f) ≤ auth_fail_limit

pub IsBounded-put :
    (ip : Text) (ts : List ℕ) (f : Failures)
    → IsBounded f
    → length ts ≤ auth_fail_limit
    → IsBounded (put_bucket ip ts f)
IsBounded-put ip ts f h n other = elim (Bool-cases (text_eq ip other)) [
  | inl e ↦ let q = eq_of_text_eq ip other e in rw (sym q, bucket_of-put_self ip ts f) n
  | inr e ↦ rw (bucket_of-put_ne ip other ts f e) (h other)
]

pub IsBounded-clear :
    (ip : Text) (f : Failures) → IsBounded f → IsBounded (clear_auth_failures ip f)
unfolding clear_auth_failures
IsBounded-clear ip f h other = elim (Bool-cases (text_eq ip other)) [
  | inl e ↦ let q = eq_of_text_eq ip other e in rw (sym q, bucket_of-remove_self ip f) (omega arith)
  | inr e ↦ rw (bucket_of-remove_ne ip other f e) (h other)
]

pub IsBounded-exceeded :
    (ip : Text) (now : ℕ) (f : Failures)
    → IsBounded f
    → IsBounded (auth_failures_exceeded ip now f).1
unfolding auth_failures_exceeded prune_failures
IsBounded-exceeded ip now f h = elim (Bool-cases (is_empty ip)) [
  | inl e ↦ rw e h
  | inr e ↦
      rw e (IsBounded-put ip _ f h (omega (arith, length-drop_old now (bucket_of ip f), h ip)))
]

IsBounded-record_one :
    (ip : Text) (later : ℕ) (f : Failures)
    → IsBounded f
    → length (bucket_of ip f) < auth_fail_limit
    → IsBounded (record_auth_failure ip later f)
unfolding record_auth_failure prune_failures
IsBounded-record_one ip later f h n = elim (Bool-cases (is_empty ip)) [
  | inl e ↦ rw e h
  | inr e ↦
      let kept = drop_old later (bucket_of ip f) in
      let le : length kept ≤ length (bucket_of ip f) = length-drop_old later (bucket_of ip f) in
      let pruned : IsBounded (put_bucket ip kept f) =
        IsBounded-put ip kept f h (omega (arith, h ip, le)) in
      let size : length (kept ++ later ∷ []) ≤ auth_fail_limit =
        omega (arith, n, le, length-append kept (later ∷ [])) in
      rw e (IsBounded-put ip (kept ++ later ∷ []) (put_bucket ip kept f) pruned size)
]

room :
    (ip : Text) (now : ℕ) (f : Failures)
    → is_empty ip ≡ false
    → (auth_failures_exceeded ip now f).0 ≡ false
    → length (bucket_of ip (auth_failures_exceeded ip now f).1) < auth_fail_limit
unfolding auth_failures_exceeded prune_failures
room ip now f e n =
    let m : length (drop_old now (bucket_of ip f)) < auth_fail_limit = ground (arith, rw e at n) in
    rw (e, bucket_of-put_self ip (drop_old now (bucket_of ip f)) f) m

record_auth_failure_nowhere :
    (ip : Text) (later : ℕ) (f : Failures) → is_empty ip ≡ true → record_auth_failure ip later f ≡ f
unfolding record_auth_failure
record_auth_failure_nowhere ip later f e = rw e

-- A failure is recorded after the limit was asked for and not exceeded.
pub IsBounded-record :
    (ip : Text) (now later : ℕ) (f : Failures)
    → IsBounded f
    → (auth_failures_exceeded ip now f).0 ≡ false
    → IsBounded (record_auth_failure ip later (auth_failures_exceeded ip now f).1)
IsBounded-record ip now later f h n = elim (Bool-cases (is_empty ip)) [
  | inl e ↦
      rw (record_auth_failure_nowhere ip later (auth_failures_exceeded ip now f).1 e)
        (IsBounded-exceeded ip now f h)
  | inr e ↦ IsBounded-record_one ip later _ (IsBounded-exceeded ip now f h) (room ip now f e n)
]

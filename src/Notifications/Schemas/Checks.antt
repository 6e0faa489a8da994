-- ===== src/Notifications/Schemas/Checks.antt =====
-- What a check of a configuration's field says once it has passed.
use unifi_netwatcher.Base.{
  ltb, ltb-false, Bool-cases, length, take, filter, any, all, All, Text, t, text_eq, eq_of_text_eq,
  text_in, upper, bind-eq-ok, ok-injective, ok, ℕ, zero, suc, ◌≤◌, ◌≡◌, refl, sym, ap, inl, inr,
  Bool, true, false, not, List, [], ◌∷◌, arith,
}
use unifi_netwatcher.Models.Values.{
  Json, Fields, null, infinity, nan, bool, int, float, str, arr, obj, end, truthy,
}
use unifi_netwatcher.Notifications.Schemas.{
  header_fits, checked, header_limits, header_fields, webhook_method, https_only, text_of,
}
use unifi_netwatcher.Notifications.Webhook.{
  header_items, sanitize_headers, allowed_methods, is_dropped, fields_or_empty, is_object,
}
use unifi_netwatcher.Notifications.Values.{value_or, str_of}
use unifi_netwatcher.Notifications.Webhook.Headers.{IsCleanHeader}
use mathlib.Core.Path.{subst}

pub take-all : {A : Type 0} (n : ℕ) (xs : List A) → length xs ≤ n → take n xs ≡ xs
take-all zero [] h = refl
take-all zero (x ∷ xs) h = absurd (omega (arith, h))
take-all (suc n) [] h = refl
take-all (suc n) (x ∷ xs) h = ap (λ l. x ∷ l) (take-all n xs (omega (arith, h)))

pub filter-all :
    {A : Type 0} (q p : A → Bool) (xs : List A)
    → ((x : A) → q x ≡ true → p x ≡ true)
    → all q xs ≡ true
    → filter p xs ≡ xs
unfolding filter all
filter-all q p [] i h = refl
filter-all q p (x ∷ xs) i h = elim (Bool-cases (q x)) [
  | inl e ↦ rw (i x e) (ap (λ l. x ∷ l) (filter-all q p xs i (rw e at h)))
  | inr e ↦ absurd (ground (arith, rw e at h))
]

pub All-of_all :
    {A : Type 0} {P : A → Type 0} (q : A → Bool) (xs : List A)
    → ((x : A) → q x ≡ true → P x)
    → all q xs ≡ true
    → All P xs
unfolding all
All-of_all q [] i h = tt
All-of_all q (x ∷ xs) i h = elim (Bool-cases (q x)) [
  | inl e ↦ (i x e, All-of_all q xs i (rw e at h))
  | inr e ↦ absurd (ground (arith, rw e at h))
]

pub fits-clean : (h : Text × Text) → header_fits h ≡ true → IsCleanHeader h
unfolding header_fits
fits-clean (key, value) q =
    (ground arith, ground arith, ground arith, ground arith, ground arith, ground arith)

pub fits-kept : (h : Text × Text) → header_fits h ≡ true → not (is_dropped h) ≡ true
unfolding header_fits is_dropped
fits-kept (key, value) q = ground arith

pub header_items-fields :
    (show : Json → Text) (hs : List (Text × Text)) → header_items show (header_fields hs) ≡ hs
unfolding header_items str_of
header_items-fields show [] = refl
header_items-fields show ((k, v) ∷ hs) = ap (λ l. (k, v) ∷ l) (header_items-fields show hs)

pub fields_or_empty-headers :
    (hs : List (Text × Text))
    → fields_or_empty (value_or (obj (header_fields hs)) (obj end)) ≡ header_fields hs
unfolding value_or truthy
fields_or_empty-headers [] = refl
fields_or_empty-headers ((k, v) ∷ hs) = refl

pub sanitize-accepted :
    (show : Json → Text) (hs : List (Text × Text))
    → length hs ≤ 20
    → all header_fits hs ≡ true
    → sanitize_headers show (value_or (obj (header_fields hs)) (obj end)) ≡ hs
unfolding sanitize_headers
sanitize-accepted show hs few fit =
    rw (fields_or_empty-headers hs, header_items-fields show hs, take-all 20 hs few)
      (filter-all header_fits (λ h. not (is_dropped h)) hs fits-kept fit)

pub checked-ok : {A : Type 0} (b : Bool) (a x : A) → checked b a ≡ ok x → (b ≡ true) × (a ≡ x)
unfolding checked
checked-ok true a x h = (refl, ok-injective h)
checked-ok false a x h = absurd (ground arith)

pub header_limits-ok :
    (all_headers headers : List (Text × Text))
    → header_limits all_headers ≡ ok headers
    → (length headers ≤ 20) × (all header_fits headers ≡ true)
unfolding header_limits
header_limits-ok hs headers h = elim (Bool-cases (ltb 20 (length hs))) [
  | inl e ↦ absurd (ground (arith, rw e at h))
  | inr e ↦
      let (fit, same) = checked-ok (all header_fits hs) hs headers (rw e at h) in
      rw (sym same) (ltb-false 20 (length hs) e, fit)
]

pub holds_of_text_in :
    (P : Text → Type 0) (m : Text) (bs : List Text) → All P bs → text_in m bs ≡ true → P m
unfolding text_in any
holds_of_text_in P m [] a h = absurd (ground arith)
holds_of_text_in P m (b ∷ bs) a h = elim (Bool-cases (text_eq m b)) [
  | inl e ↦ subst P (sym (eq_of_text_eq m b e)) a.0
  | inr e ↦ holds_of_text_in P m bs a.1 (rw e at h)
]

pub upper-allowed : (m : Text) → text_in m allowed_methods ≡ true → upper m ≡ m
unfolding upper
upper-allowed m h =
    holds_of_text_in (λ s. upper s ≡ s) m allowed_methods (refl, (refl, (refl, tt))) h

pub webhook_method-ok :
    (v : Json) (m : Text) → webhook_method v ≡ ok m → text_in m allowed_methods ≡ true
unfolding webhook_method
webhook_method-ok v m h =
    let (s, read, fits) = bind-eq-ok (text_of v) _ h in
    let (allowed, same) = checked-ok (text_in s allowed_methods) s m fits in
    subst (λ x. text_in x allowed_methods ≡ true) same allowed

pub https_only-ok :
    (address : Text × Text) (url : Text) → https_only address ≡ ok url → address ≡ (t "https", url)
unfolding https_only
https_only-ok (scheme, a) url h =
    let (https, same) = checked-ok (text_eq scheme (t "https")) a url h in
    rw (eq_of_text_eq scheme (t "https") https, same) refl

pub object-is : (v : Json) → is_object v ≡ true → (fs : Fields) × (v ≡ obj fs)
object-is (obj fs) h = (fs, refl)
object-is null h = absurd (ground arith)
object-is infinity h = absurd (ground arith)
object-is nan h = absurd (ground arith)
object-is (bool b) h = absurd (ground arith)
object-is (int n) h = absurd (ground arith)
object-is (float m k) h = absurd (ground arith)
object-is (str s) h = absurd (ground arith)
object-is (arr items) h = absurd (ground arith)

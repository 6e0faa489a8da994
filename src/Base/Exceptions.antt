-- ===== src/Base/Exceptions.antt =====
-- Python exceptions as values: a call returns or raises.
use mathlib.Core.Path.{◌≡◌, refl}
use mathlib.Core.Bool.{Bool, true, false}
use native.Mathlib.Omega.{arith}

-- The exception classes that the source raises or tells apart by an `except` clause.
pub data Exception : Type 0 where
  value_error type_error overflow_error os_error gai_error : Exception
  secret_key_error webhook_url_error device_not_found device_action : Exception
  body_limit_exceeded read_deadline_exceeded integrity_error other_error : Exception

abbrev pub is_os_error : Exception → Bool
is_os_error os_error = true
is_os_error _ = false

abbrev pub is_value_error : Exception → Bool
is_value_error value_error = true
is_value_error _ = false

abbrev pub is_webhook_url_error : Exception → Bool
is_webhook_url_error webhook_url_error = true
is_webhook_url_error _ = false

abbrev pub is_secret_key_error : Exception → Bool
is_secret_key_error secret_key_error = true
is_secret_key_error _ = false

-- What a call comes to.
pub data Result {ℓ} (A : Type ℓ) : Type ℓ where
  err : Exception → Result A
  ok : A → Result A

module _ {ℓ} {A : Type ℓ} where
  abbrev pub is_ok : Result A → Bool
  is_ok (err raised) = false
  is_ok (ok value) = true

module _ {ℓ κ} {A : Type ℓ} {B : Type κ} where
  abbrev pub map_ok : (A → B) → Result A → Result B
  map_ok change (err raised) = err raised
  map_ok change (ok value) = ok (change value)

  -- The rest of a block, unless the call raises.
  infixl 5 ◌>>=◌
  abbrev pub ◌>>=◌ : Result A → (A → Result B) → Result B
  err raised >>= rest = err raised
  ok value >>= rest = rest value

  -- A block that returns has gone through its first call.
  pub bind-eq-ok :
      (call : Result A) (rest : A → Result B) {returned : B}
      → (call >>= rest) ≡ ok returned
      → (value : A) × (call ≡ ok value) × (rest value ≡ ok returned)
  bind-eq-ok (err raised) rest h = absurd (ground arith)
  bind-eq-ok (ok value) rest h = (value, refl, h)

pub ok-injective {ℓ} : {A : Type ℓ} {a b : A} → ok a ≡ ok b → a ≡ b
ok-injective h = cc

pub map_ok-eq-ok {ℓ κ} :
    {A : Type ℓ} {B : Type κ} (f : A → B) (m : Result A) {b : B}
    → map_ok f m ≡ ok b
    → (a : A) × (m ≡ ok a) × (f a ≡ b)
map_ok-eq-ok f (ok a) h = (a, refl, ok-injective h)
map_ok-eq-ok f (err e) h = absurd (ground arith)

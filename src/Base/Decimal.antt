-- ===== src/Base/Decimal.antt =====
-- `str(n)` of a number, and `int(s)` of a text whose digits are ASCII.
use Prim.Native.Nat.{ℕ, zero, suc, ◌+◌, ◌-◌, ◌*◌, ◌/◌, ◌%◌, ◌≤◌, ◌<◌}
use mathlib.Core.Path.{◌≡◌, refl}
use mathlib.Core.Bool.{Bool, true, false, not, ◌&&◌, ◌||◌}
use mathlib.Core.Option
use mathlib.Core.Option.{Option, none, some}
use mathlib.Core.List.{[], ◌∷◌, reverse, reverse-reverse}
use native.Mathlib.Omega.{arith}
use unifi_netwatcher.Base.Tests.{leb, ◌==◌, if◌then◌else◌}
use unifi_netwatcher.Base.Lists.{All, All-reverse, is_empty}
use unifi_netwatcher.Base.Texts.{Text, t, is_space, strip, rstrip_by, drop_while-id}
use unifi_netwatcher.Base.Ints.{ℤ, pos, negsuc}

abbrev pub is_digit : ℕ → Bool
is_digit c = leb b'0' c && leb c b'9'

-- The digits of `n` in front of `out`, lowest first; each round divides by ten.
digits : ℕ → ℕ → Text → Text
digits zero n out = out
digits (suc f) n out =
    let longer = digits f (n / 10) ((b'0' + n % 10) ∷ out) in
    if n / 10 == 0 then (b'0' + n % 10) ∷ out else longer

unfoldable pub show : ℕ → Text
unfolding digits
show n = digits (suc n) n []

-- `wanted` says that a digit must come next: at the start, and behind an underscore.
unfoldable pub scan_digits : ℕ → Bool → Text → Option ℕ
scan_digits n wanted [] = if wanted then none else some n
scan_digits n wanted (c ∷ s) =
    let rest = scan_digits (if is_digit c then n * 10 + (c - b'0') else n) (not (is_digit c)) s in
    if is_digit c || (c == b'_' && not wanted) then rest else none

abbrev pub negate : ℕ → ℤ
negate zero = pos 0
negate (suc n) = negsuc n

signed_digits : Text → Option ℤ
unfolding scan_digits
signed_digits [] = none
signed_digits (c ∷ s) =
    if c == b'-'
    then Option.map negate (scan_digits 0 true s)
    else if c == b'+'
    then Option.map pos (scan_digits 0 true s)
    else Option.map pos (scan_digits 0 true (c ∷ s))

-- `none` is the `ValueError`.
unfoldable pub int_of_text : Text → Option ℤ
unfolding strip signed_digits
int_of_text s = signed_digits (strip s)

scan_digits-digits :
    (f n : ℕ) (out : Text) → n < f → scan_digits 0 true (digits f n out) ≡ scan_digits n false out
unfolding digits scan_digits
scan_digits-digits zero n out h = elim h [ ]
scan_digits-digits (suc f) n out h =
    ground (arith, scan_digits-digits f (n / 10) ((b'0' + n % 10) ∷ out))

abbrev IsDigit : ℕ → Type 0
IsDigit c = (b'0' ≤ c) × (c ≤ b'9')

digits-IsDigit : (f n : ℕ) (out : Text) → All IsDigit out → All IsDigit (digits f n out)
unfolding digits
digits-IsDigit zero n out h = h
digits-IsDigit (suc f) n out h =
    ground
      (arith, digits-IsDigit f (n / 10) ((b'0' + n % 10) ∷ out) ((omega arith, omega arith), h))

pub show-IsDigit : (n : ℕ) → All IsDigit (show n)
unfolding show
show-IsDigit n = digits-IsDigit (suc n) n [] tt

digit-ne-space : (c : ℕ) → IsDigit c → is_space c ≡ false
unfolding is_space
digit-ne-space c h = ground arith

All-ne-space : (s : Text) → All IsDigit s → All (λ c. is_space c ≡ false) s
All-ne-space [] h = tt
All-ne-space (c ∷ s) h = (digit-ne-space c h.0, All-ne-space s h.1)

strip-digits : (s : Text) → All IsDigit s → strip s ≡ s
unfolding strip rstrip_by
strip-digits s h =
    rw
      (
        drop_while-id is_space s (All-ne-space s h),
        drop_while-id is_space (reverse s) (All-ne-space (reverse s) (All-reverse IsDigit s h)),
      )
      (reverse-reverse s)

signed_digits-eq :
    (s : Text) (n : ℕ)
    → All IsDigit s
    → scan_digits 0 true s ≡ some n
    → signed_digits s ≡ some (pos n)
unfolding signed_digits
signed_digits-eq [] n h e = absurd (unfold scan_digits in ground arith)
signed_digits-eq (c ∷ s) n h e = rw e (ground arith)

-- Reading a printed number gives the number.
pub int_of_text-show : (n : ℕ) → int_of_text (show n) ≡ some (pos n)
unfolding int_of_text
int_of_text-show n = rw (strip-digits (show n) (show-IsDigit n)) (
    signed_digits-eq (show n) n (show-IsDigit n)
      (unfold show in scan_digits-digits (suc n) n [] (omega arith)))

empty-eq : (s : Text) → is_empty s ≡ true → s ≡ []
empty-eq [] h = refl
empty-eq (c ∷ s) h = absurd (ground arith)

-- A blank text is not a number.
pub int_of_text-blank : (s : Text) → is_empty (strip s) ≡ true → int_of_text s ≡ none
unfolding int_of_text signed_digits
int_of_text-blank s h = rw (empty-eq (strip s) h) refl

int_tests :
    (int_of_text (t " 1_0 ") ≡ some (pos 10))
    × (int_of_text (t "-3") ≡ some (negsuc 2))
    × (int_of_text (t "1__0") ≡ none)
    × (int_of_text (t "") ≡ none)
    × (show 907 ≡ t "907")
unfolding int_of_text show
int_tests = (refl, refl, refl, refl, refl)

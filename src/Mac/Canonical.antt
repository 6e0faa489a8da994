-- ===== src/Mac/Canonical.antt =====
-- The shape of `normalize_mac`'s results, and what of the input they depend on.
use unifi_netwatcher.Base.{
  ◌==◌, if◌then◌else◌, Bool-cases, length, filter, All, Text, lower_char, lower, join, length-lower,
  ℕ, zero, suc, ◌+◌, ◌*◌, ◌≤◌, ◌≡◌, refl, sym, ap, ◌∙◌, ◌≢◌, ◌↔◌, ◌⊎◌, inl, inr, true, false, none,
  some, [], ◌∷◌, arith,
}
use unifi_netwatcher.Mac.{is_hex, cleaned, chunk_pairs, normalize_mac}

-- A lower-case hexadecimal digit.
abbrev pub IsLowerHex : ℕ → Type 0
IsLowerHex c = (b'0' ≤ c) × (c ≤ b'9') ⊎ (b'a' ≤ c) × (c ≤ b'f')

-- From position `i` on, every third character is a colon and the others are digits.
abbrev pub HasColons : ℕ → Text → Type 0
HasColons i [] = Unit
HasColons i (c ∷ s) =
    (if i == 2 then c ≡ b':' else IsLowerHex c) × HasColons (if i == 2 then 0 else suc i) s

-- `xx:xx:xx:xx:xx:xx` in lower case.
abbrev pub IsCanonical : Text → Type 0
IsCanonical r = (length r ≡ 17) × HasColons 0 r

lower_hex : (c : ℕ) → is_hex c ≡ true → IsLowerHex (lower_char c)
unfolding is_hex lower_char
lower_hex c h = ground arith

cleaned-IsLowerHex : (mac : Text) → All IsLowerHex (cleaned mac)
unfolding cleaned
cleaned-IsLowerHex [] = tt
cleaned-IsLowerHex (c ∷ mac) = elim (Bool-cases (is_hex c)) [
  | inl e ↦ rw e (lower_hex c e, cleaned-IsLowerHex mac)
  | inr e ↦ rw e (cleaned-IsLowerHex mac)
]

abbrev colons : Text → Text
colons s = unfold join chunk_pairs in join (b':' ∷ []) (chunk_pairs s)

hex_of_lower : (c : ℕ) → IsLowerHex c → is_hex c ≡ true
unfolding is_hex
hex_of_lower c h = ground arith

lower_char-id : (c : ℕ) → IsLowerHex c → lower_char c ≡ c
unfolding lower_char
lower_char-id c h = ground arith

colons-step :
    (a b c d : ℕ) (s : Text)
    → join (b':' ∷ []) (chunk_pairs (a ∷ b ∷ c ∷ d ∷ s))
      ≡ a ∷ b ∷ b':' ∷ join (b':' ∷ []) (chunk_pairs (c ∷ d ∷ s))
unfolding join chunk_pairs
colons-step a b c d s = refl

colon-ne-hex : is_hex b':' ≡ false
unfolding is_hex
colon-ne-hex = refl

-- `k` colons stand between `2 * k + 2` digits; dropping them gives the digits back.
record Joined (s : Text) (k : ℕ) (r : Text) : Type 0 where
  size : length r ≡ 3 * k + 2
  shape : HasColons 0 r
  digits : filter is_hex r ≡ s

join-Joined :
    (s : Text) (k : ℕ)
    → All IsLowerHex s
    → length s ≡ 2 * k + 2
    → Joined s k (join (b':' ∷ []) (chunk_pairs s))
unfolding filter
join-Joined [] k h e = absurd (omega arith)
join-Joined (a ∷ []) k h e = absurd (omega arith)
join-Joined (a ∷ b ∷ []) k h e =
    unfold join chunk_pairs in
    record {
      size = omega arith;
      shape = (h.0, (h.1.0, tt));
      digits = rw (hex_of_lower a h.0, hex_of_lower b h.1.0);
    }
join-Joined (a ∷ b ∷ c ∷ []) k h e = absurd (omega arith)
join-Joined (a ∷ b ∷ c ∷ d ∷ s) zero h e = absurd (omega arith)
join-Joined (a ∷ b ∷ c ∷ d ∷ s) (suc k) h e =
    let rest = join-Joined (c ∷ d ∷ s) k h.1.1 (omega arith) in
    rw colons-step (record {
      size = omega (arith, rest.size);
      shape = (h.0, (h.1.0, (refl, rest.shape)));
      digits = rw (hex_of_lower a h.0, hex_of_lower b h.1.0, colon-ne-hex, rest.digits);
    })

-- The branch that returns a text.
record Accepts (mac r : Text) : Type 0 where
  twelve : length (cleaned mac) ≡ 12
  joined : r ≡ join (b':' ∷ []) (chunk_pairs (cleaned mac))

normalize_mac-Accepts : (mac r : Text) → normalize_mac (some mac) ≡ some r → Accepts mac r
unfolding normalize_mac
normalize_mac-Accepts mac r h = record { twelve = ground arith; joined = ground arith }

accepted-Joined : (mac r : Text) → Accepts mac r → Joined (cleaned mac) 5 r
accepted-Joined mac r a =
    rw a.joined (join-Joined (cleaned mac) 5 (cleaned-IsLowerHex mac) a.twelve)

-- What `normalize_mac` returns is canonical: 17 characters, in which every third is a colon and
-- the others are lower-case hexadecimal digits.
pub normalize_mac-IsCanonical : (mac r : Text) → normalize_mac (some mac) ≡ some r → IsCanonical r
normalize_mac-IsCanonical mac r h =
    let j = accepted-Joined mac r (normalize_mac-Accepts mac r h) in (j.size, j.shape)

-- The result has the hexadecimal digits of the input, in order and in lower case, and no others.
pub normalize_mac-digits :
    (mac r : Text) → normalize_mac (some mac) ≡ some r → filter is_hex r ≡ lower (filter is_hex mac)
normalize_mac-digits mac r h =
    (accepted-Joined mac r (normalize_mac-Accepts mac r h)).digits ∙ (unfold cleaned in refl)

lower-id : (s : Text) → All IsLowerHex s → lower s ≡ s
unfolding lower
lower-id [] h = refl
lower-id (c ∷ s) h = rw (lower_char-id c h.0, lower-id s h.1)

normalize_mac-eq :
    (r : Text) (s : Text)
    → cleaned r ≡ s
    → length s ≡ 12
    → normalize_mac (some r) ≡ some (join (b':' ∷ []) (chunk_pairs s))
unfolding normalize_mac
normalize_mac-eq [] s e n = absurd (unfold cleaned filter lower in ground arith)
normalize_mac-eq (c ∷ r) s e n = rw e (ground arith)

-- Normalizing a result again returns it unchanged.
pub normalize_mac_idempotent :
    (mac r : Text) → normalize_mac (some mac) ≡ some r → normalize_mac (some r) ≡ some r
normalize_mac_idempotent mac r h =
    let a = normalize_mac-Accepts mac r h in
    let j = accepted-Joined mac r a in
    let e : cleaned r ≡ cleaned mac =
      unfold cleaned in ap lower j.digits ∙ lower-id (cleaned mac) (cleaned-IsLowerHex mac) in
    normalize_mac-eq r (cleaned mac) e a.twelve ∙ ap some (sym a.joined)

length-cleaned : (mac : Text) → length (cleaned mac) ≡ length (filter is_hex mac)
unfolding cleaned
length-cleaned mac = length-lower (filter is_hex mac)

-- An input is accepted exactly if it has twelve hexadecimal digits, whatever stands between them.
pub normalize_mac-eq-none_iff :
    (mac : Text) → (normalize_mac (some mac) ≡ none) ↔ (length (filter is_hex mac) ≢ 12)
unfolding normalize_mac
normalize_mac-eq-none_iff mac = (
  λ h n. cc (h, normalize_mac-eq mac (cleaned mac) refl (length-cleaned mac ∙ n)),
  λ n. ground (arith, length-cleaned mac),
)

-- ===== src/Api/Export/Macs.antt =====
-- What of a canonical address the parser of the import uses.
use unifi_netwatcher.Base.{
  ◌==◌, ==_ne, Bool-cases, length, any, All, All-reverse, All-implies, Text, is_space, starts_with,
  has_char, is_line_break, ℕ, suc, ◌<◌, ◌≡◌, refl, sym, ◌≢◌, ◌⊎◌, inl, inr, false, [], ◌∷◌, ◌++◌,
  arith,
}
use unifi_netwatcher.Mac.Canonical.{IsLowerHex, HasColons, IsCanonical}
use unifi_netwatcher.Base.Trim.{IsTrimmed, IsOneLine, IsTrimmed-of_All}
use unifi_netwatcher.Api.Trusted.{is_comment}

-- A character of a canonical address.
abbrev IsMacChar : ℕ → Type 0
IsMacChar c = (c ≡ b':') ⊎ IsLowerHex c

mac_chars : (i : ℕ) (s : Text) → HasColons i s → All IsMacChar s
mac_chars i [] h = tt
mac_chars i (c ∷ s) h = elim (Bool-cases (i == 2)) [
  | inl e ↦ let (p, q) = rw e at h in (inl p, mac_chars 0 s q)
  | inr e ↦ let (p, q) = rw e at h in (inr p, mac_chars (suc i) s q)
]

mac_char :
    (c : ℕ)
    → IsMacChar c
    → (is_space c ≡ false) × (is_line_break c ≡ false) × (c ≢ b',') × (c ≢ b'#')
unfolding is_space is_line_break
mac_char c (inl e) = rw e (refl, refl, ground arith, ground arith)
mac_char c (inr h) = (ground arith, ground arith, ground arith, ground arith)

has_char-mac :
    (x : ℕ) (s : Text) → ((c : ℕ) → IsMacChar c → c ≢ x) → All IsMacChar s → has_char x s ≡ false
unfolding has_char any
has_char-mac x [] n h = refl
has_char-mac x (c ∷ s) n h = rw (==_ne x c (λ q. n c h.0 (sym q)), has_char-mac x s n h.1) refl

-- What of a canonical address the parser uses.
pub record IsMac (mac : Text) : Type 0 where
  pub trimmed : IsTrimmed mac
  pub one_line : IsOneLine mac
  pub no_comma : has_char b',' mac ≡ false
  pub no_hash : has_char b'#' mac ≡ false
  pub size : length mac ≡ 17

pub IsMac-canonical : (mac : Text) → IsCanonical mac → IsMac mac
IsMac-canonical mac (n, h) =
    let m = mac_chars 0 mac h in
    let spaces = All-implies IsMacChar (λ c. is_space c ≡ false) mac (λ c q. (mac_char c q).0) m in
    record {
      trimmed = IsTrimmed-of_All mac spaces (All-reverse (λ c. is_space c ≡ false) mac spaces);
      one_line =
          All-implies IsMacChar (λ c. is_line_break c ≡ false) mac (λ c q. (mac_char c q).1) m;
      no_comma = has_char-mac b',' mac (λ c q. (mac_char c q).2) m;
      no_hash = has_char-mac b'#' mac (λ c q. (mac_char c q).3) m;
      size = n;
    }

pub has_char-starts :
    (mac rest : Text)
    → has_char b'#' mac ≡ false
    → 0 < length mac
    → is_comment (mac ++ rest) ≡ false
unfolding has_char any starts_with
has_char-starts [] rest h n = absurd (omega arith)
has_char-starts (c ∷ mac) rest h n = ground arith

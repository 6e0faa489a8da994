-- ===== src/Security/Names.antt =====
-- app/security/models.py: the constants, and service.py: the check of a new username.
use unifi_netwatcher.Base.{
  ltb, leb, ◌==◌, if◌then◌else◌, length, is_empty, any, all, Text, t, has_char, ℕ, Bool, true,
  false, not, ◌&&◌, ◌||◌, List, [], ◌∷◌, ◌++◌,
}

abbrev pub max_cidr_entries : ℕ
max_cidr_entries = 100

abbrev pub max_host_entries : ℕ
max_host_entries = 50

abbrev pub min_password_length : ℕ
min_password_length = 12

abbrev pub lockout_confirmation_phrase : Text
lockout_confirmation_phrase = t "ALLOW LOCKOUT"

abbrev pub default_username : Text
default_username = t "admin"

abbrev pub default_password : Text
default_password = t "admin"

-- The character class of `USERNAME_PATTERN`.
unfoldable pub is_username_char : ℕ → Bool
is_username_char c =
    (leb b'A' c && leb c b'Z')
    || (leb b'a' c && leb c b'z')
    || (leb b'0' c && leb c b'9')
    || c == b'.'
    || c == b'_'
    || c == b'-'

-- `_USERNAME_RE.fullmatch(username)`
unfoldable pub matches_username : Text → Bool
unfolding all
matches_username s = leb 1 (length s) && leb (length s) 64 && all is_username_char s

unfoldable pub has_control : Text → Bool
unfolding any
has_control s = any (λ c. ltb c 32 || c == 127) s

pub data UsernameError : Type 0 where
  required has_colon has_control_character bad_form : UsernameError

abbrev pub only_if {ℓ} : {A : Type ℓ} → Bool → A → List A
only_if true x = x ∷ []
only_if false x = []

unfoldable pub validate_username : Text → List UsernameError
validate_username username =
    if is_empty username
    then required ∷ []
    else only_if (has_char b':' username) has_colon
      ++ (only_if (has_control username) has_control_character
          ++ only_if (not (matches_username username)) bad_form)

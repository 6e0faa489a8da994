-- ===== src/Security/KeyFiles/KeyText.antt =====
-- What becomes of a generated key as it is written and read.
use unifi_netwatcher.Base.{
  ◌==◌, length, All, length-append, All-reverse, t, drop_while, rstrip_by, starts_with,
  drop_while-id, ℕ, ◌<◌, ◌≡◌, refl, false, List, [], ◌∷◌, ◌++◌, reverse, arith,
}
use unifi_netwatcher.Security.KeyFiles.{
  is_space_byte, strip_bytes, with_newline, first_line, temporary_path,
}
use unifi_netwatcher.Library.Files.{FilePath, path_eq, path_eq-length}
use mathlib.Core.List.{reverse-reverse, reverse-append}
use unifi_netwatcher.Base.Trim.{drop_while-append}

-- `Fernet.generate_key` gives text of the base64 alphabet: no white space, and not nothing.
pub record IsKeyText (key : List ℕ) : Type 0 where
  pub solid : All (λ b. is_space_byte b ≡ false) key
  pub not_empty : 0 < length key

pub strip_bytes-key : (key : List ℕ) → IsKeyText key → strip_bytes key ≡ key
unfolding strip_bytes rstrip_by
strip_bytes-key key h =
    rw
      (
        drop_while-id is_space_byte key h.solid,
        drop_while-id is_space_byte (reverse key)
            (All-reverse (λ b. is_space_byte b ≡ false) key h.solid),
      )
      (reverse-reverse key)

pub strip_bytes-snoc : (key : List ℕ) → IsKeyText key → strip_bytes (key ++ 10 ∷ []) ≡ key
unfolding strip_bytes rstrip_by
strip_bytes-snoc key h =
    rw
      (
        drop_while-append is_space_byte key (10 ∷ []) h.not_empty
            (drop_while-id is_space_byte key h.solid),
        reverse-append key (10 ∷ []),
      )
      (unfold drop_while is_space_byte in
        rw
          (drop_while-id is_space_byte (reverse key)
            (All-reverse (λ b. is_space_byte b ≡ false) key h.solid))
          (reverse-reverse key))

newline_byte : (b : ℕ) → is_space_byte b ≡ false → (b == 10) ≡ false
unfolding is_space_byte
newline_byte b h = ground arith

starts-solid : (s : List ℕ) → All (λ b. is_space_byte b ≡ false) s → starts_with s (10 ∷ []) ≡ false
unfolding starts_with
starts-solid [] h = refl
starts-solid (b ∷ s) h = rw (newline_byte b h.0) refl

pub with_newline-key : (key : List ℕ) → IsKeyText key → with_newline key ≡ key ++ 10 ∷ []
unfolding with_newline
with_newline-key key h =
    rw (starts-solid (reverse key) (All-reverse (λ b. is_space_byte b ≡ false) key h.solid)) refl

pub first_line-key : (key : List ℕ) → All (λ b. is_space_byte b ≡ false) key → first_line key ≡ key
unfolding first_line is_space_byte
first_line-key [] h = refl
first_line-key (b ∷ key) h = ground (arith, first_line-key key h.1)

pub temporary-ne : (path : FilePath) → path_eq (temporary_path path) path ≡ false
unfolding temporary_path
temporary-ne path =
    path_eq-length (temporary_path path) path
      (λ q. omega (arith, length-append path.name (t ".tmp"), q))

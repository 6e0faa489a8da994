-- ===== src/Security/KeyFiles/Made.antt =====
-- Every key that the program works with was made by `Fernet`.
use unifi_netwatcher.Base.{
  Bool-cases, Text, strip, Result, ok, err, ℕ, ◌≡◌, refl, inl, inr, false, Option, none, some, List,
}
use unifi_netwatcher.Security.KeyFiles.{
  KeyMaker, fernet_from_material, fernet_of_file, SecretSource, resolve_fernet, or_derived,
  strip_bytes, first_line, resolved, is_usable_env_secret, file_or_generate, env, file,
  load_key_file,
}
use unifi_netwatcher.Library.Files.{Refusals, FilePath, Files, continue}
use unifi_netwatcher.Security.Secrets.{Fernet}
use unifi_netwatcher.Base.Utf8.{utf8_encode}

abbrev pub IsMade : KeyMaker → Fernet → Type 0
IsMade maker f = (key : List ℕ) × (maker.fernet key ≡ ok f)

-- What a call that returns a key gives.
abbrev pub Makes : KeyMaker → Result Fernet → Type 0
Makes maker (err e) = Unit
Makes maker (ok f) = IsMade maker f

module _ (refuses : Refusals) (maker : KeyMaker) where
  pub fernet-Makes : (key : List ℕ) (r : Result Fernet) → maker.fernet key ≡ r → Makes maker r
  fernet-Makes key (err e) h = tt
  fernet-Makes key (ok f) h = (key, h)

  pub material-Makes :
      (material : List ℕ) → Makes maker (fernet_from_material refuses maker material)
  unfolding fernet_from_material
  material-Makes material = fernet-Makes (maker.derived_key material) _ refl

  pub or_derived-Makes :
      (r : Result Fernet) (material : List ℕ)
      → Makes maker r
      → Makes maker (or_derived refuses maker r material)
  or_derived-Makes (ok f) material h = h
  or_derived-Makes (err e) material h = material-Makes material

  file-Makes : (key : List ℕ) → Makes maker (fernet_of_file refuses maker key)
  unfolding fernet_of_file
  file-Makes key = or_derived-Makes _ key (fernet-Makes (strip_bytes (first_line key)) _ refl)

  -- The key of a resolution that returns.
  abbrev pub MakesFirst : Result (Fernet × SecretSource) → Type 0
  MakesFirst (err e) = Unit
  MakesFirst (ok found) = IsMade maker found.0

  resolved-Makes :
      (source : SecretSource) (r : Result Fernet) (files : Files)
      → Makes maker r
      → MakesFirst (resolved refuses maker source r files).0
  resolved-Makes source (err e) files h = tt
  resolved-Makes source (ok f) files h = h

  found-Makes :
      (path : FilePath) (x : Result (Option (List ℕ)) × Files)
      → MakesFirst (continue (file_or_generate refuses maker path false) x).0
  found-Makes path (err e, files) = tt
  found-Makes path (ok none, files) = tt
  found-Makes path (ok (some key), files) =
      resolved-Makes file (fernet_of_file refuses maker key) files (file-Makes key)

  pub resolve-Makes :
      (secret : Text) (path : FilePath) (files : Files)
      → MakesFirst (resolve_fernet refuses maker secret path false files).0
  unfolding resolve_fernet
  resolve-Makes secret path files = elim (Bool-cases (is_usable_env_secret secret)) [
    | inl e ↦ rw e (resolved-Makes env _ files (material-Makes (utf8_encode (strip secret))))
    | inr e ↦ rw e (found-Makes path (load_key_file refuses path files))
  ]

-- ===== src/Cli/NewKeys.antt =====
-- The new key of a rekeying was made by `Fernet`.
use unifi_netwatcher.Base.{
  Bool-cases, if-both, Text, is_secret_key_error, Result, ok, err, refl, inl, inr, Bool, true,
  false, Option, none, some,
}
use unifi_netwatcher.Security.Secrets.{JsonText, Fernet}
use unifi_netwatcher.Library.Files.{Refusals, Files, FilePath, continue}
use unifi_netwatcher.Security.KeyFiles.{
  KeyMaker, SecretSource, Environment, is_usable_env_secret, strip_bytes,
}
use unifi_netwatcher.Cli.{NewKey, choose_new_key, new_key_of, existing_key, or_else}
use unifi_netwatcher.Security.KeyFiles.Made.{
  IsMade, Makes, MakesFirst, material-Makes, fernet-Makes, resolve-Makes,
}
use unifi_netwatcher.Base.Utf8.{utf8_encode}

module _ (j : JsonText) (refuses : Refusals) (maker : KeyMaker) where
  abbrev pub MakesKey : Result (Option NewKey) → Type 0
  MakesKey (err e) = Unit
  MakesKey (ok none) = Unit
  MakesKey (ok (some key)) = IsMade maker key.fernet

  new_key-Makes :
      (staged : Bool) (r : Result Fernet) (files : Files)
      → Makes maker r
      → MakesKey (new_key_of j refuses maker staged r files).0
  new_key-Makes staged (err e) files h = tt
  new_key-Makes staged (ok f) files h = h

  staged-Makes :
      (r : Result Fernet) (x : Result (Unit {0}) × Files)
      → Makes maker r
      → MakesKey (continue (λ _. new_key_of j refuses maker true r) x).0
  staged-Makes r (err e, files) h = tt
  staged-Makes r (ok _, files) h = new_key-Makes true r files h

  existing-Makes :
      (r : Result (Fernet × SecretSource)) (files : Files)
      → MakesFirst refuses maker r
      → MakesKey (existing_key j refuses maker (r, files)).0
  existing-Makes (ok found) files h = h
  existing-Makes (err e) files h = if-both MakesKey (is_secret_key_error e) tt tt

  pub choose-Makes :
      (e : Environment) (new_env : Text) (generate_file : Bool) (p : FilePath) (files : Files)
      → MakesKey (choose_new_key j refuses maker e new_env generate_file p files).0
  unfolding choose_new_key
  choose-Makes e new_env generate_file p files = elim (Bool-cases (is_usable_env_secret new_env)) [
    | inl u ↦
        rw u (new_key-Makes false _ files (material-Makes refuses maker (utf8_encode new_env)))
    | inr u ↦ elim (Bool-cases generate_file) [
      | inl g ↦
          rw (u, g)
            (staged-Makes _ _ (fernet-Makes refuses maker (strip_bytes maker.generated) _ refl))
      | inr g ↦
          rw (u, g)
            (existing-Makes _ _
              (resolve-Makes refuses maker (or_else new_env e.app_secret_key) p files))
    ]
  ]

-- ===== src/Security/KeyFiles/Persistence.antt =====
-- A generated key is found again at the next start.
use unifi_netwatcher.Base.{
  Bool-cases, Text, Result, ok, err, ℕ, ◌≡◌, refl, sym, ap, ◌∙◌, inl, inr, Bool, true, false,
  Option, none, some, List, [], ◌∷◌, arith,
}
use unifi_netwatcher.Security.KeyFiles.{
  strip_bytes, with_newline, temporary_path, load_key_file, remove_temporary, write_and_replace,
  write_key_file_atomic, KeyMaker, SecretSource, fernet_of_file, resolve_fernet, resolved,
  is_usable_env_secret, file, generated, file_or_generate, env,
}
use unifi_netwatcher.Library.Files.{
  FilePath, Refusals, write_bytes, read_bytes, change_mode, Files, replace_file, read, is_file,
  FileCall, or_pass, put_self, put, make_parent, put_ne, continue,
}
use unifi_netwatcher.Security.Secrets.{Fernet}
use unifi_netwatcher.Security.KeyFiles.KeyText.{
  IsKeyText, temporary-ne, with_newline-key, first_line-key, strip_bytes-key, strip_bytes-snoc,
}
use mathlib.Core.Path.{subst}

module _ (refuses : Refusals) where
  -- What is read of a file that a key was written to.
  load_key_file-key :
      (path : FilePath) (key : List ℕ) (files : Files)
      → IsKeyText key
      → refuses read path ≡ false
      → files path ≡ some (with_newline key)
      → load_key_file refuses path files ≡ (ok (some key), files)
  unfolding load_key_file read_bytes
  load_key_file-key path [] files k r h = absurd (omega (arith, k.not_empty))
  load_key_file-key path (b ∷ key) files k r h =
      rw (h, r, with_newline-key (b ∷ key) k, strip_bytes-snoc (b ∷ key) k) refl

  remove_temporary-result :
      (tmp : FilePath) (r : Result (Unit {0})) (files : Files)
      → (remove_temporary refuses tmp (r, files)).0 ≡ r
  unfolding remove_temporary
  remove_temporary-result tmp r files = elim (Bool-cases (is_file tmp files)) [
    | inl e ↦ rw e refl
    | inr e ↦ rw e refl
  ]

  abbrev Written : FilePath → List ℕ → Files → Type 0
  Written path bytes files = (files (temporary_path path) ≡ none) × (files path ≡ some bytes)

  replaced :
      (path : FilePath) (bytes : List ℕ) (files : Files)
      → files (temporary_path path) ≡ some bytes
      → (replace_file refuses (temporary_path path) path files).0 ≡ ok tt
      → Written path bytes (replace_file refuses (temporary_path path) path files).1
  unfolding replace_file
  replaced path bytes files w h = elim (Bool-cases (refuses FileCall.replace path)) [
    | inl e ↦ absurd (ground (arith, rw e at h))
    | inr e ↦
        rw (e, w)
          (
            put_self (temporary_path path) none _,
            put_ne (temporary_path path) path none _ (temporary-ne path)
                ∙ put_self path (some bytes) files,
          )
  ]

  moded :
      (path : FilePath) (files : Files)
      → (or_pass (change_mode refuses path) files) ≡ (ok tt, files)
  unfolding change_mode
  moded path files = elim (Bool-cases (refuses FileCall.chmod path)) [
    | inl e ↦ rw e refl
    | inr e ↦ rw e refl
  ]

  write_and_replace-Written :
      (path : FilePath) (bytes : List ℕ) (files : Files)
      → (write_and_replace refuses (temporary_path path) path bytes files).0 ≡ ok tt
      → Written path bytes (write_and_replace refuses (temporary_path path) path bytes files).1
  unfolding write_bytes
  write_and_replace-Written path bytes files h =
      elim (Bool-cases (refuses FileCall.write (temporary_path path))) [
        | inl e ↦ absurd (ground (arith, rw e at h))
        | inr e ↦
            let written = put (temporary_path path) (some bytes) files in
            rw (e, moded (temporary_path path) written)
              (replaced path bytes written (put_self (temporary_path path) (some bytes) files)
                (rw (e, moded (temporary_path path) written) at h))
      ]

  tidied :
      (path : FilePath) (bytes : List ℕ) (x : Result (Unit {0}) × Files)
      → (x.0 ≡ ok tt → Written path bytes x.1)
      → (remove_temporary refuses (temporary_path path) x).0 ≡ ok tt
      → (remove_temporary refuses (temporary_path path) x).1 path ≡ some bytes
  unfolding remove_temporary
  tidied path bytes (r, files) w h =
      let (gone, there) = w (sym (remove_temporary-result (temporary_path path) r files) ∙ h) in
      rw gone there

  write_key_file_atomic-path :
      (path : FilePath) (key : List ℕ) (files : Files)
      → (write_key_file_atomic refuses path key files).0 ≡ ok tt
      → (write_key_file_atomic refuses path key files).1 path ≡ some (with_newline key)
  unfolding write_key_file_atomic make_parent
  write_key_file_atomic-path path key files h = elim (Bool-cases (refuses FileCall.mkdir path)) [
    | inl e ↦ absurd (ground (arith, rw e at h))
    | inr e ↦ rw e (
        tidied path (with_newline key) _ (write_and_replace-Written path (with_newline key) files)
          (rw e at h))
  ]

  module _ (maker : KeyMaker) (k : IsKeyText maker.generated) (path : FilePath)
      (readable : refuses FileCall.read path ≡ false) where
    -- The secret resolves to this key and source.
    abbrev pub Resolves : Text → Bool → Files → Fernet → SecretSource → Type 0
    Resolves secret allow files f source =
        (resolve_fernet refuses maker secret path allow files).0 ≡ ok (f, source)

    resolved-source :
        (source source' : SecretSource) (r : Result Fernet) (f : Fernet) (files : Files)
        → (resolved refuses maker source r files).0 ≡ ok (f, source')
        → (source ≡ source') × (r ≡ ok f)
    resolved-source source source' (err e) f files h = absurd (ground arith)
    resolved-source source source' (ok g) f files h = (ground arith, ground arith)

    fernet_of_file-key :
        (f : Fernet)
        → maker.fernet maker.generated ≡ ok f
        → fernet_of_file refuses maker maker.generated ≡ ok f
    unfolding fernet_of_file
    fernet_of_file-key f h =
        rw (first_line-key maker.generated k.solid, strip_bytes-key maker.generated k, h) refl

    found_again :
        (f : Fernet) (secret : Text) (files : Files)
        → is_usable_env_secret secret ≡ false
        → files path ≡ some (with_newline maker.generated)
        → maker.fernet maker.generated ≡ ok f
        → Resolves secret false files f file
    unfolding resolve_fernet
    found_again f secret files u w h =
        rw (u, load_key_file-key path maker.generated files k readable w, fernet_of_file-key f h)
          refl

    after_write :
        (f : Fernet) (secret : Text) (x : Result (Unit {0}) × Files)
        → is_usable_env_secret secret ≡ false
        → (x.0 ≡ ok tt → x.1 path ≡ some (with_newline maker.generated))
        → (continue
            (λ _. resolved refuses maker generated (maker.fernet (strip_bytes maker.generated)))
            x).0
          ≡ ok (f, generated)
        → Resolves secret false
            (continue
              (λ _. resolved refuses maker generated (maker.fernet (strip_bytes maker.generated)))
              x).1
            f
            file
    after_write f secret (err e, files) u w h = absurd (ground arith)
    after_write f secret (ok _, files) u w h =
        let (_, e) = resolved-source generated generated _ f files h in
        let g : maker.fernet maker.generated ≡ ok f = rw (strip_bytes-key maker.generated k) at e in
        rw e (found_again f secret files u (w refl) g)

    after_load :
        (f : Fernet) (secret : Text) (x : Result (Option (List ℕ)) × Files)
        → is_usable_env_secret secret ≡ false
        → (continue (file_or_generate refuses maker path true) x).0 ≡ ok (f, generated)
        → Resolves secret false (continue (file_or_generate refuses maker path true) x).1 f file
    after_load f secret (err e, files) u h = absurd (ground arith)
    after_load f secret (ok (some key), files) u h =
        absurd (ground (arith, (resolved-source file generated _ f files h).0))
    after_load f secret (ok none, files) u h =
        after_write f secret (write_key_file_atomic refuses path maker.generated files) u
          (write_key_file_atomic-path path maker.generated files) h

    not_env :
        (secret : Text) (allow : Bool) (files : Files)
        → is_usable_env_secret secret ≡ false
        → resolve_fernet refuses maker secret path allow files
          ≡ continue (file_or_generate refuses maker path allow) (load_key_file refuses path files)
    unfolding resolve_fernet
    not_env secret allow files e = rw e refl

    env_source :
        (f : Fernet) (secret : Text) (files : Files)
        → is_usable_env_secret secret ≡ true
        → Resolves secret true files f generated
        → ⊥
    unfolding resolve_fernet
    env_source f secret files e h =
        absurd (ground (arith, (resolved-source env generated _ f files (rw e at h)).0))

    -- A key that a start without a secret generates is the key of the next start: that one finds it
    -- in the key file, and needs no permission to generate. The file is taken to be readable, and
    -- a generated key to be text without white space.
    pub resolve_fernet-again :
        (f : Fernet) (secret : Text) (files : Files)
        → Resolves secret true files f generated
        → Resolves secret false (resolve_fernet refuses maker secret path true files).1 f file
    resolve_fernet-again f secret files h = elim (Bool-cases (is_usable_env_secret secret)) [
      | inl e ↦ absurd (env_source f secret files e h)
      | inr e ↦
          let same = not_env secret true files e in
          subst (λ z. Resolves secret false z.1 f file) (sym same)
            (after_load f secret (load_key_file refuses path files) e
              (ap (λ z. z.0) (sym same) ∙ h))
    ]

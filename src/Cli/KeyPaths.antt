-- ===== src/Cli/KeyPaths.antt =====
-- What the steps of a rekeying do to the key file and to its backup.
use unifi_netwatcher.Base.{
  ==_refl, Bool-cases, and-eq_true, length-append, Text, t, text_eq, Result, ok, err, ℕ, ◌≡◌, refl,
  ap, ◌∙◌, ◌⊎◌, inl, inr, Bool, true, false, not, ◌&&◌, ◌||◌, Option, none, some, List, [], ◌∷◌,
  ◌++◌, arith,
}
use unifi_netwatcher.Security.KeyFiles.{
  key_staging_path, key_backup_path, KeyMaker, SecretSource, load_key_file, resolve_fernet,
  is_usable_env_secret, env, resolved, file_or_generate, file, fernet_of_file, raw_or_none,
  strip_bytes,
}
use unifi_netwatcher.Library.Files.{
  FilePath, Refusals, path_eq, Files, replace_file, change_mode, path_eq-length, unlink_file,
  FileCall, or_pass, continue, copy_file, is_file, return, put_ne, put, put_self, read_bytes,
}
use unifi_netwatcher.Cli.{drop_staged, drop_backup, activate_staged_key, activate}
use unifi_netwatcher.Security.Secrets.{JsonText, Fernet}
use mathlib.Core.Path.{subst}

pub staging-ne : (p : FilePath) → path_eq (key_staging_path p) p ≡ false
unfolding key_staging_path
staging-ne p =
    path_eq-length (key_staging_path p) p (λ q. omega (arith, length-append p.name (t ".new"), q))

backup-ne : (p : FilePath) → path_eq (key_backup_path p) p ≡ false
unfolding key_backup_path
backup-ne p =
    path_eq-length (key_backup_path p) p (λ q. omega (arith, length-append p.name (t ".bak"), q))

ne-backup : (p : FilePath) → path_eq p (key_backup_path p) ≡ false
unfolding key_backup_path
ne-backup p =
    path_eq-length p (key_backup_path p) (λ q. omega (arith, length-append p.name (t ".bak"), q))

text_eq-prefix : (n a b : Text) → text_eq (n ++ a) (n ++ b) ≡ text_eq a b
unfolding text_eq
text_eq-prefix [] a b = refl
text_eq-prefix (c ∷ n) a b = rw (==_refl c, text_eq-prefix n a b) refl

staging-ne-backup : (p : FilePath) → path_eq (key_staging_path p) (key_backup_path p) ≡ false
unfolding key_staging_path key_backup_path path_eq
staging-ne-backup p =
    rw (text_eq-prefix p.name (t ".new") (t ".bak")) (unfold text_eq in ground arith)

-- The old key stands in its file or in the backup.
abbrev pub HasOldKey : FilePath → List ℕ → Files → Type 0
HasOldKey p old files = (files p ≡ some old) ⊎ (files (key_backup_path p) ≡ some old)

module _ (j : JsonText) (refuses : Refusals) (maker : KeyMaker) (p : FilePath) where
  pub drop_staged-key :
      (staged : Bool) (files : Files) → drop_staged j refuses maker staged p files p ≡ files p
  unfolding drop_staged unlink_file
  drop_staged-key staged files = elim (Bool-cases (staged && is_file (key_staging_path p) files)) [
    | inr e ↦ rw e refl
    | inl e ↦ elim (Bool-cases (refuses FileCall.unlink (key_staging_path p))) [
      | inl f ↦ rw (e, f) refl
      | inr f ↦
          rw (e, f, (and-eq_true staged (is_file (key_staging_path p) files) e).1)
            (put_ne (key_staging_path p) p none files (staging-ne p))
    ]
  ]

  pub drop_backup-key :
      (backed_up : Bool) (files : Files) → drop_backup j refuses maker backed_up p files p ≡ files p
  unfolding drop_backup unlink_file
  drop_backup-key backed_up files =
      elim (Bool-cases (backed_up && is_file (key_backup_path p) files)) [
        | inr e ↦ rw e refl
        | inl e ↦ elim (Bool-cases (refuses FileCall.unlink (key_backup_path p))) [
          | inl f ↦ rw (e, f) refl
          | inr f ↦
              rw (e, f, (and-eq_true backed_up (is_file (key_backup_path p) files) e).1)
                (put_ne (key_backup_path p) p none files (backup-ne p))
        ]
      ]

  -- Where the backup holds the old key, the replacement of the key file leaves it there.
  replace-backup :
      (files : Files)
      → (replace_file refuses (key_staging_path p) p files).1 (key_backup_path p)
        ≡ files (key_backup_path p)
  unfolding replace_file
  replace-backup files =
      elim (Bool-cases (refuses FileCall.replace p || not (is_file (key_staging_path p) files))) [
        | inl e ↦ rw e refl
        | inr e ↦ rw e (
            put_ne (key_staging_path p) (key_backup_path p) none _ (staging-ne-backup p)
            ∙ put_ne p (key_backup_path p) _ files (ne-backup p))
      ]

  moded_backup :
      (files : Files) → or_pass (change_mode refuses (key_backup_path p)) files ≡ (ok tt, files)
  unfolding change_mode
  moded_backup files = elim (Bool-cases (refuses FileCall.chmod (key_backup_path p))) [
    | inl e ↦ rw e refl
    | inr e ↦ rw e refl
  ]

  returned : (b : Bool) (x : Result (Unit {0}) × Files) → (continue (λ _. return b) x).1 ≡ x.1
  returned b (err e, files) = refl
  returned b (ok tt, files) = refl

  activate_staged-old :
      (old : List ℕ) (files : Files)
      → files p ≡ some old
      → HasOldKey p old (activate_staged_key j refuses maker p (key_staging_path p) files).1
  unfolding activate_staged_key copy_file
  activate_staged-old old files h = elim (Bool-cases (refuses FileCall.copy (key_backup_path p))) [
    | inl e ↦ rw (h, e) (inl h)
    | inr e ↦
        let copied = put (key_backup_path p) (some old) files in
        rw (h, e, moded_backup copied)
          (inr (
            ap (λ z. z (key_backup_path p))
              (returned true (replace_file refuses (key_staging_path p) p copied))
            ∙ replace-backup copied
            ∙ put_self (key_backup_path p) (some old) files))
  ]

  pub activate-old :
      (staged : Bool) (old : List ℕ) (files : Files)
      → files p ≡ some old
      → HasOldKey p old (activate j refuses maker staged p files).1
  unfolding activate
  activate-old true old files h = activate_staged-old old files h
  activate-old false old files h = inl h

  resolved-files :
      (source : SecretSource) (r : Result Fernet) (files : Files)
      → resolved refuses maker source r files
        ≡ ((resolved refuses maker source r (λ q. files p)).0, files)
  resolved-files source (err e) files = refl
  resolved-files source (ok f) files = refl

  found_or_raised :
      (key : Option (List ℕ)) (files : Files)
      → file_or_generate refuses maker p false key files
        ≡ ((file_or_generate refuses maker p false key (λ q. files p)).0, files)
  found_or_raised none files = refl
  found_or_raised (some key) files = resolved-files file (fernet_of_file refuses maker key) files

  found_read :
      (files : Files) (content : Option (List ℕ))
      → files p ≡ content
      → continue (file_or_generate refuses maker p false) (load_key_file refuses p files) ≡ (
        (continue
            (file_or_generate refuses maker p false)
            (load_key_file refuses p (λ q. files p))).0,
        files,
      )
  unfolding load_key_file read_bytes
  found_read files none h = rw h refl
  found_read files (some bytes) h = elim (Bool-cases (refuses FileCall.read p)) [
    | inl e ↦ rw (h, e) refl
    | inr e ↦
        rw (h, e)
          (subst
            (λ z.
              file_or_generate refuses maker p false (raw_or_none refuses (strip_bytes bytes)) files
              ≡ (
                (file_or_generate refuses maker p false (raw_or_none refuses (strip_bytes bytes))
                    (λ q. z)).0,
                files,
              ))
            h (found_or_raised (raw_or_none refuses (strip_bytes bytes)) files))
  ]

  -- Without the permission to generate, the resolution of the secret writes nothing, and depends on
  -- the key file alone.
  pub resolve_only :
      (secret : Text) (files : Files)
      → resolve_fernet refuses maker secret p false files
        ≡ ((resolve_fernet refuses maker secret p false (λ q. files p)).0, files)
  unfolding resolve_fernet
  resolve_only secret files = elim (Bool-cases (is_usable_env_secret secret)) [
    | inl e ↦ rw e (resolved-files env _ files)
    | inr e ↦ rw e (found_read files (files p) refl)
  ]

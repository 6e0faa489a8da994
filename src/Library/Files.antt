-- ===== src/Library/Files.antt =====
-- The file system as the program uses it: `pathlib`, `os.replace`, `shutil.copy2`. A call that the
-- system refuses raises an `OSError`.
use unifi_netwatcher.Base.{
  if◌then◌else◌, Bool-cases, is_some, length, Text, text_eq, text_eq_refl, eq_of_text_eq, Exception,
  Result, ok, err, os_error, ℕ, ◌≡◌, refl, ap, ◌≢◌, inl, inr, Bool, true, false, not, ◌&&◌, ◌||◌,
  Option, none, some, List, arith,
}

pub record FilePath : Type 0 where
  pub parent : Text
  pub name : Text

unfoldable pub path_eq : FilePath → FilePath → Bool
path_eq p q = text_eq p.parent q.parent && text_eq p.name q.name

-- `path.with_name(name)`
abbrev pub with_name : FilePath → Text → FilePath
with_name p name = record p { name = name }

-- The bytes of each file that there is.
abbrev pub Files : Type 0
Files = FilePath → Option (List ℕ)

unfoldable pub put : FilePath → Option (List ℕ) → Files → Files
put p content files q = if path_eq p q then content else files q

abbrev pub is_file : FilePath → Files → Bool
is_file p files = is_some (files p)

pub data FileCall : Type 0 where
  mkdir read write chmod replace copy unlink : FileCall

-- Which calls the system refuses.
abbrev pub Refusals : Type 0
Refusals = FileCall → FilePath → Bool

-- Code that reads and writes files: it returns or raises, and leaves files behind.
abbrev pub Action : Type 0 → Type 0
Action A = Files → Result A × Files

abbrev pub continue : {A B : Type 0} → (A → Action B) → Result A × Files → Result B × Files
continue rest (err e, files) = (err e, files)
continue rest (ok a, files) = rest a files

infixl 5 ◌>>=◌ ◌>>◌
abbrev pub ◌>>=◌ : {A B : Type 0} → Action A → (A → Action B) → Action B
◌>>=◌ m f files = continue f (m files)

abbrev pub ◌>>◌ : {B : Type 0} → Action (Unit {0}) → Action B → Action B
m >> k = m >>= λ _. k

abbrev pub return : {A : Type 0} → A → Action A
return a files = (ok a, files)

abbrev pub raise : {A : Type 0} → Exception → Action A
raise e files = (err e, files)

-- `except OSError: pass`
abbrev pub ignore_os_error : Result (Unit {0}) × Files → Result (Unit {0}) × Files
ignore_os_error (err os_error, files) = (ok tt, files)
ignore_os_error r = r

abbrev pub or_pass : Action (Unit {0}) → Action (Unit {0})
or_pass m files = ignore_os_error (m files)

module _ (refuses : Refusals) where
  unfoldable pub make_parent : FilePath → Action (Unit {0})
  make_parent p files = if refuses mkdir p then (err os_error, files) else (ok tt, files)

  unfoldable pub write_bytes : FilePath → List ℕ → Action (Unit {0})
  write_bytes p bytes files =
      if refuses write p then (err os_error, files) else (ok tt, put p (some bytes) files)

  abbrev bytes_or_missing : Option (List ℕ) → Files → Result (List ℕ) × Files
  bytes_or_missing none files = (err os_error, files)
  bytes_or_missing (some bytes) files = (ok bytes, files)

  unfoldable pub read_bytes : FilePath → Action (List ℕ)
  read_bytes p files =
      if refuses read p then (err os_error, files) else bytes_or_missing (files p) files

  -- `os.chmod`, which changes no bytes.
  unfoldable pub change_mode : FilePath → Action (Unit {0})
  change_mode p files = if refuses chmod p then (err os_error, files) else (ok tt, files)

  unfoldable pub unlink_file : FilePath → Action (Unit {0})
  unlink_file p files =
      if refuses unlink p || not (is_file p files)
      then (err os_error, files)
      else (ok tt, put p none files)

  -- `shutil.copy2(source, target)`
  unfoldable pub copy_file : FilePath → FilePath → Action (Unit {0})
  copy_file source target files =
      if refuses copy target || not (is_file source files)
      then (err os_error, files)
      else (ok tt, put target (files source) files)

  -- `os.replace(source, target)`
  unfoldable pub replace_file : FilePath → FilePath → Action (Unit {0})
  replace_file source target files =
      if refuses replace target || not (is_file source files)
      then (err os_error, files)
      else (ok tt, put source none (put target (files source) files))

pub path_eq_refl : (p : FilePath) → path_eq p p ≡ true
unfolding path_eq
path_eq_refl p = rw (text_eq_refl p.parent, text_eq_refl p.name) refl

pub put_self : (p : FilePath) (c : Option (List ℕ)) (files : Files) → put p c files p ≡ c
unfolding put
put_self p c files = rw (path_eq_refl p) refl

pub put_ne :
    (p q : FilePath) (c : Option (List ℕ)) (files : Files)
    → path_eq p q ≡ false
    → put p c files q ≡ files q
unfolding put
put_ne p q c files h = rw h refl

pub text_eq-length : (a b : Text) → length a ≢ length b → text_eq a b ≡ false
text_eq-length a b n = elim (Bool-cases (text_eq a b)) [
  | inl e ↦ absurd (n (ap length (eq_of_text_eq a b e)))
  | inr e ↦ e
]

pub path_eq-length : (p q : FilePath) → length p.name ≢ length q.name → path_eq p q ≡ false
unfolding path_eq
path_eq-length p q n = rw (text_eq-length p.name q.name n) (ground arith)

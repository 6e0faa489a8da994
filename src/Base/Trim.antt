-- ===== src/Base/Trim.antt =====
-- What `strip`, `split` and `splitlines` do to texts joined from parts.
use Prim.Native.Nat.{ℕ, ◌≤◌, ◌<◌}
use mathlib.Core.Path.{◌≡◌, refl, sym, ap, ◌∙◌}
use mathlib.Core.Logic.{inl, inr}
use mathlib.Core.Bool.{Bool, false, ◌||◌}
use mathlib.Core.Option.{some}
use mathlib.Core.List.{
  List, [], ◌∷◌, ◌++◌, reverse, reverse-append, reverse-reverse, append_assoc, append-nil,
}
use native.Mathlib.Omega.{arith}
use unifi_netwatcher.Base.Tests.{◌==◌, Bool-cases, ==_refl, or-eq_false}
use unifi_netwatcher.Base.Lists.{length, All, any, length-append}
use unifi_netwatcher.Base.Texts.{
  Text, is_space, strip, rstrip_by, drop_while, drop_while-id, has_char, split_once, splitlines,
  split_lines, is_line_break, join,
}

pub length-drop_while : (p : ℕ → Bool) (s : Text) → length (drop_while p s) ≤ length s
unfolding drop_while
length-drop_while p [] = omega arith
length-drop_while p (c ∷ s) = ground (arith, length-drop_while p s)

drop_while-full :
    (p : ℕ → Bool) (s : Text) → length s ≤ length (drop_while p s) → drop_while p s ≡ s
unfolding drop_while
drop_while-full p [] h = refl
drop_while-full p (c ∷ s) h = elim (Bool-cases (p c)) [
  | inl e ↦ absurd (omega (arith, length-drop_while p s, rw e at h))
  | inr e ↦ rw e refl
]

pub length-reverse : {A : Type 0} (xs : List A) → length (reverse xs) ≡ length xs
length-reverse [] = refl
length-reverse (x ∷ xs) =
    ap length (reverse-append (x ∷ []) xs)
    ∙ omega (arith, length-append (reverse xs) (x ∷ []), length-reverse xs)

pub length-strip : (s : Text) → length (strip s) ≤ length s
unfolding strip rstrip_by
length-strip s = omega (
  arith,
  length-reverse (drop_while is_space (reverse (drop_while is_space s))),
  length-drop_while is_space (reverse (drop_while is_space s)),
  length-reverse (drop_while is_space s),
  length-drop_while is_space s,
)

-- No white space at either end.
pub record IsTrimmed (s : Text) : Type 0 where
  pub front : drop_while is_space s ≡ s
  pub back : drop_while is_space (reverse s) ≡ reverse s

pub IsTrimmed-of_strip : (s : Text) → strip s ≡ s → IsTrimmed s
unfolding strip rstrip_by
IsTrimmed-of_strip s h =
    let e : length (strip s) ≡ length s = unfold strip rstrip_by in ap length h in
    let f : drop_while is_space s ≡ s = drop_while-full is_space s (
      unfold strip rstrip_by in
      omega (
        arith,
        e,
        length-reverse (drop_while is_space (reverse (drop_while is_space s))),
        length-drop_while is_space (reverse (drop_while is_space s)),
        length-reverse (drop_while is_space s),
      )) in
    record {
      front = f;
      back = drop_while-full is_space (reverse s) (
          omega (
            arith,
            length-reverse s,
            length-reverse (drop_while is_space (reverse s)),
            ap length (ap (λ z. reverse (drop_while is_space (reverse z))) (sym f) ∙ h),
          ));
    }

pub strip-IsTrimmed : (s : Text) → IsTrimmed s → strip s ≡ s
unfolding strip rstrip_by
strip-IsTrimmed s h = rw (h.front, h.back) (reverse-reverse s)

pub IsTrimmed-of_All :
    (s : Text)
    → All (λ c. is_space c ≡ false) s
    → All (λ c. is_space c ≡ false) (reverse s)
    → IsTrimmed s
IsTrimmed-of_All s h k = record {
  front = drop_while-id is_space s h;
  back = drop_while-id is_space (reverse s) k;
}

pub drop_while-append :
    (p : ℕ → Bool) (s rest : Text)
    → 0 < length s
    → drop_while p s ≡ s
    → drop_while p (s ++ rest) ≡ s ++ rest
unfolding drop_while
drop_while-append p [] rest n h = absurd (omega arith)
drop_while-append p (c ∷ s) rest n h = elim (Bool-cases (p c)) [
  | inl e ↦ absurd (omega (arith, length-drop_while p s, ap length (rw e at h)))
  | inr e ↦ rw e refl
]

-- Trimmed ends make a trimmed text, whatever stands between them.
pub IsTrimmed-append :
    (s middle u : Text)
    → 0 < length s
    → 0 < length u
    → IsTrimmed s
    → IsTrimmed u
    → IsTrimmed (s ++ (middle ++ u))
IsTrimmed-append s middle u n m h k = record {
  front = drop_while-append is_space s (middle ++ u) n h.front;
  back =
      let e : reverse (s ++ (middle ++ u)) ≡ reverse u ++ (reverse middle ++ reverse s) =
        reverse-append s (middle ++ u)
        ∙ ap (λ z. z ++ reverse s) (reverse-append middle u)
        ∙ append_assoc (reverse u) (reverse middle) (reverse s) in
      rw e (
        drop_while-append is_space (reverse u) (reverse middle ++ reverse s)
          (omega (arith, length-reverse u)) k.back);
}

pub split_once-append :
    (c : ℕ) (s rest : Text) → has_char c s ≡ false → split_once c (s ++ c ∷ rest) ≡ (s, some rest)
unfolding split_once has_char any
split_once-append c [] rest h = rw (==_refl c) refl
split_once-append c (d ∷ s) rest h =
    let (e, f) = or-eq_false (c == d) (has_char c s) h in rw (e, split_once-append c s rest f) refl

pub has_char-append : (c : ℕ) (s u : Text) → has_char c (s ++ u) ≡ (has_char c s || has_char c u)
unfolding has_char any
has_char-append c [] u = refl
has_char-append c (d ∷ s) u = ground (arith, has_char-append c s u)

abbrev pub IsOneLine : Text → Type 0
IsOneLine s = All (λ c. is_line_break c ≡ false) s

split_lines-line :
    (s : Text) (line rest : Text)
    → All (λ c. is_line_break c ≡ false) s
    → split_lines false line (s ++ 10 ∷ rest) ≡ (line ++ s) ∷ split_lines false [] rest
unfolding split_lines
split_lines-line [] line rest h = rw append-nil (unfold is_line_break in refl)
split_lines-line (c ∷ s) line rest h =
    rw (h.0, split_lines)
      (split_lines-line s (line ++ c ∷ []) rest h.1
        ∙ ap (λ z. z ∷ split_lines false [] rest) (append_assoc line (c ∷ []) s))

-- Lines that are joined and ended by line feeds are read back.
pub splitlines-join :
    (line : Text) (lines : List Text)
    → All (λ s. All (λ c. is_line_break c ≡ false) s) (line ∷ lines)
    → splitlines (join (10 ∷ []) (line ∷ lines) ++ 10 ∷ []) ≡ line ∷ lines
unfolding splitlines join
splitlines-join line [] h = split_lines-line line [] [] h.0 ∙ (unfold split_lines in refl)
splitlines-join line (next ∷ lines) h =
    ap (λ z. split_lines false [] z)
      (append_assoc line (10 ∷ join (10 ∷ []) (next ∷ lines)) (10 ∷ []))
    ∙ split_lines-line line [] (join (10 ∷ []) (next ∷ lines) ++ 10 ∷ []) h.0
    ∙ ap (λ z. line ∷ z) (splitlines-join next lines h.1)

-- A blank before or behind a trimmed text is stripped.
pub strip-snoc_space : (s : Text) → 0 < length s → IsTrimmed s → strip (s ++ 32 ∷ []) ≡ s
unfolding strip rstrip_by
strip-snoc_space s n h =
    rw (drop_while-append is_space s (32 ∷ []) n h.front, reverse-append s (32 ∷ []))
      (unfold drop_while is_space in rw h.back (reverse-reverse s))

pub strip-cons_space : (s : Text) → IsTrimmed s → strip (32 ∷ s) ≡ s
unfolding strip rstrip_by
strip-cons_space s h =
    let e : drop_while is_space (32 ∷ s) ≡ s = unfold drop_while is_space in h.front in
    rw (e, h.back) (reverse-reverse s)

-- ===== src/Base/Texts.antt =====
-- Python's `str` as the list of its code points, with the methods that the program calls.
-- `lower` and `upper` change ASCII letters only.
use Prim.Native.Nat.{ℕ, suc, ◌+◌, ◌-◌}
use Prim.Native.Char.{code}
use Prim.Native.String.{String}
use mathlib.Core.Path.{◌≡◌, refl, ap}
use mathlib.Core.Logic.{◌↔◌}
use mathlib.Core.Bool.{Bool, true, false, ◌&&◌, ◌||◌}
use mathlib.Core.Option.{Option, none, some}
use mathlib.Core.List.{List, [], ◌∷◌, ◌++◌, map, reverse}
use native.Mathlib.Omega.{arith}
use unifi_netwatcher.Base.Tests.{leb, ◌==◌, if◌then◌else◌}
use unifi_netwatcher.Base.Lists.{length, All, any, is_empty}

abbrev pub Text : Type 0
Text = List ℕ

-- A literal of the source.
abbrev pub t : String → Text
t String.[] = []
t (String.◌∷◌ c s) = code c ∷ t s

-- `a == b`
unfoldable pub text_eq : Text → Text → Bool
text_eq [] [] = true
text_eq [] (d ∷ b) = false
text_eq (c ∷ a) [] = false
text_eq (c ∷ a) (d ∷ b) = c == d && text_eq a b

pub text_eq_refl : (a : Text) → text_eq a a ≡ true
unfolding text_eq
text_eq_refl [] = refl
text_eq_refl (c ∷ a) = ground (arith, text_eq_refl a)

pub eq_of_text_eq : (a b : Text) → text_eq a b ≡ true → a ≡ b
unfolding text_eq
eq_of_text_eq [] [] h = refl
eq_of_text_eq [] (d ∷ b) h = absurd (ground arith)
eq_of_text_eq (c ∷ a) [] h = absurd (ground arith)
eq_of_text_eq (c ∷ a) (d ∷ b) h = ground (arith, eq_of_text_eq a b)

pub text_eq_iff : (a b : Text) → (text_eq a b ≡ true) ↔ (a ≡ b)
text_eq_iff a b = (eq_of_text_eq a b, λ e. rw e (text_eq_refl b))

-- `a in {b, c, ...}`
unfoldable pub text_in : Text → List Text → Bool
unfolding any
text_in a bs = any (text_eq a) bs

-- `str.isspace` of one character
unfoldable pub is_space : ℕ → Bool
is_space c =
    (leb 9 c && leb c 13)
    || (leb 28 c && leb c 32)
    || c == 0x85
    || c == 0xA0
    || c == 0x1680
    || (leb 0x2000 c && leb c 0x200A)
    || c == 0x2028
    || c == 0x2029
    || c == 0x202F
    || c == 0x205F
    || c == 0x3000

unfoldable pub drop_while : (ℕ → Bool) → Text → Text
drop_while p [] = []
drop_while p (c ∷ s) = let rest = drop_while p s in if p c then rest else c ∷ s

-- `s.lstrip(chars)`, `s.rstrip(chars)` and `s.strip()`
unfoldable pub rstrip_by : (ℕ → Bool) → Text → Text
unfolding drop_while
rstrip_by p s = reverse (drop_while p (reverse s))

unfoldable pub strip : Text → Text
unfolding drop_while rstrip_by is_space
strip s = rstrip_by is_space (drop_while is_space s)

unfoldable pub lower_char : ℕ → ℕ
lower_char c = if leb b'A' c && leb c b'Z' then c + 32 else c

unfoldable pub upper_char : ℕ → ℕ
upper_char c = if leb b'a' c && leb c b'z' then c - 32 else c

unfoldable pub lower : Text → Text
unfolding lower_char
lower s = map lower_char s

unfoldable pub upper : Text → Text
unfolding upper_char
upper s = map upper_char s

unfoldable pub starts_with : Text → Text → Bool
starts_with s [] = true
starts_with [] (p ∷ ps) = false
starts_with (c ∷ s) (p ∷ ps) = c == p && starts_with s ps

-- `p in s`
unfoldable pub contains : Text → Text → Bool
unfolding starts_with
contains [] p = starts_with [] p
contains (c ∷ s) p = starts_with (c ∷ s) p || contains s p

-- `c in s` for one character
unfoldable pub has_char : ℕ → Text → Bool
unfolding any
has_char c s = any (λ d. c == d) s

-- `s.count(c)`
unfoldable pub count_char : ℕ → Text → ℕ
count_char c [] = 0
count_char c (d ∷ s) = if c == d then suc (count_char c s) else count_char c s

-- `s.split(c, 1)`: the text before the first `c`, and the text after it, if there is one.
unfoldable pub split_once : ℕ → Text → Text × Option Text
split_once c [] = ([], none)
split_once c (d ∷ s) =
    let rest = split_once c s in if c == d then ([], some s) else (d ∷ rest.0, rest.1)

pub drop_while-id : (p : ℕ → Bool) (s : Text) → All (λ c. p c ≡ false) s → drop_while p s ≡ s
unfolding drop_while
drop_while-id p [] h = refl
drop_while-id p (c ∷ s) h = rw (h.0)

-- `sep.join(parts)`
unfoldable pub join : Text → List Text → Text
join sep [] = []
join sep (x ∷ []) = x
join sep (x ∷ y ∷ rest) = x ++ (sep ++ join sep (y ∷ rest))

pub length-lower : (s : Text) → length (lower s) ≡ length s
unfolding lower
length-lower [] = refl
length-lower (c ∷ s) = ap suc (length-lower s)

-- An f-string, by its parts.
unfoldable pub concat : List Text → Text
concat [] = []
concat (x ∷ xs) = x ++ concat xs

abbrev split_step : Bool → ℕ → List Text → List Text
split_step true d rest = [] ∷ rest
split_step false d [] = (d ∷ []) ∷ []
split_step false d (x ∷ rest) = (d ∷ x) ∷ rest

-- `s.split(c)` for one character
unfoldable pub split : ℕ → Text → List Text
split c [] = [] ∷ []
split c (d ∷ s) = split_step (c == d) d (split c s)

-- The characters at which `splitlines` breaks.
unfoldable pub is_line_break : ℕ → Bool
is_line_break c =
    (leb 10 c && leb c 13) || (leb 28 c && leb c 30) || c == 0x85 || c == 0x2028 || c == 0x2029

-- `line` holds the open line; behind a carriage return a line feed opens none.
unfoldable pub split_lines : Bool → Text → Text → List Text
split_lines after_cr line [] = if is_empty line then [] else line ∷ []
split_lines after_cr line (c ∷ s) = elim (after_cr && c == 10) [
  | true ↦ split_lines false line s
  | false ↦ elim (is_line_break c) [
    | true ↦ line ∷ split_lines (c == 13) [] s
    | false ↦ split_lines false (line ++ c ∷ []) s
  ]
]

-- `s.splitlines()`
unfoldable pub splitlines : Text → List Text
unfolding split_lines is_line_break
splitlines s = split_lines false [] s

lines_tests :
    (splitlines (t "a\r\nb\n\nc") ≡ t "a" ∷ t "b" ∷ [] ∷ t "c" ∷ [])
    × (splitlines [] ≡ [])
    × (split b'.' (t "a.b.") ≡ t "a" ∷ t "b" ∷ [] ∷ [])
unfolding splitlines split
lines_tests = (refl, refl, refl)

-- ===== src/Library/Keys.antt =====
-- A database that numbers its rows: a new key is one more than the highest.
use unifi_netwatcher.Base.{In, ℕ, suc, ◌≤◌, max, inl, inr, List, [], ◌∷◌, arith}

abbrev pub highest : List ℕ → ℕ
highest [] = 0
highest (x ∷ xs) = max x (highest xs)

pub highest-le : (i : ℕ) (xs : List ℕ) → In i xs → i ≤ highest xs
highest-le i [] m = elim m [ ]
highest-le i (x ∷ xs) (inl e) = omega (arith, e)
highest-le i (x ∷ xs) (inr m) = omega (arith, highest-le i xs m)

abbrev pub next_key : List ℕ → ℕ
next_key ids = suc (highest ids)

pub next_key-new : (ids : List ℕ) → ¬ In (next_key ids) ids
next_key-new ids m = absurd (omega (arith, highest-le (next_key ids) ids m))

-- ===== src/Api/Export/Csv.antt =====
-- The exported table is read back by a reader of comma-separated values.
use unifi_netwatcher.Base.{
  ◌==◌, if◌then◌else◌, Bool-cases, or-eq_false, is_empty, any, All, Text, t, join, concat, ℕ, ◌≡◌,
  refl, ap, ◌∙◌, inl, inr, Bool, true, false, List, [], ◌∷◌, ◌++◌, map, arith,
}
use unifi_netwatcher.Api.Export.{
  double_quotes, is_special, write_cell, write_row, csv_row, export_csv, csv_rows, csv_header,
  order_by_id,
}
use mathlib.Core.List.{append-nil, append_assoc}
use unifi_netwatcher.Models.{Device, Db}

-- Where a reader of RFC 4180 stands: at the start of a cell, in a plain one, in a quoted one, or behind
-- a quote in a quoted one.
pub data Mode : Type 0 where
  start plain quoted closing : Mode

-- `cell` and `row` are what has been read of the open cell and of the open row. A row ends at a line
-- feed, and a carriage return outside of quotes is passed over.
pub read_csv : Mode → Text → List Text → Text → List (List Text)
read_csv m cell row [] = []
read_csv quoted cell row (c ∷ s) = elim (c == b'"') [
  | true ↦ read_csv closing cell row s
  | false ↦ read_csv quoted (cell ++ c ∷ []) row s
]
read_csv closing cell row (c ∷ s) = elim (c == b'"') [
  | true ↦ read_csv quoted (cell ++ c ∷ []) row s
  | false ↦ elim (c == b',') [
    | true ↦ read_csv start [] (row ++ cell ∷ []) s
    | false ↦ elim (c == 10) [
      | true ↦ (row ++ cell ∷ []) ∷ read_csv start [] [] s
      | false ↦ read_csv closing cell row s
    ]
  ]
]
read_csv start cell row (c ∷ s) = elim (c == b'"') [
  | true ↦ read_csv quoted cell row s
  | false ↦ elim (c == b',') [
    | true ↦ read_csv start [] (row ++ cell ∷ []) s
    | false ↦ elim (c == 10) [
      | true ↦ (row ++ cell ∷ []) ∷ read_csv start [] [] s
      | false ↦ elim (c == 13) [
        | true ↦ read_csv plain cell row s
        | false ↦ read_csv plain (cell ++ c ∷ []) row s
      ]
    ]
  ]
]
read_csv plain cell row (c ∷ s) = elim (c == b',') [
  | true ↦ read_csv start [] (row ++ cell ∷ []) s
  | false ↦ elim (c == 10) [
    | true ↦ (row ++ cell ∷ []) ∷ read_csv start [] [] s
    | false ↦ elim (c == 13) [
      | true ↦ read_csv plain cell row s
      | false ↦ read_csv plain (cell ++ c ∷ []) row s
    ]
  ]
]

-- A mode in which the cell can end.
is_open : Mode → Bool
is_open quoted = false
is_open _ = true

end_cell :
    (m : Mode) (cell : Text) (row : List Text) (s : Text)
    → is_open m ≡ true
    → read_csv m cell row (b',' ∷ s) ≡ read_csv start [] (row ++ cell ∷ []) s
unfolding read_csv is_open
end_cell start cell row s h = refl
end_cell plain cell row s h = refl
end_cell quoted cell row s h = absurd (ground arith)
end_cell closing cell row s h = refl

end_row :
    (m : Mode) (cell : Text) (row : List Text) (s : Text)
    → is_open m ≡ true
    → read_csv m cell row (13 ∷ 10 ∷ s) ≡ (row ++ cell ∷ []) ∷ read_csv start [] [] s
unfolding read_csv is_open
end_row start cell row s h = refl
end_row plain cell row s h = refl
end_row quoted cell row s h = absurd (ground arith)
end_row closing cell row s h = refl

doubled_step :
    (c : ℕ) (cell : Text) (row : List Text) (s : Text)
    → (c == b'"') ≡ true
    → read_csv quoted cell row (c ∷ c ∷ s) ≡ read_csv quoted (cell ++ c ∷ []) row s
unfolding read_csv
doubled_step c cell row s e = ground arith

quoted_step :
    (c : ℕ) (cell : Text) (row : List Text) (s : Text)
    → (c == b'"') ≡ false
    → read_csv quoted cell row (c ∷ s) ≡ read_csv quoted (cell ++ c ∷ []) row s
unfolding read_csv
quoted_step c cell row s e = ground arith

plain_step :
    (c : ℕ) (cell : Text) (row : List Text) (s : Text)
    → is_special c ≡ false
    → read_csv plain cell row (c ∷ s) ≡ read_csv plain (cell ++ c ∷ []) row s
unfolding read_csv is_special
plain_step c cell row s e = ground arith

start_step :
    (c : ℕ) (row : List Text) (s : Text)
    → is_special c ≡ false
    → read_csv start [] row (c ∷ s) ≡ read_csv plain (c ∷ []) row s
unfolding read_csv is_special
start_step c row s e = ground arith

-- A quoted text, up to the quote that closes it.
read_quoted :
    (s cell : Text) (row : List Text) (rest : Text)
    → read_csv quoted cell row (double_quotes s ++ b'"' ∷ rest)
      ≡ read_csv closing (cell ++ s) row rest
unfolding double_quotes
read_quoted [] cell row rest = rw append-nil (unfold read_csv in refl)
read_quoted (c ∷ s) cell row rest = elim (Bool-cases (c == b'"')) [
  | inl e ↦ rw e (
      doubled_step c cell row (double_quotes s ++ b'"' ∷ rest) e
      ∙ read_quoted s (cell ++ c ∷ []) row rest
      ∙ ap (λ z. read_csv closing z row rest) (append_assoc cell (c ∷ []) s))
  | inr e ↦ rw e (
      quoted_step c cell row (double_quotes s ++ b'"' ∷ rest) e
      ∙ read_quoted s (cell ++ c ∷ []) row rest
      ∙ ap (λ z. read_csv closing z row rest) (append_assoc cell (c ∷ []) s))
]

read_plain :
    (s cell : Text) (row : List Text) (rest : Text)
    → any is_special s ≡ false
    → read_csv plain cell row (s ++ rest) ≡ read_csv plain (cell ++ s) row rest
unfolding any
read_plain [] cell row rest h = rw append-nil refl
read_plain (c ∷ s) cell row rest h =
    let (e, f) = or-eq_false (is_special c) (any is_special s) h in
    plain_step c cell row (s ++ rest) e
    ∙ read_plain s (cell ++ c ∷ []) row rest f
    ∙ ap (λ z. read_csv plain z row rest) (append_assoc cell (c ∷ []) s)

mode_of : Text → Mode
mode_of s = if any is_special s then closing else if is_empty s then start else plain

read_unquoted :
    (s : Text) (row : List Text) (rest : Text)
    → any is_special s ≡ false
    → read_csv start [] row (s ++ rest) ≡ read_csv (if is_empty s then start else plain) s row rest
unfolding any
read_unquoted [] row rest h = refl
read_unquoted (c ∷ s) row rest h =
    let (e, f) = or-eq_false (is_special c) (any is_special s) h in
    start_step c row (s ++ rest) e ∙ read_plain s (c ∷ []) row rest f

read_cell :
    (s : Text) (row : List Text) (rest : Text)
    → read_csv start [] row (write_cell s ++ rest) ≡ read_csv (mode_of s) s row rest
unfolding write_cell mode_of read_csv
read_cell s row rest = elim (Bool-cases (any is_special s)) [
  | inl e ↦ rw e (
      ap (read_csv quoted [] row) (append_assoc (double_quotes s) (b'"' ∷ []) rest)
      ∙ read_quoted s [] row rest)
  | inr e ↦ rw e (read_unquoted s row rest e)
]

mode_is_open : (s : Text) → is_open (mode_of s) ≡ true
unfolding mode_of is_open
mode_is_open [] = ground arith
mode_is_open (c ∷ s) = ground arith

-- The cells of a row, behind those that have been read.
read_cells :
    (cell : Text) (cells row : List Text) (rest : Text)
    → read_csv start [] row (join (t ",") (map write_cell (cell ∷ cells)) ++ 13 ∷ 10 ∷ rest)
      ≡ (row ++ cell ∷ cells) ∷ read_csv start [] [] rest
unfolding join
read_cells cell [] row rest =
    read_cell cell row (13 ∷ 10 ∷ rest) ∙ end_row (mode_of cell) cell row rest (mode_is_open cell)
read_cells cell (next ∷ cells) row rest =
    let others = join (t ",") (map write_cell (next ∷ cells)) in
    ap (read_csv start [] row) (append_assoc (write_cell cell) (b',' ∷ others) (13 ∷ 10 ∷ rest))
    ∙ read_cell cell row (b',' ∷ (others ++ 13 ∷ 10 ∷ rest))
    ∙ end_cell (mode_of cell) cell row (others ++ 13 ∷ 10 ∷ rest) (mode_is_open cell)
    ∙ read_cells next cells (row ++ cell ∷ []) rest
    ∙ ap (λ z. z ∷ read_csv start [] [] rest) (append_assoc row (cell ∷ []) (next ∷ cells))

abbrev IsRow : List Text → Type 0
IsRow [] = ⊥
IsRow (cell ∷ cells) = Unit

read_rows :
    (rows : List (List Text))
    → All IsRow rows
    → read_csv start [] [] (concat (map write_row rows)) ≡ rows
unfolding concat write_row
read_rows [] h = unfold read_csv in refl
read_rows ([] ∷ rows) h = elim h.0 [ ]
read_rows ((cell ∷ cells) ∷ rows) h =
    ap (read_csv start [] []) (
      append_assoc (join (t ",") (map write_cell (cell ∷ cells))) (13 ∷ 10 ∷ [])
        (concat (map write_row rows)))
    ∙ read_cells cell cells [] (concat (map write_row rows))
    ∙ ap (λ z. (cell ∷ cells) ∷ z) (read_rows rows h.1)

rows-IsRow : (isoformat : ℕ → Text) (ds : List Device) → All IsRow (map (csv_row isoformat) ds)
unfolding csv_row
rows-IsRow isoformat [] = tt
rows-IsRow isoformat (d ∷ ds) = (tt, rows-IsRow isoformat ds)

-- A reader of RFC 4180 gets from the exported table its header and the cells of each device that the
-- query gives, in its order, whatever commas, quotes and line breaks the cells hold.
pub read-export_csv :
    (isoformat : ℕ → Text) (db : Db)
    → read_csv start [] [] (export_csv isoformat db)
      ≡ csv_header ∷ map (csv_row isoformat) (order_by_id db.devices)
unfolding export_csv csv_rows
read-export_csv isoformat db =
    read_rows (csv_header ∷ map (csv_row isoformat) (order_by_id db.devices))
      (tt, rows-IsRow isoformat (order_by_id db.devices))

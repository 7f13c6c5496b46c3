-- ===== src/Collections/CsvLaws.antt =====
-- The exported lines against a reader of quoted cells, as a spreadsheet reads them.
use content_pool_next.Base.{
  ℕ, zero, suc, Bool, ◌≤◌, Option, none, some, List, [], ◌∷◌, ◌++◌, map, length, ◌≡◌, refl, arith,
  Bool-cases, inl, inr, ◌==◌, if◌then◌else◌, ==_iff, false,
}
use mathlib.Core.List.{append_assoc}
use content_pool_next.Base.Text.{Text}
use content_pool_next.Collections.Csv.{
  Cell, text_cell, starts_formula, guard_formula, double_quotes, cell_text, escape_csv_cell,
  csv_line,
}

abbrev cons_read : ℕ → Option (Text × Text) → Option (Text × Text)
cons_read c none = none
cons_read c (some (s, rest)) = some (c ∷ s, rest)

-- The inside of a quoted cell: a doubled quote is a quote, and a single one ends the cell.
read_quoted : Text → Option (Text × Text)
read_quoted [] = none
read_quoted (c ∷ []) = if c == 34 then some ([], []) else none
read_quoted (c ∷ d ∷ s) =
    let next = cons_read c (read_quoted (d ∷ s)) in
    let quote = cons_read 34 (read_quoted s) in
    if c == 34 then if d == 34 then quote else some ([], d ∷ s) else next

abbrev is_quote : Text → Bool
is_quote [] = false
is_quote (c ∷ s) = c == 34

read_quoted-end : (rest : Text) → is_quote rest ≡ false → read_quoted (34 ∷ rest) ≡ some ([], rest)
unfolding read_quoted
read_quoted-end [] h = refl
read_quoted-end (d ∷ rest) h = rw h

-- a unit that is no quote, in front of anything that can be read
read_quoted-plain :
    (c : ℕ) (s : Text) (p : Text × Text)
    → (c == 34) ≡ false
    → read_quoted s ≡ some p
    → read_quoted (c ∷ s) ≡ some (c ∷ p.0, p.1)
unfolding read_quoted
read_quoted-plain c [] p h e = absurd (ground arith)
read_quoted-plain c (d ∷ s) p h e = rw h (rw e)

read_quoted-quote :
    (s : Text) (p : Text × Text)
    → read_quoted s ≡ some p
    → read_quoted (34 ∷ 34 ∷ s) ≡ some (34 ∷ p.0, p.1)
unfolding read_quoted
read_quoted-quote s p e = rw e

read_quoted-double :
    (s rest : Text)
    → is_quote rest ≡ false
    → read_quoted (double_quotes s ++ 34 ∷ rest) ≡ some (s, rest)
unfolding double_quotes
read_quoted-double [] rest h = read_quoted-end rest h
read_quoted-double (c ∷ s) rest h = elim (Bool-cases (c == 34)) [
  | inl quote ↦
      rw (quote, (==_iff c 34).0 quote)
        (read_quoted-quote (double_quotes s ++ 34 ∷ rest) (s, rest) (read_quoted-double s rest h))
  | inr plain ↦ rw plain (
      read_quoted-plain c (double_quotes s ++ 34 ∷ rest) (s, rest) plain
        (read_quoted-double s rest h))
]

-- a cell: a quote, and what it encloses
abbrev read_cell : Text → Option (Text × Text)
read_cell [] = none
read_cell (c ∷ s) = if c == 34 then read_quoted s else none

abbrev cons_cell : Text → Option (List Text) → Option (List Text)
cons_cell cell none = none
cons_cell cell (some cells) = some (cell ∷ cells)

-- behind a cell: the end of the line, or a semicolon and more cells
abbrev read_on : (Text → Option (List Text)) → Option (Text × Text) → Option (List Text)
read_on again none = none
read_on again (some (cell, [])) = some (cell ∷ [])
read_on again (some (cell, c ∷ rest)) = if c == b';' then cons_cell cell (again rest) else none

-- The cells of a line, on fuel for their number.
unfoldable pub read_line : ℕ → Text → Option (List Text)
unfolding read_quoted
read_line zero s = none
read_line (suc n) s = read_on (read_line n) (read_cell s)

read_cell-escape :
    (cell : Cell) (rest : Text)
    → is_quote rest ≡ false
    → read_cell (escape_csv_cell cell ++ rest) ≡ some (cell_text cell, rest)
unfolding escape_csv_cell
read_cell-escape cell rest h =
    rw (append_assoc (double_quotes (cell_text cell)) (34 ∷ []) rest)
      (read_quoted-double (cell_text cell) rest h)

-- A line is read back as the texts of its cells, whatever quotes, semicolons and line breaks they
-- hold, on fuel for more cells than the line has.
pub read_line-csv_line :
    (cell : Cell) (cells : List Cell) (fuel : ℕ)
    → suc (length cells) ≤ fuel
    → read_line fuel (csv_line cell cells) ≡ some (map cell_text (cell ∷ cells))
unfolding read_line csv_line
read_line-csv_line cell cells zero h = absurd (omega arith)
read_line-csv_line cell [] (suc fuel) h = rw (read_quoted-double (cell_text cell) [] refl)
read_line-csv_line cell (next ∷ cells) (suc fuel) h =
    rw (read_cell-escape cell (b';' ∷ csv_line next cells) refl)
      (rw (read_line-csv_line next cells fuel (omega arith)))

-- No text of a line starts like a formula once it is exported.
pub cell_text-harmless : (s : Text) → starts_formula (cell_text (text_cell s)) ≡ false
unfolding guard_formula
cell_text-harmless s = ground arith

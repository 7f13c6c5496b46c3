-- ===== src/Collections/Csv.antt =====
-- `escapeCsvCell` and the lines of `exportItemCollectionCsv` in backend/src/item-collections/
-- item-collections.service.ts.
use content_pool_next.Base.{Bool, false, ◌||◌, List, [], ◌∷◌, ◌++◌, ◌==◌, if◌then◌else◌}
use content_pool_next.Base.Text.{Text}

-- A cell is a text, or a number in the form that `String` gives it.
pub data Cell : Type 0 where
  text_cell number_cell : Text → Cell

-- `/^[=+\-@]/`
abbrev pub starts_formula : Text → Bool
starts_formula [] = false
starts_formula (c ∷ s) = c == b'=' || c == b'+' || c == b'-' || c == b'@'

-- the apostrophe that keeps a spreadsheet from reading a formula
unfoldable pub guard_formula : Text → Text
guard_formula s = if starts_formula s then b'\x27' ∷ s else s

-- `normalized.replace(/"/g, '""')`
unfoldable pub double_quotes : Text → Text
double_quotes [] = []
double_quotes (c ∷ s) = if c == 34 then 34 ∷ 34 ∷ double_quotes s else c ∷ double_quotes s

abbrev pub cell_text : Cell → Text
cell_text (text_cell s) = guard_formula s
cell_text (number_cell s) = s

unfoldable pub escape_csv_cell : Cell → Text
unfolding guard_formula double_quotes
escape_csv_cell cell = 34 ∷ double_quotes (cell_text cell) ++ 34 ∷ []

-- `row.map(escape).join(";")`, for a row with a first cell
unfoldable pub csv_line : Cell → List Cell → Text
unfolding escape_csv_cell
csv_line cell [] = escape_csv_cell cell
csv_line cell (next ∷ cells) = escape_csv_cell cell ++ b';' ∷ csv_line next cells

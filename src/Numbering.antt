-- ===== src/Numbering.antt =====
-- The numbers of item rows: `ItemRowNumberingService` (backend/src/files/
-- item-row-numbering.service.ts) over the table of
-- backend/src/database/entities/acp-item-row-number.entity.ts.
pub mod Sorting
pub mod Order
pub mod Counting
pub mod Assigning
pub mod Recalculating
mod Tests
use Prim.Native.Nat.{Ordering}
use content_pool_next.Base.{
  ℕ, zero, suc, ◌+◌, max, String, string_eq, Bool, true, false, not, ◌&&◌, ◌||◌, Option, none, some,
  List, [], ◌∷◌, ◌++◌, map, filter, find, every, contains, is_empty, same, if◌then◌else◌,
}
use content_pool_next.Base.Text.{Text, text_eq, trim}
use content_pool_next.Base.Http.{Result, ok, err, not_found, conflict, ◌>>=◌, ◌>>◌, throw_if}

-- A row to number; a missing id is empty.
pub record ItemRow : Type 0 where
  pub row_key : Text
  pub item_id : Text
  pub unit_id : Text
  pub sub_id : Text

-- A row of the table.
pub record RowNumber : Type 0 where
  pub acp_id : String
  pub row_key : Text
  pub row_key_hash : Text
  pub row_number : ℕ

-- `normalizeRows`, behind the keys already taken
unfoldable pub normalize_rows : List Text → List ItemRow → List ItemRow
unfolding trim
normalize_rows seen [] = []
normalize_rows seen (row ∷ rows) =
    let key = trim row.row_key in
    let skipped = is_empty key || contains key seen in
    let rest = normalize_rows (if skipped then seen else key ∷ seen) rows in
    if skipped then rest else record row { row_key = key } ∷ rest

abbrev pub of_acp : String → List RowNumber → List RowNumber
of_acp acp_id = filter (λ e. same e.acp_id acp_id)

-- `repository.maximum("rowNumber", { acpId }) || 0`
unfoldable pub max_number : String → List RowNumber → ℕ
max_number acp_id [] = 0
max_number acp_id (e ∷ table) =
    let rest = max_number acp_id table in
    if same e.acp_id acp_id then max e.row_number rest else rest

-- The numbers that a call hands out: a `Map`, in insertion order.
abbrev pub Numbers : Type 0
Numbers = List (Text × ℕ)

abbrev pub keys : Numbers → List Text
keys = map (λ n. n.0)

-- the rows without a number, `!numbers.has(row.rowKey)`
abbrev pub missing_from : Numbers → List ItemRow → List ItemRow
missing_from numbers = filter (λ row. not (contains row.row_key (keys numbers)))

-- `nextNumber += 1; numbers.set(…)` for one row after the other
unfoldable pub count_up : ℕ → List ItemRow → Numbers
count_up last [] = []
count_up last (row ∷ rows) = (row.row_key, suc last) ∷ count_up (suc last) rows

abbrev pub or_else : Ordering → Ordering → Ordering
or_else Ordering.eq next = next
or_else decided next = decided

abbrev pub is_gt : Ordering → Bool
is_gt Ordering.gt = true
is_gt _ = false

-- the number of one row in front of those of the rows behind it
abbrev pub with_entry : ItemRow → Option RowNumber → Numbers → Result Numbers
with_entry row none rest = ok rest
with_entry row (some e) rest =
    if same e.row_key row.row_key then ok ((row.row_key, e.row_number) ∷ rest) else err conflict

-- `withAcpLock`: the ACPs that exist, and the work on the table as it is under the lock
abbrev pub with_acp_lock {ℓ} : {A : Type ℓ} → List String → String → Result A → Result A
with_acp_lock acps acp_id work = throw_if (not (contains acp_id acps)) not_found >> work

-- `every((row) => numbers.has(row.rowKey))`
abbrev pub are_numbered : Numbers → List ItemRow → Bool
are_numbered numbers = every (λ row. contains row.row_key (keys numbers))

-- `collate` is the German collator of the language.
module _ (collate : Text → Text → Ordering) where
  unfoldable pub compare_rows : ItemRow → ItemRow → Ordering
  compare_rows left right = or_else (collate left.item_id right.item_id) (
      or_else (collate left.sub_id right.sub_id)
        (or_else (collate left.unit_id right.unit_id) (collate left.row_key right.row_key)))

  -- `rows.sort(compareRows)` keeps rows that compare equal in their order.
  unfoldable pub insert_row : ItemRow → List ItemRow → List ItemRow
  unfolding compare_rows
  insert_row row [] = row ∷ []
  insert_row row (next ∷ rows) =
      if is_gt (compare_rows row next) then next ∷ insert_row row rows else row ∷ next ∷ rows

  unfoldable pub sort_rows : List ItemRow → List ItemRow
  unfolding insert_row
  sort_rows [] = []
  sort_rows (row ∷ rows) = insert_row row (sort_rows rows)

  -- the new numbers, for `missingRows` in their order
  unfoldable pub new_numbers : String → List RowNumber → Numbers → List ItemRow → Numbers
  unfolding count_up max_number sort_rows
  new_numbers acp_id table numbers rows =
      count_up (max_number acp_id table) (sort_rows (missing_from numbers rows))

-- `hash` is the SHA-256 of a text in hexadecimal.
module _ (hash : Text → Text) where
  -- the entry of a row, by its hash
  unfoldable pub find_entry : String → List RowNumber → ItemRow → Option RowNumber
  find_entry acp_id table row =
      find (λ e. same e.acp_id acp_id && same e.row_key_hash (hash row.row_key)) table

  unfoldable pub find_assigned_numbers : String → List RowNumber → List ItemRow → Result Numbers
  unfolding find_entry
  find_assigned_numbers acp_id table [] = ok []
  find_assigned_numbers acp_id table (row ∷ rows) = do
    rest ← find_assigned_numbers acp_id table rows
    with_entry row (find_entry acp_id table row) rest

  -- the rows that `repository.create` makes
  unfoldable pub entries_of : String → Numbers → List RowNumber
  entries_of acp_id =
      map
        (λ n. record { acp_id = acp_id; row_key = n.0; row_key_hash = hash n.0; row_number = n.1 })

module _ (collate : Text → Text → Ordering) (hash : Text → Text) where
  -- the locked part of `assignNumbersInternal`
  unfoldable pub assign_locked :
      String → List ItemRow → List RowNumber → Result (Numbers × List RowNumber)
  unfolding find_assigned_numbers new_numbers entries_of
  assign_locked acp_id rows table = do
    numbers ← find_assigned_numbers hash acp_id table rows
    ok (
      numbers ++ new_numbers collate acp_id table numbers rows,
      table ++ entries_of hash acp_id (new_numbers collate acp_id table numbers rows),
    )

  -- `assignNumbers`: `read` is the table as it is read without the lock, `table` as it is under the
  -- lock, after which it is the second part of the result.
  unfoldable pub assign_numbers :
      List String
      → String
      → List ItemRow
      → List RowNumber
      → List RowNumber
      → Result (Numbers × List RowNumber)
  unfolding normalize_rows find_assigned_numbers assign_locked
  assign_numbers acps acp_id rows read table = do
    numbers ← find_assigned_numbers hash acp_id read (normalize_rows [] rows)
    (if are_numbered numbers (normalize_rows [] rows)
        then ok (numbers, table)
        else with_acp_lock acps acp_id (assign_locked acp_id (normalize_rows [] rows) table))

  unfoldable pub assign_provisional_numbers :
      String → List ItemRow → List RowNumber → Result Numbers
  unfolding normalize_rows find_assigned_numbers new_numbers
  assign_provisional_numbers acp_id rows table = do
    numbers ← find_assigned_numbers hash acp_id table (normalize_rows [] rows)
    ok (numbers ++ new_numbers collate acp_id table numbers (normalize_rows [] rows))

  -- `recalculateNumbers`; `valid` is what the caller's check under the lock comes to.
  unfoldable pub recalculate_numbers :
      List String
      → String
      → List ItemRow
      → Result (Unit {0})
      → List RowNumber
      → Result (Numbers × List RowNumber)
  unfolding normalize_rows sort_rows count_up entries_of
  recalculate_numbers acps acp_id rows valid table =
      let numbers = count_up 0 (sort_rows collate (normalize_rows [] rows)) in
      with_acp_lock acps acp_id (
        valid
        >> ok (
          numbers,
          filter (λ e. not (same e.acp_id acp_id)) table ++ entries_of hash acp_id numbers,
        ))

-- ===== src/Numbering/Tests.antt =====
-- Three rows of an ACP, numbered, and each theorem on them.
use Prim.Native.Nat.{compare, Ordering}
use content_pool_next.Base.{
  ℕ, String, string_eq, number_eq, true, List, [], ◌∷◌, ◌++◌, contains, length, All, IsDistinct,
  ◌≡◌, refl, arith,
}
use content_pool_next.Base.Text.{Text, text_eq, trim, trim_start, trim_end, is_space}
use content_pool_next.Base.Http.{ok}
use content_pool_next.Numbering.{
  ItemRow, RowNumber, Numbers, keys, of_acp, entries_of, assign_numbers, recalculate_numbers,
  normalize_rows, find_assigned_numbers, find_entry, assign_locked, new_numbers, count_up,
  max_number, sort_rows, insert_row, compare_rows, assign_provisional_numbers,
}
use content_pool_next.Numbering.Sorting.{row_keys, flip, requested}
use content_pool_next.Numbering.Order.{IsFrom, IsInOrder}
use content_pool_next.Numbering.Counting.{numbers_from, row_numbers}
use content_pool_next.Numbering.Assigning.{IsNumbered, is_stored, assign_numbers-IsNumbered}
use content_pool_next.Numbering.Recalculating.{recalculate_numbers-gapless}

-- a collator: by the first sign
abbrev collate : Text → Text → Ordering
collate [] [] = Ordering.eq
collate [] (b ∷ t) = Ordering.lt
collate (a ∷ s) [] = Ordering.gt
collate (a ∷ s) (b ∷ t) = compare a b

collate-flip : (a b : Text) → collate b a ≡ flip (collate a b)
collate-flip [] [] = refl
collate-flip [] (b ∷ t) = refl
collate-flip (a ∷ s) [] = refl
collate-flip (a ∷ s) (b ∷ t) = ground arith

abbrev hash : Text → Text
hash t = 35 ∷ t

abbrev row_of : ℕ → ItemRow
row_of n = record { row_key = n ∷ []; item_id = n ∷ []; unit_id = []; sub_id = [] }

abbrev entry_of : String → ℕ → ℕ → RowNumber
entry_of acp_id key number = record {
  acp_id = acp_id;
  row_key = key ∷ [];
  row_key_hash = 35 ∷ key ∷ [];
  row_number = number;
}

abbrev table : List RowNumber
table = entry_of "a" 66 4 ∷ entry_of "b" 65 1 ∷ []

abbrev rows : List ItemRow
rows = row_of 67 ∷ row_of 66 ∷ row_of 65 ∷ row_of 66 ∷ row_of 32 ∷ []

abbrev numbers : Numbers
numbers = (66 ∷ [], 4) ∷ (65 ∷ [], 5) ∷ (67 ∷ [], 6) ∷ []

abbrev assigned : List RowNumber
assigned = entry_of "a" 66 4 ∷ entry_of "b" 65 1 ∷ entry_of "a" 65 5 ∷ entry_of "a" 67 6 ∷ []

-- The row that has a number keeps it; the others come behind it in their order.
assign_test :
    assign_numbers collate hash ("a" ∷ "b" ∷ []) "a" rows table table ≡ ok (numbers, assigned)
unfolding assign_numbers normalize_rows trim trim_start trim_end is_space find_assigned_numbers
    find_entry assign_locked new_numbers count_up max_number sort_rows insert_row compare_rows
    entries_of
assign_test = refl

table-IsNumbered : IsNumbered "a" table
table-IsNumbered = record { distinct = (refl, tt); positive = (omega arith, tt) }

assign_numbers-IsNumbered_example :
    IsNumbered "a" assigned
    × ((new : Numbers) × (assigned ≡ table ++ entries_of hash "a" new))
    × ((key : Text) → contains key (keys numbers) ≡ requested rows key)
    × All (λ n. is_stored "a" (table ++ assigned) n ≡ true) numbers
assign_numbers-IsNumbered_example =
    assign_numbers-IsNumbered collate hash ("a" ∷ "b" ∷ []) "a" rows table table numbers assigned
      assign_test table-IsNumbered

abbrev renumbered : Numbers
renumbered = (65 ∷ [], 1) ∷ (66 ∷ [], 2) ∷ (67 ∷ [], 3) ∷ []

abbrev recalculated : List RowNumber
recalculated = entry_of "b" 65 1 ∷ entry_of "a" 65 1 ∷ entry_of "a" 66 2 ∷ entry_of "a" 67 3 ∷ []

recalculate_test :
    recalculate_numbers collate hash ("a" ∷ "b" ∷ []) "a" rows (ok tt) table
    ≡ ok (renumbered, recalculated)
unfolding recalculate_numbers normalize_rows trim trim_start trim_end is_space count_up sort_rows
    insert_row compare_rows entries_of
recalculate_test = refl

recalculate_numbers-gapless_example :
    (row_numbers (of_acp "a" recalculated) ≡ numbers_from 1 (length renumbered))
    × (of_acp "a" recalculated ≡ entries_of hash "a" renumbered)
    × ((sorted : List ItemRow) × (keys renumbered ≡ row_keys sorted)
        × All (IsFrom rows) sorted
        × IsInOrder collate sorted)
    × IsDistinct (keys renumbered)
    × ((key : Text) → contains key (keys renumbered) ≡ requested rows key)
    × (of_acp "b" recalculated ≡ of_acp "b" table)
recalculate_numbers-gapless_example =
    recalculate_numbers-gapless collate hash ("a" ∷ "b" ∷ []) "a" rows (ok tt) table renumbered
      recalculated "b" collate-flip refl recalculate_test

-- Without a transaction, the numbers that would be assigned.
provisional_test : assign_provisional_numbers collate hash "a" rows table ≡ ok numbers
unfolding assign_provisional_numbers normalize_rows trim trim_start trim_end is_space
    find_assigned_numbers find_entry new_numbers count_up max_number sort_rows insert_row
    compare_rows
provisional_test = refl

-- ===== src/Numbering/Recalculating.antt =====
-- `recalculateNumbers` of backend/src/files/item-row-numbering.service.ts: the numbers of an ACP
-- become 1, 2, 3, … in the order of the collator.
use Prim.Native.Nat.{Ordering}
use content_pool_next.Base.{
  All, String, string_eq, false, not, List, [], ◌∷◌, ◌++◌, filter, contains, length, same,
  IsDistinct, ◌≡◌, refl, ◌∙◌, arith, Bool-cases, inl, inr, str_eq_iff,
}
use mathlib.Core.List.{append-nil}
use content_pool_next.Base.Text.{Text, text_eq}
use content_pool_next.Base.Http.{Result, ok, not_found, throw_if, >>=-eq-ok}
use content_pool_next.Numbering.{
  ItemRow, RowNumber, Numbers, keys, normalize_rows, count_up, of_acp, sort_rows, entries_of,
  recalculate_numbers,
}
use content_pool_next.Numbering.Sorting.{
  row_keys, flip, requested, normalize_rows-requested, normalize_rows-IsDistinct,
  contains-sort_rows, sort_rows-IsDistinct, sort_rows-IsSorted,
}
use content_pool_next.Numbering.Order.{
  IsFrom, normalize_rows-All, IsInOrder, IsSorted-IsInOrder, sort_rows-All,
}
use content_pool_next.Numbering.Counting.{
  numbers_from, keys-count_up, length-count_up, values-count_up, row_numbers, of_acp-append,
  of_acp-entries_of, of_other-entries_of, row_numbers-entries_of,
}

of_acp-without :
    (acp_id : String) (table : List RowNumber)
    → of_acp acp_id (filter (λ e. not (same e.acp_id acp_id)) table) ≡ []
of_acp-without acp_id [] = refl
of_acp-without acp_id (e ∷ table) = ground (arith, of_acp-without acp_id table)

of_other-without :
    (acp_id other : String) (table : List RowNumber)
    → same acp_id other ≡ false
    → of_acp other (filter (λ e. not (same e.acp_id acp_id)) table) ≡ of_acp other table
of_other-without acp_id other [] h = refl
of_other-without acp_id other (e ∷ table) h = elim (Bool-cases (same e.acp_id acp_id)) [
  | inl own ↦
      let same_acp : e.acp_id ≡ acp_id = (str_eq_iff e.acp_id acp_id).0 own in
      let other_acp : same e.acp_id other ≡ false = rw same_acp h in
      rw (own, other_acp, of_other-without acp_id other table h)
  | inr foreign ↦ rw (foreign, of_other-without acp_id other table h)
]

module _ (collate : Text → Text → Ordering) (hash : Text → Text) where
  -- With an antisymmetric collator, after recalculating for one ACP, its entries carry the numbers 1
  -- to n without a gap. They are for the keys of n rows of the request, distinct and exactly the
  -- requested ones, and no row belongs after its successor by item, sub-id, unit and key. The numbers
  -- that come back are for the same keys, and the entries of every other ACP are as before.
  pub recalculate_numbers-gapless :
      (acps : List String) (acp_id : String) (rows : List ItemRow) (valid : Result (Unit {0}))
      (table : List RowNumber) (numbers : Numbers) (result : List RowNumber) (other : String)
      → ((a b : Text) → collate b a ≡ flip (collate a b))
      → same acp_id other ≡ false
      → recalculate_numbers collate hash acps acp_id rows valid table ≡ ok (numbers, result)
      → (row_numbers (of_acp acp_id result) ≡ numbers_from 1 (length numbers))
        × (of_acp acp_id result ≡ entries_of hash acp_id numbers)
        × ((sorted : List ItemRow) × (keys numbers ≡ row_keys sorted)
            × All (IsFrom rows) sorted
            × IsInOrder collate sorted)
        × IsDistinct (keys numbers)
        × ((key : Text) → contains key (keys numbers) ≡ requested rows key)
        × (of_acp other result ≡ of_acp other table)
  unfolding recalculate_numbers
  recalculate_numbers-gapless acps acp_id rows valid table numbers result other antisymmetric h e =
      let wanted = normalize_rows [] rows in
      let sorted = sort_rows collate wanted in
      let others = filter (λ e. not (same e.acp_id acp_id)) table in
      let (_, _, locked) = >>=-eq-ok (throw_if (not (contains acp_id acps)) not_found) _ e in
      let (_, _, last) = >>=-eq-ok valid _ locked in
      let all : count_up 0 sorted ≡ numbers = ground arith in
      let whole : others ++ entries_of hash acp_id (count_up 0 sorted) ≡ result = ground arith in
      let own : of_acp acp_id (others ++ entries_of hash acp_id (count_up 0 sorted))
          ≡ entries_of hash acp_id (count_up 0 sorted) =
        rw (of_acp-append, of_acp-without acp_id table, of_acp-entries_of hash) refl in
      rw (← all, ← whole)
        (
          rw
              (
                own,
                row_numbers-entries_of hash acp_id (count_up 0 sorted),
                values-count_up 0 sorted,
                length-count_up 0 sorted,
              )
              refl,
          own,
          (
            sorted,
            keys-count_up 0 sorted,
            sort_rows-All collate (IsFrom rows) wanted (normalize_rows-All rows),
            IsSorted-IsInOrder collate sorted (sort_rows-IsSorted collate antisymmetric wanted),
          ),
          rw keys-count_up
              (sort_rows-IsDistinct collate wanted (normalize_rows-IsDistinct [] rows)),
          (λ key.
              rw (keys-count_up, contains-sort_rows collate wanted key)
                (normalize_rows-requested rows key)),
          (rw
              (
                of_acp-append other others (entries_of hash acp_id (count_up 0 sorted)),
                of_other-entries_of hash acp_id other (count_up 0 sorted) h,
              )
              (append-nil (of_acp other others) ∙ of_other-without acp_id other table h)),
        )

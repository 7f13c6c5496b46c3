-- ===== src/Numbering/Assigning.antt =====
-- `assignNumbers` of backend/src/files/item-row-numbering.service.ts: numbers once given stay, and
-- new ones follow.
use Prim.Native.Nat.{Ordering}
use content_pool_next.Base.{
  ℕ, zero, suc, ◌≤◌, String, string_eq, number_eq, Bool, true, not, ◌&&◌, ◌||◌, some, List, [], ◌∷◌,
  ◌++◌, find, any, contains, contains-append, length, same, All, All-append, IsDistinct,
  append-IsDistinct, ◌≡◌, refl, sym, ◌∙◌, arith, Bool-cases, Option-cases, inl, inr, Bool_ext,
  ==_iff, str_eq_iff,
}
use mathlib.Core.List.{append-nil, map-append}
use content_pool_next.Base.Text.{Text, text_eq, text_beq_iff}
use content_pool_next.Base.Http.{ok, not_found, throw_if, >>=-eq-ok}
use content_pool_next.Numbering.{
  ItemRow, RowNumber, Numbers, keys, normalize_rows, count_up, max_number, of_acp, missing_from,
  sort_rows, new_numbers, find_entry, find_assigned_numbers, entries_of, assign_locked,
  are_numbered, with_acp_lock, assign_numbers,
}
use content_pool_next.Numbering.Sorting.{
  row_keys, requested, normalize_rows-requested, contains-sort_rows,
}
use content_pool_next.Numbering.Counting.{
  numbers_from, keys-count_up, values-count_up, numbers_from-le, numbers_from-IsDistinct,
  row_numbers, max_number-le, fresh_numbers, of_acp-append, of_acp-entries_of,
  row_numbers-entries_of,
}

-- The numbers of an ACP are distinct, and start at 1.
pub record IsNumbered (acp_id : String) (table : List RowNumber) : Type 0 where
  pub distinct : IsDistinct (row_numbers (of_acp acp_id table))
  pub positive : All (λ v. 1 ≤ v) (row_numbers (of_acp acp_id table))

positive_from : (first n : ℕ) → All (λ v. 1 ≤ v) (numbers_from (suc first) n)
unfolding numbers_from
positive_from first zero = tt
positive_from first (suc n) = (omega arith, positive_from (suc first) n)

contains-missing_from :
    (numbers : Numbers) (rows : List ItemRow) (key : Text)
    → contains key (row_keys (missing_from numbers rows))
      ≡ (contains key (row_keys rows) && not (contains key (keys numbers)))
contains-missing_from numbers [] key = refl
contains-missing_from numbers (r ∷ rows) key =
    ground (arith, contains-missing_from numbers rows key, text_beq_iff r.row_key key)

every_contained :
    (numbers : Numbers) (rows : List ItemRow) (key : Text)
    → are_numbered numbers rows ≡ true
    → contains key (row_keys rows) ≡ true
    → contains key (keys numbers) ≡ true
every_contained numbers [] key h c = absurd (ground arith)
every_contained numbers (r ∷ rows) key h c =
    ground (arith, every_contained numbers rows key, text_beq_iff r.row_key key)

-- a number that a table holds
abbrev pub is_stored : String → List RowNumber → Text × ℕ → Bool
is_stored acp_id table n =
    any (λ e. same e.acp_id acp_id && same e.row_key n.0 && same e.row_number n.1) table

stored_of_find :
    (acp_id : String) (key code : Text) (table : List RowNumber) (e : RowNumber)
    → find (λ e. same e.acp_id acp_id && same e.row_key_hash code) table ≡ some e
    → same e.row_key key ≡ true
    → is_stored acp_id table (key, e.row_number) ≡ true
stored_of_find acp_id key code [] e h k = absurd (ground arith)
stored_of_find acp_id key code (x ∷ table) e h k =
    ground (arith, stored_of_find acp_id key code table e, ==_iff x.row_number x.row_number)

-- A number stays stored when an entry is put in front.
stored_behind :
    (acp_id : String) (x : RowNumber) (table : List RowNumber) (numbers : Numbers)
    → All (λ n. is_stored acp_id table n ≡ true) numbers
    → All (λ n. is_stored acp_id (x ∷ table) n ≡ true) numbers
stored_behind acp_id x table [] h = tt
stored_behind acp_id x table (n ∷ numbers) h =
    (ground (arith, h.0), stored_behind acp_id x table numbers h.1)

-- Entries put behind or in front of a table keep what it stores.
stored_append :
    (acp_id : String) (table more : List RowNumber) (n : Text × ℕ)
    → is_stored acp_id (table ++ more) n ≡ (is_stored acp_id table n || is_stored acp_id more n)
stored_append acp_id [] more n = refl
stored_append acp_id (x ∷ table) more n = rw (stored_append acp_id table more n) (ground arith)

stored_left :
    (acp_id : String) (table more : List RowNumber) (numbers : Numbers)
    → All (λ n. is_stored acp_id table n ≡ true) numbers
    → All (λ n. is_stored acp_id (table ++ more) n ≡ true) numbers
stored_left acp_id table more [] h = tt
stored_left acp_id table more (n ∷ numbers) h = (
  rw (stored_append acp_id table more n) (ground (arith, h.0)),
  stored_left acp_id table more numbers h.1,
)

stored_right :
    (acp_id : String) (table more : List RowNumber) (numbers : Numbers)
    → All (λ n. is_stored acp_id more n ≡ true) numbers
    → All (λ n. is_stored acp_id (table ++ more) n ≡ true) numbers
stored_right acp_id table more [] h = tt
stored_right acp_id table more (n ∷ numbers) h = (
  rw (stored_append acp_id table more n) (ground (arith, h.0)),
  stored_right acp_id table more numbers h.1,
)

module _ (hash : Text → Text) where
  assigned_rows :
      (acp_id : String) (table : List RowNumber) (rows : List ItemRow) (numbers : Numbers)
      (key : Text)
      → find_assigned_numbers hash acp_id table rows ≡ ok numbers
      → contains key (keys numbers) ≡ true
      → contains key (row_keys rows) ≡ true
  unfolding find_assigned_numbers
  assigned_rows acp_id table [] numbers key e c = absurd (ground arith)
  assigned_rows acp_id table (r ∷ rows) numbers key e c =
      let (rest, found, last) = >>=-eq-ok (find_assigned_numbers hash acp_id table rows) _ e in
      ground (arith, last, assigned_rows acp_id table rows rest key found)

  assigned_stored :
      (acp_id : String) (table : List RowNumber) (rows : List ItemRow) (numbers : Numbers)
      → find_assigned_numbers hash acp_id table rows ≡ ok numbers
      → All (λ n. is_stored acp_id table n ≡ true) numbers
  unfolding find_assigned_numbers find_entry
  assigned_stored acp_id table [] numbers e =
      let empty : [] ≡ numbers = ground arith in rw (← empty) tt
  assigned_stored acp_id table (r ∷ rows) numbers e =
      let (rest, found, last) = >>=-eq-ok (find_assigned_numbers hash acp_id table rows) _ e in
      let before = assigned_stored acp_id table rows rest found in
      elim (Option-cases (find_entry hash acp_id table r)) [
        | inl new ↦ let kept : rest ≡ numbers = ground arith in rw (← kept) before
        | inr (x, known) ↦
            let kept : (r.row_key, x.row_number) ∷ rest ≡ numbers = ground arith in
            rw (← kept) (
              stored_of_find acp_id r.row_key (hash r.row_key) table x known (ground arith),
              before,
            )
      ]

  stored_new :
      (acp_id : String) (numbers : Numbers)
      → All (λ n. is_stored acp_id (entries_of hash acp_id numbers) n ≡ true) numbers
  unfolding entries_of
  stored_new acp_id [] = tt
  stored_new acp_id (n ∷ numbers) = (
    ground (arith, str_eq_iff acp_id acp_id, text_beq_iff n.0 n.0, ==_iff n.1 n.1),
    stored_behind acp_id
        (record { acp_id = acp_id; row_key = n.0; row_key_hash = hash n.0; row_number = n.1 })
        (entries_of hash acp_id numbers) numbers (stored_new acp_id numbers),
  )

module _ (collate : Text → Text → Ordering) (hash : Text → Text) where
  new_numbers-IsNumbered :
      (acp_id : String) (table : List RowNumber) (numbers : Numbers) (rows : List ItemRow)
      → IsNumbered acp_id table
      → IsNumbered acp_id
          (table ++ entries_of hash acp_id (new_numbers collate acp_id table numbers rows))
  unfolding new_numbers
  new_numbers-IsNumbered acp_id table numbers rows h =
      let last = max_number acp_id table in
      let new = sort_rows collate (missing_from numbers rows) in
      let counted : row_numbers (of_acp acp_id (entries_of hash acp_id (count_up last new)))
          ≡ numbers_from (suc last) (length new) =
        rw
          (
            of_acp-entries_of hash acp_id (count_up last new),
            row_numbers-entries_of hash acp_id (count_up last new),
          )
          (values-count_up last new) in
      let fresh =
        fresh_numbers last (row_numbers (of_acp acp_id table))
          (numbers_from (suc last) (length new)) (max_number-le acp_id table)
          (numbers_from-le (suc last) (length new)) in
      record {
        distinct =
            rw (of_acp-append, map-append, counted)
              (append-IsDistinct (row_numbers (of_acp acp_id table))
                (numbers_from (suc last) (length new)) h.distinct
                (numbers_from-IsDistinct (suc last) (length new)) fresh);
        positive =
            rw (of_acp-append, map-append, counted)
              (All-append (λ v. 1 ≤ v) (row_numbers (of_acp acp_id table))
                (numbers_from (suc last) (length new)) h.positive
                (positive_from last (length new)));
      }

  new_numbers-keys :
      (acp_id : String) (table : List RowNumber) (numbers : Numbers) (rows : List ItemRow)
      (key : Text)
      → (contains key (keys numbers) ≡ true → contains key (row_keys rows) ≡ true)
      → contains key (keys (numbers ++ new_numbers collate acp_id table numbers rows))
        ≡ contains key (row_keys rows)
  unfolding new_numbers
  new_numbers-keys acp_id table numbers rows key h =
      let missing = missing_from numbers rows in
      rw map-append (
        rw (contains-append key (keys numbers) _, keys-count_up)
          (rw (contains-sort_rows collate missing key, contains-missing_from numbers rows key)
            (ground arith)))

  -- what a call comes back with, for keys `key` of the wanted rows
  IsAssigned :
      String → List RowNumber → List RowNumber → (Text → Bool) → Numbers → List RowNumber → Type 0
  IsAssigned acp_id read table wanted numbers result =
      IsNumbered acp_id result
      × ((new : Numbers) × (result ≡ table ++ entries_of hash acp_id new))
      × ((key : Text) → contains key (keys numbers) ≡ wanted key)
      × All (λ n. is_stored acp_id (read ++ result) n ≡ true) numbers

  assign_locked-IsAssigned :
      (acp_id : String) (rows : List ItemRow) (read table : List RowNumber) (numbers : Numbers)
      (result : List RowNumber)
      → assign_locked collate hash acp_id rows table ≡ ok (numbers, result)
      → IsNumbered acp_id table
      → IsAssigned acp_id read table (λ key. contains key (row_keys rows)) numbers result
  unfolding assign_locked IsAssigned
  assign_locked-IsAssigned acp_id rows read table numbers result e h =
      let (known, found, last) = >>=-eq-ok (find_assigned_numbers hash acp_id table rows) _ e in
      let new = new_numbers collate acp_id table known rows in
      let all : known ++ new ≡ numbers = ground arith in
      let whole : table ++ entries_of hash acp_id new ≡ result = ground arith in
      let old_stored =
        stored_left acp_id table (entries_of hash acp_id new) known
          (assigned_stored hash acp_id table rows known found) in
      let new_stored =
        stored_right acp_id table (entries_of hash acp_id new) new (stored_new hash acp_id new) in
      rw (← all, ← whole)
        (
          new_numbers-IsNumbered acp_id table known rows h,
          (new, refl),
          (λ key.
              new_numbers-keys acp_id table known rows key
                (assigned_rows hash acp_id table rows known key found)),
          stored_right acp_id read (table ++ entries_of hash acp_id new) (known ++ new) (
              All-append (λ n. is_stored acp_id (table ++ entries_of hash acp_id new) n ≡ true)
                known new old_stored new_stored),
        )

  -- Assigning keeps the numbers of an ACP distinct and at least 1, adds entries of that ACP only,
  -- behind the others, and gives every requested row, and no other, a number that is stored.
  pub assign_numbers-IsNumbered :
      (acps : List String) (acp_id : String) (rows : List ItemRow) (read table : List RowNumber)
      (numbers : Numbers) (result : List RowNumber)
      → assign_numbers collate hash acps acp_id rows read table ≡ ok (numbers, result)
      → IsNumbered acp_id table
      → IsNumbered acp_id result
        × ((new : Numbers) × (result ≡ table ++ entries_of hash acp_id new))
        × ((key : Text) → contains key (keys numbers) ≡ requested rows key)
        × All (λ n. is_stored acp_id (read ++ result) n ≡ true) numbers
  unfolding assign_numbers entries_of IsAssigned
  assign_numbers-IsNumbered acps acp_id rows read table numbers result e h =
      let wanted = normalize_rows [] rows in
      let (early, found, rest) = >>=-eq-ok (find_assigned_numbers hash acp_id read wanted) _ e in
      elim (Bool-cases (are_numbered early wanted)) [
        | inl complete ↦
            let all : early ≡ numbers = ground arith in
            let whole : table ≡ result = ground arith in
            rw (← all, ← whole)
              (
                h,
                ([], sym (append-nil table)),
                (λ key.
                    Bool_ext (contains key (keys early)) (requested rows key)
                      (λ c.
                        rw (← normalize_rows-requested rows key)
                          (assigned_rows hash acp_id read wanted early key found c))
                      (λ c.
                        every_contained early wanted key complete
                          (rw (normalize_rows-requested rows key) c))),
                stored_left acp_id read table early
                    (assigned_stored hash acp_id read wanted early found),
              )
        | inr some_missing ↦
            let locked : with_acp_lock acps acp_id (assign_locked collate hash acp_id wanted table)
                ≡ ok (numbers, result) =
              (rw some_missing at rest) in
            let (_, _, worked) =
              >>=-eq-ok (throw_if (not (contains acp_id acps)) not_found) _ locked in
            let (a, b, c, d) =
              assign_locked-IsAssigned acp_id wanted read table numbers result worked h in
            (a, b, (λ key. c key ∙ normalize_rows-requested rows key), d)
      ]

-- ===== src/Collections/RowLaws.antt =====
-- What a mutation of the rows leaves: row keys again, and a valid state.
use content_pool_next.Base.{
  false, not, ◌+◌, List, [], ◌∷◌, ◌++◌, contains, length, length-append, filter, any, ltb, All,
  All-append, All-filter, append-IsDistinct, filter-IsDistinct, length-filter-le, ◌≡◌, refl, arith,
  Bool-cases, inl, inr,
}
use content_pool_next.Base.Text.{Text, text_eq}
use content_pool_next.Base.Http.{ok, bad_request, throw_if, >>=-eq-ok}
use content_pool_next.Collections.{StoredItemCollection, State, max_collection_rows}
use content_pool_next.Collections.Normalize.{normalize_row_keys}
use content_pool_next.Collections.KeyLaws.{IsRowKey, AreRowKeys, normalize_row_keys-AreRowKeys}
use content_pool_next.Collections.Invariant.{IsValid, with_collection-IsValid}
use content_pool_next.Collections.UpdateLaws.{checked_collection_lem, found-IsStored}
use content_pool_next.Collections.Operations
use content_pool_next.Collections.Operations.{
  CollectionUpdate, RowsMutation, RowsAction, RowsChange, add, remove, clear_all, adding, removing,
  clearing,
}

additions-fresh :
    (stored keys : List Text)
    → All (λ k. contains k stored ≡ false) (Operations.additions_of stored keys)
additions-fresh stored [] = tt
additions-fresh stored (k ∷ keys) = elim (Bool-cases (contains k stored)) [
  | inl old ↦ rw old (additions-fresh stored keys)
  | inr new ↦ rw new (new, additions-fresh stored keys)
]

-- The rows that a mutation leaves are row keys again.
next_rows-AreRowKeys :
    (known stored : List Text) (change : RowsChange) (next : List Text)
    → AreRowKeys stored
    → ((keys : List Text) → change ≡ adding keys → AreRowKeys keys)
    → Operations.next_rows known stored change ≡ ok next
    → AreRowKeys next
unfolding Operations.next_rows
next_rows-AreRowKeys known stored (adding keys) next h k e =
    let given = k keys refl in
    let new = Operations.additions_of stored keys in
    let (_, _, rest) =
      >>=-eq-ok (throw_if (any (λ key. not (contains key known)) new) bad_request) _ e in
    let (_, fits, final) =
      >>=-eq-ok (throw_if (ltb max_collection_rows (length stored + length new)) bad_request) _
        rest in
    let appended : stored ++ new ≡ next = ground arith in
    rw (← appended) (record {
      valid =
          All-append IsRowKey stored new h.valid
            (All-filter IsRowKey (λ key. not (contains key stored)) keys given.valid);
      distinct =
          append-IsDistinct stored new h.distinct
            (filter-IsDistinct (λ key. not (contains key stored)) keys given.distinct)
            (additions-fresh stored keys);
      bounded = ground (arith, length-append stored new);
    })
next_rows-AreRowKeys known stored (removing keys) next h k e =
    let kept : filter (λ key. not (contains key keys)) stored ≡ next = ground arith in
    rw (← kept) (record {
      valid = All-filter IsRowKey (λ key. not (contains key keys)) stored h.valid;
      distinct = filter-IsDistinct (λ key. not (contains key keys)) stored h.distinct;
      bounded = omega (arith, h.bounded, length-filter-le (λ key. not (contains key keys)) stored);
    })
next_rows-AreRowKeys known stored clearing next h k e =
    let emptied : [] ≡ next = ground arith in
    rw (← emptied) (record { valid = tt; distinct = tt; bounded = omega arith })

normalized_change-AreRowKeys :
    (action : RowsAction) (change : RowsChange)
    → Operations.normalized_change action ≡ ok change
    → (keys : List Text) → change ≡ adding keys
    → AreRowKeys keys
unfolding Operations.normalized_change
normalized_change-AreRowKeys (add raw) change e keys p =
    normalize_row_keys-AreRowKeys raw keys
      (let (m, accepted, kept) = >>=-eq-ok (normalize_row_keys raw) _ e in ground arith)
normalized_change-AreRowKeys (remove raw) change e keys p =
    let (m, accepted, kept) = >>=-eq-ok (normalize_row_keys raw) _ e in absurd (ground arith)
normalized_change-AreRowKeys clear_all change e keys p = absurd (ground arith)

pub mutate-IsValid :
    (id now : Text) (known : List Text) (mutation : RowsMutation) (s t : State)
    → IsValid s
    → Operations.mutate_item_collection_rows id now known mutation s ≡ ok t
    → IsValid t
unfolding Operations.mutate_item_collection_rows
mutate-IsValid id now known mutation s t v e =
    let (action, _, rest) =
      >>=-eq-ok
        (Operations.rows_action mutation.add_row_keys mutation.remove_row_keys mutation.clear) _
        e in
    let (change, normalized, applied) = >>=-eq-ok (Operations.normalized_change action) _ rest in
    let (c, checked, last) =
      >>=-eq-ok (Operations.checked_collection id mutation.base_version s) _ applied in
    let (found, here, _) = checked_collection_lem id mutation.base_version s c checked in
    let h = found-IsStored id s c v found in
    let (next, rows, final) = >>=-eq-ok (Operations.next_rows known c.row_keys change) _ last in
    let keys =
      next_rows-AreRowKeys known c.row_keys change next h.keys
        (normalized_change-AreRowKeys action change normalized) rows in
    let changed : StoredItemCollection = record c {
      row_keys = next;
      version = c.version + 1;
      updated_at = now;
    } in
    let valid =
      with_collection-IsValid id changed s here
        (record {
          id_trimmed = h.id_trimmed;
          id_given = h.id_given;
          name_given = h.name_given;
          name_short = h.name_short;
          keys = keys;
          counted = omega arith;
        })
        v in
    elim (Bool-cases (Operations.rows_changed next c.row_keys)) [
      | inl moved ↦
          let result : Operations.with_collection id changed s ≡ t = ground arith in
          rw (← result) valid
      | inr still ↦ let result : s ≡ t = ground arith in rw (← result) v
    ]

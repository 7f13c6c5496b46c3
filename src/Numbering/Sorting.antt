-- ===== src/Numbering/Sorting.antt =====
-- Sorting rows: the same rows, in the order of the collator.
use Prim.Native.Nat.{Ordering}
use content_pool_next.Base.{
  Bool, true, false, not, ◌&&◌, ◌||◌, List, [], ◌∷◌, map, contains, same, IsDistinct, ◌≡◌, refl,
  arith, Bool-cases, inl, inr, is_empty,
}
use content_pool_next.Base.Text.{Text, text_eq, text_beq_iff, trim}
use content_pool_next.Numbering.{
  ItemRow, normalize_rows, compare_rows, insert_row, sort_rows, is_gt, or_else,
}

abbrev pub row_keys : List ItemRow → List Text
row_keys = map (λ r. r.row_key)

abbrev pub flip : Ordering → Ordering
flip Ordering.lt = Ordering.gt
flip Ordering.eq = Ordering.eq
flip Ordering.gt = Ordering.lt

-- the keys that a request names, trimmed, without the blank ones
abbrev pub requested : List ItemRow → Text → Bool
requested [] key = false
requested (r ∷ rows) key =
    (not (is_empty (trim r.row_key)) && same (trim r.row_key) key) || requested rows key

contains-normalize_rows :
    (seen : List Text) (rows : List ItemRow) (key : Text)
    → contains key (row_keys (normalize_rows seen rows))
      ≡ (requested rows key && not (contains key seen))
unfolding normalize_rows
contains-normalize_rows seen [] key = refl
contains-normalize_rows seen (r ∷ rows) key = ground (
  arith,
  contains-normalize_rows seen rows key,
  contains-normalize_rows (trim r.row_key ∷ seen) rows key,
  text_beq_iff (trim r.row_key) key,
)

-- A request's rows are numbered under each key that it names, once.
pub normalize_rows-requested :
    (rows : List ItemRow) (key : Text)
    → contains key (row_keys (normalize_rows [] rows)) ≡ requested rows key
normalize_rows-requested rows key = ground (arith, contains-normalize_rows [] rows key)

pub normalize_rows-IsDistinct :
    (seen : List Text) (rows : List ItemRow) → IsDistinct (row_keys (normalize_rows seen rows))
unfolding normalize_rows
normalize_rows-IsDistinct seen [] = tt
normalize_rows-IsDistinct seen (r ∷ rows) = ground (
  arith,
  normalize_rows-IsDistinct seen rows,
  normalize_rows-IsDistinct (trim r.row_key ∷ seen) rows,
  contains-normalize_rows (trim r.row_key ∷ seen) rows (trim r.row_key),
  text_beq_iff (trim r.row_key) (trim r.row_key),
)

flip-or_else : (o p : Ordering) → or_else (flip o) (flip p) ≡ flip (or_else o p)
flip-or_else Ordering.lt p = refl
flip-or_else Ordering.eq p = refl
flip-or_else Ordering.gt p = refl

not_both_gt : (o : Ordering) → is_gt o ≡ true → is_gt (flip o) ≡ false
not_both_gt Ordering.lt h = cc
not_both_gt Ordering.eq h = cc
not_both_gt Ordering.gt h = refl

module _ (collate : Text → Text → Ordering) where
  contains-insert_row :
      (r : ItemRow) (rows : List ItemRow) (key : Text)
      → contains key (row_keys (insert_row collate r rows))
        ≡ (same r.row_key key || contains key (row_keys rows))
  unfolding insert_row
  contains-insert_row r [] key = refl
  contains-insert_row r (s ∷ rows) key = elim (Bool-cases (is_gt (compare_rows collate r s))) [
    | inl later ↦ rw (later, contains-insert_row r rows key) (ground arith)
    | inr here ↦ rw here
  ]

  -- Sorting keeps the keys.
  pub contains-sort_rows :
      (rows : List ItemRow) (key : Text)
      → contains key (row_keys (sort_rows collate rows)) ≡ contains key (row_keys rows)
  unfolding sort_rows
  contains-sort_rows [] key = refl
  contains-sort_rows (r ∷ rows) key =
      rw (contains-insert_row r (sort_rows collate rows) key, contains-sort_rows rows key)

  insert_row-IsDistinct :
      (r : ItemRow) (rows : List ItemRow)
      → contains r.row_key (row_keys rows) ≡ false
      → IsDistinct (row_keys rows)
      → IsDistinct (row_keys (insert_row collate r rows))
  unfolding insert_row
  insert_row-IsDistinct r [] fresh h = (refl, tt)
  insert_row-IsDistinct r (s ∷ rows) fresh h =
      elim (Bool-cases (is_gt (compare_rows collate r s))) [
        | inl later ↦ rw later (
          rw (contains-insert_row r rows s.row_key)
              (ground (arith, text_beq_iff r.row_key s.row_key, text_beq_iff s.row_key r.row_key)),
          insert_row-IsDistinct r rows (ground arith) h.1,
        )
        | inr here ↦ rw here (fresh, h)
      ]

  pub sort_rows-IsDistinct :
      (rows : List ItemRow)
      → IsDistinct (row_keys rows)
      → IsDistinct (row_keys (sort_rows collate rows))
  unfolding sort_rows
  sort_rows-IsDistinct [] h = tt
  sort_rows-IsDistinct (r ∷ rows) h =
      insert_row-IsDistinct r (sort_rows collate rows) (rw (contains-sort_rows rows r.row_key) h.0)
        (sort_rows-IsDistinct rows h.1)

  -- No row comes after its successor.
  unfoldable pub IsSorted : List ItemRow → Type 0
  IsSorted [] = Unit
  IsSorted (r ∷ []) = Unit
  IsSorted (r ∷ s ∷ rows) = (is_gt (compare_rows collate r s) ≡ false) × IsSorted (s ∷ rows)

  module _ (antisymmetric : (a b : Text) → collate b a ≡ flip (collate a b)) where
    compare_rows-flip : (r s : ItemRow) → compare_rows collate s r ≡ flip (compare_rows collate r s)
    unfolding compare_rows
    compare_rows-flip r s = rw (
      antisymmetric r.item_id s.item_id,
      antisymmetric r.sub_id s.sub_id,
      antisymmetric r.unit_id s.unit_id,
      antisymmetric r.row_key s.row_key,
      flip-or_else (collate r.unit_id s.unit_id) (collate r.row_key s.row_key),
      flip-or_else (collate r.sub_id s.sub_id) _,
      flip-or_else (collate r.item_id s.item_id) _,
    )

    after :
        (r s : ItemRow)
        → is_gt (compare_rows collate r s) ≡ true
        → is_gt (compare_rows collate s r) ≡ false
    after r s h = rw (compare_rows-flip r s) (not_both_gt (compare_rows collate r s) h)

    insert_row-IsSorted :
        (r : ItemRow) (rows : List ItemRow) → IsSorted rows → IsSorted (insert_row collate r rows)
    unfolding insert_row IsSorted
    insert_row-IsSorted r [] h = tt
    insert_row-IsSorted r (s ∷ []) h = elim (Bool-cases (is_gt (compare_rows collate r s))) [
      | inl later ↦ rw later (after r s later, tt)
      | inr here ↦ rw here (here, tt)
    ]
    insert_row-IsSorted r (s ∷ t ∷ rows) h = elim (Bool-cases (is_gt (compare_rows collate r s))) [
      | inl later ↦
          let rest = insert_row-IsSorted r (t ∷ rows) h.1 in
          rw later (elim (Bool-cases (is_gt (compare_rows collate r t))) [
            | inl beyond ↦ rw beyond (h.0, (rw beyond at rest))
            | inr here ↦ rw here (after r s later, (rw here at rest))
          ])
      | inr here ↦ rw here (here, h)
    ]

    -- Sorted rows stand in the order of the collator.
    pub sort_rows-IsSorted : (rows : List ItemRow) → IsSorted (sort_rows collate rows)
    unfolding sort_rows IsSorted
    sort_rows-IsSorted [] = tt
    sort_rows-IsSorted (r ∷ rows) =
        insert_row-IsSorted r (sort_rows collate rows) (sort_rows-IsSorted rows)

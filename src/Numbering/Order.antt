-- ===== src/Numbering/Order.antt =====
-- What the sorted rows of backend/src/files/item-row-numbering.service.ts are, without its
-- comparison and its normalization: rows of the request, in the order of the collator.
use Prim.Native.Nat.{Ordering}
use content_pool_next.Base.{
  true, List, [], ◌∷◌, ◌≡◌, refl, arith, All, Bool-cases, inl, inr, Memᴰ, is_empty, contains, ◌||◌,
}
use content_pool_next.Base.Text.{Text, text_eq, trim}
use content_pool_next.Numbering.{
  ItemRow, normalize_rows, compare_rows, insert_row, sort_rows, is_gt,
}
use content_pool_next.Numbering.Sorting.{IsSorted}

-- A row of the request, with its key trimmed.
pub record IsFrom (rows : List ItemRow) (row : ItemRow) : Type 0 where
  pub origin : ItemRow
  pub listed : Memᴰ origin rows
  pub trimmed : row ≡ record origin { row_key = trim origin.row_key }

normalize_rows-IsFrom :
    (request : List ItemRow) (seen : List Text) (rows : List ItemRow)
    → ((q : ItemRow) → Memᴰ q rows → Memᴰ q request)
    → All (IsFrom request) (normalize_rows seen rows)
unfolding normalize_rows
normalize_rows-IsFrom request seen [] within = tt
normalize_rows-IsFrom request seen (row ∷ rows) within =
    let later = λ (q : ItemRow) (m : Memᴰ q rows). within q (Memᴰ.tail m) in
    elim (Bool-cases (is_empty (trim row.row_key) || contains (trim row.row_key) seen)) [
      | inl skipped ↦ rw skipped (normalize_rows-IsFrom request seen rows later)
      | inr kept ↦ rw kept (
        record { origin = row; listed = within row (Memᴰ.head refl); trimmed = refl },
        normalize_rows-IsFrom request (trim row.row_key ∷ seen) rows later,
      )
    ]

pub normalize_rows-All : (rows : List ItemRow) → All (IsFrom rows) (normalize_rows [] rows)
normalize_rows-All rows = normalize_rows-IsFrom rows [] rows (λ q m. m)

module _ (collate : Text → Text → Ordering) where
  -- One row belongs after another: by the item, then the sub-id, then the unit, then the key.
  pub data IsAfter (r s : ItemRow) : Type 0 where
    by_item : collate r.item_id s.item_id ≡ Ordering.gt → IsAfter r s
    by_sub :
        collate r.item_id s.item_id ≡ Ordering.eq
        → collate r.sub_id s.sub_id ≡ Ordering.gt
        → IsAfter r s
    by_unit :
        collate r.item_id s.item_id ≡ Ordering.eq
        → collate r.sub_id s.sub_id ≡ Ordering.eq
        → collate r.unit_id s.unit_id ≡ Ordering.gt
        → IsAfter r s
    by_key :
        collate r.item_id s.item_id ≡ Ordering.eq
        → collate r.sub_id s.sub_id ≡ Ordering.eq
        → collate r.unit_id s.unit_id ≡ Ordering.eq
        → collate r.row_key s.row_key ≡ Ordering.gt
        → IsAfter r s

  -- No row belongs after its successor.
  pub IsInOrder : List ItemRow → Type 0
  IsInOrder [] = Unit
  IsInOrder (r ∷ []) = Unit
  IsInOrder (r ∷ s ∷ rows) = ¬ (IsAfter r s) × IsInOrder (s ∷ rows)

  IsAfter-compare_rows : (r s : ItemRow) → IsAfter r s → is_gt (compare_rows collate r s) ≡ true
  unfolding compare_rows
  IsAfter-compare_rows r s (by_item a) = rw a
  IsAfter-compare_rows r s (by_sub a b) = rw (a, b)
  IsAfter-compare_rows r s (by_unit a b c) = rw (a, b, c)
  IsAfter-compare_rows r s (by_key a b c d) = rw (a, b, c, d)

  pub IsSorted-IsInOrder : (rows : List ItemRow) → IsSorted collate rows → IsInOrder rows
  unfolding IsSorted IsInOrder
  IsSorted-IsInOrder [] h = tt
  IsSorted-IsInOrder (r ∷ []) h = tt
  IsSorted-IsInOrder (r ∷ s ∷ rows) h = (
    λ after. let later = IsAfter-compare_rows r s after in absurd (ground (arith, later, h.0)),
    IsSorted-IsInOrder (s ∷ rows) h.1,
  )

  insert_row-All :
      (P : ItemRow → Type 0) (r : ItemRow) (rows : List ItemRow)
      → P r
      → All P rows
      → All P (insert_row collate r rows)
  unfolding insert_row
  insert_row-All P r [] p h = (p, tt)
  insert_row-All P r (s ∷ rows) p h = elim (Bool-cases (is_gt (compare_rows collate r s))) [
    | inl later ↦ rw later (h.0, insert_row-All P r rows p h.1)
    | inr here ↦ rw here (p, h)
  ]

  -- Sorting adds no row.
  pub sort_rows-All :
      (P : ItemRow → Type 0) (rows : List ItemRow) → All P rows → All P (sort_rows collate rows)
  unfolding sort_rows
  sort_rows-All P [] h = tt
  sort_rows-All P (r ∷ rows) h =
      insert_row-All P r (sort_rows collate rows) h.0 (sort_rows-All P rows h.1)

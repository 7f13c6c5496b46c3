-- ===== src/Collections/Summary.antt =====
-- `calculateSummary` and `resolveViews` of backend/src/item-collections/
-- item-collections.service.ts. Times are whole seconds, and none where they are not finite.
use content_pool_next.Base.{
  ℕ, Bool, true, false, not, ◌&&◌, ◌+◌, Option, none, some, List, [], ◌∷◌, ◌++◌, map, filter, find,
  any, length, same, ◌==◌, if◌then◌else◌,
}
use content_pool_next.Base.Text.{Text, text_eq}
use content_pool_next.Collections.{StoredItemCollection, ViewMode, all, active, State}

pub record Item : Type 0 where
  pub row_key : Text
  pub uuid : Text
  pub unit_id : Text
  pub item_time : Option ℕ
  pub stimulus_time : Option ℕ

pub record Summary : Type 0 where
  pub row_count : ℕ
  pub item_count : ℕ
  pub unit_count : ℕ
  pub item_time : ℕ
  pub stimulus_time : ℕ
  pub test_time : ℕ
  pub missing_item_times : ℕ
  pub missing_stimulus_times : ℕ
  pub complete : Bool

-- A `Map` from a key to the rows that have it, in insertion order: `map.get(key) || []`, the push,
-- and the `set` that keeps the place of a key that is there.
unfoldable pub add_row : Text → Item → List (Text × List Item) → List (Text × List Item)
add_row key item [] = (key, item ∷ []) ∷ []
add_row key item ((k, rows) ∷ groups) =
    if same k key then (k, rows ++ item ∷ []) ∷ groups else (k, rows) ∷ add_row key item groups

-- the first loop, for one of the two maps
unfoldable pub group_by :
    (Item → Text) → List (Text × List Item) → List Item → List (Text × List Item)
unfolding add_row
group_by key groups [] = groups
group_by key groups (item ∷ items) = group_by key (add_row (key item) item groups) items

-- `rows.map((row) => row.time).find(Number.isFinite)`
unfoldable pub first_time : (Item → Option ℕ) → List Item → Option ℕ
first_time time [] = none
first_time time (row ∷ rows) = elim (time row) [ none ↦ first_time time rows | some t ↦ some t ]

-- the loop over the values of a map: the sum of the times and the number of groups without one
unfoldable pub sum_times : (Item → Option ℕ) → List (Text × List Item) → ℕ → ℕ → ℕ × ℕ
unfolding first_time
sum_times time [] total missing = (total, missing)
sum_times time ((k, rows) ∷ groups) total missing = elim (first_time time rows) [
  | none ↦ sum_times time groups total (missing + 1)
  | some t ↦ sum_times time groups (total + t) missing
]

unfoldable pub calculate_summary : List Item → ℕ → Summary
unfolding group_by sum_times
calculate_summary items selected_row_count =
    let unique_items = group_by (λ i. i.uuid) [] items in
    let unique_units = group_by (λ i. i.unit_id) [] items in
    let (item_time, missing_item_times) = sum_times (λ i. i.item_time) unique_items 0 0 in
    let (stimulus_time, missing_stimulus_times) =
      sum_times (λ i. i.stimulus_time) unique_units 0 0 in
    record {
      row_count = selected_row_count;
      item_count = length unique_items;
      unit_count = length unique_units;
      item_time = item_time;
      stimulus_time = stimulus_time;
      test_time = item_time + stimulus_time;
      missing_item_times = missing_item_times;
      missing_stimulus_times = missing_stimulus_times;
      complete = missing_item_times == 0 && missing_stimulus_times == 0;
    }

pub record CollectionView : Type 0 where
  pub collection : StoredItemCollection
  pub owner_label : Text
  pub owned : Bool
  pub unavailable : List Text
  pub summary : Summary

pub record Payload : Type 0 where
  pub active_id : Option Text
  pub view_mode : ViewMode
  pub collections : List CollectionView
  pub truncated : Bool

-- `itemsByRowKey.get(rowKey)`: of several items with one key the `Map` keeps the last.
unfoldable pub item_of_row : List Item → Text → Option Item
item_of_row [] key = none
item_of_row (i ∷ items) key = elim (item_of_row items key) [
  | some later ↦ some later
  | none ↦ if same i.row_key key then some i else none
]

abbrev pub is_found : Option Item → Bool
is_found none = false
is_found (some i) = true

-- the rows that have an item
unfoldable pub available_items : List Item → List Text → List Item
unfolding item_of_row
available_items items [] = []
available_items items (key ∷ keys) =
    let rest = available_items items keys in
    elim (item_of_row items key) [ none ↦ rest | some i ↦ i ∷ rest ]

unfoldable pub view_of : List Item → Bool → StoredItemCollection × Text → CollectionView
unfolding available_items calculate_summary
view_of items owned (c, label) = record {
  collection = c;
  owner_label = label;
  owned = owned;
  unavailable = filter (λ key. not (is_found (item_of_row items key))) c.row_keys;
  summary = calculate_summary (available_items items c.row_keys) (length c.row_keys);
}

abbrev pub has_id : Option Text → CollectionView → Bool
has_id none v = false
has_id (some id) v = same v.collection.id id

abbrev pub id_of_view : Option CollectionView → Option Text
id_of_view none = none
id_of_view (some v) = some v.collection.id

abbrev pub active_mode : ViewMode → Bool → ViewMode
active_mode active true = active
active_mode _ _ = all

-- the code units of "Ich"
abbrev pub own_label : Text
own_label = b'I' ∷ b'c' ∷ b'h' ∷ []

unfoldable pub resolve_views :
    List Item → State → List (StoredItemCollection × Text) × Bool → Payload
unfolding view_of
resolve_views items s (shared, truncated) =
    let views =
      map (λ c. view_of items true (c, own_label)) s.collections
      ++ map (view_of items false) shared in
    let found = any (has_id s.active_id) views in
    record {
      active_id =
          if found then s.active_id else id_of_view (find (λ (v : CollectionView). v.owned) views);
      view_mode = active_mode s.view_mode found;
      collections = views;
      truncated = truncated;
    }

-- What a mutation of the rows answers with (`resolveRowsMutationResult`).
pub record RowsMutationResult : Type 0 where
  pub collection_id : Text
  pub version : ℕ
  pub updated_at : Text
  pub summary : Summary

unfoldable pub resolve_rows_mutation_result : List Item → StoredItemCollection → RowsMutationResult
unfolding available_items calculate_summary
resolve_rows_mutation_result items c = record {
  collection_id = c.id;
  version = c.version;
  updated_at = c.updated_at;
  summary = calculate_summary (available_items items c.row_keys) (length c.row_keys);
}

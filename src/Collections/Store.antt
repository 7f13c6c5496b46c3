-- ===== src/Collections/Store.antt =====
-- `ItemCollectionStore.mutate` (backend/src/item-collections/item-collection.store.ts) with
-- `mutateState`: one transaction on one row of preferences, locked while the mutation runs. The
-- row keeps the three members that the statement sets; a mutation that throws leaves it as it was.
use content_pool_next.Base.{
  ℕ, Bool, true, false, Option, none, some, List, [], ◌∷◌, ◌++◌, map, take, length, ltb,
  if◌then◌else◌,
}
use content_pool_next.Base.Text.{Text, text_eq}
use content_pool_next.Base.Http.{Result, ok, err, not_found, ◌>>=◌, or_throw}
use content_pool_next.Collections.{
  StoredItemCollection, ViewMode, all, active, State, RawCollection, RawPreferences,
}
use content_pool_next.Collections.Normalize.{normalize_state}

abbrev pub raw_collection : StoredItemCollection → RawCollection
raw_collection c = record {
  id = c.id;
  name = c.name;
  row_keys = some (map some c.row_keys);
  version = some c.version;
  created_at = some c.created_at;
  updated_at = some c.updated_at;
  shared = c.shared;
}

abbrev pub raw_id : Option Text → Text
raw_id none = []
raw_id (some id) = id

abbrev pub is_active_mode : ViewMode → Bool
is_active_mode active = true
is_active_mode all = false

-- What is read back where the state has been written.
unfoldable pub raw_state : State → RawPreferences
raw_state s = record {
  collections = some (map (λ c. some (raw_collection c)) s.collections);
  active_id = raw_id s.active_id;
  view_is_active = is_active_mode s.view_mode;
}

-- The row that `insertIfMissing` creates holds no collections.
abbrev pub fresh_row : RawPreferences
fresh_row = record { collections = none; active_id = []; view_is_active = false }

abbrev pub locked_row : Bool → Option RawPreferences → Option RawPreferences
locked_row create_if_missing (some row) = some row
locked_row true none = some fresh_row
locked_row false none = none

abbrev pub max_shared_item_collections : ℕ
max_shared_item_collections = 1000

module _ (to_iso : Text → Option Text) (now : Text) where
  -- The new content of the row, and the state that the method goes on with.
  unfoldable pub mutate :
      Bool → Option RawPreferences → (State → Result State) → Result (RawPreferences × State)
  unfolding normalize_state raw_state
  mutate create_if_missing row mutation = do
    preferences ← or_throw (locked_row create_if_missing row) not_found
    locked ← normalize_state to_iso now preferences
    state ← mutation locked
    ok (raw_state state, state)

  -- The row after a request: a request that throws rolls its transaction back.
  unfoldable pub row_after :
      Bool → Option RawPreferences → (State → Result State) → Option RawPreferences
  unfolding mutate
  row_after create_if_missing row mutation = elim (mutate create_if_missing row mutation) [
    | err e ↦ row
    | ok (saved, state) ↦ some saved
  ]

  abbrev pub one_source : Option RawCollection → RawPreferences
  one_source raw = record { collections = some (raw ∷ []); active_id = []; view_is_active = false }

  -- `collection?.shared ? [{ collection, ownerLabel }] : []`
  abbrev pub shared_only : List StoredItemCollection → Text → List (StoredItemCollection × Text)
  shared_only [] label = []
  shared_only (c ∷ cs) label = if c.shared then (c, label) ∷ [] else []

  unfoldable pub shared_sources :
      List (Option RawCollection × Text) → Result (List (StoredItemCollection × Text))
  unfolding normalize_state
  shared_sources [] = ok []
  shared_sources ((raw, label) ∷ raws) = do
    state ← normalize_state to_iso now (one_source raw)
    rest ← shared_sources raws
    ok (shared_only state.collections label ++ rest)

  -- `getSharedCollectionSources`: the rows come from the query, at most one more than are used.
  unfoldable pub shared_collection_sources :
      List (Option RawCollection × Text) → Result (List (StoredItemCollection × Text) × Bool)
  unfolding shared_sources
  shared_collection_sources rows = do
    sources ← shared_sources (take max_shared_item_collections rows)
    ok (sources, ltb max_shared_item_collections (length rows))

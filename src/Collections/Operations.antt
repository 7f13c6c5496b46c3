-- ===== src/Collections/Operations.antt =====
-- The mutations of backend/src/item-collections/item-collections.service.ts: what each method does
-- to the state it finds under the lock. A state that throws is discarded by the store.
use content_pool_next.Base.{
  ℕ, Bool, true, false, not, ◌&&◌, ◌||◌, ◌+◌, Option, none, some, List, [], ◌∷◌, ◌++◌, contains,
  length, filter, any, same, is_empty, leb, ltb, ◌==◌, if◌then◌else◌,
}
use content_pool_next.Base.Text.{Text, text_eq}
use content_pool_next.Base.Http.{
  Result, ok, err, bad_request, not_found, conflict, ◌>>=◌, ◌>>◌, throw_if, or_throw,
}
use content_pool_next.Collections.{
  StoredItemCollection, ViewMode, all, State, RawKeys, max_collection_rows, max_item_collections,
  find_collection, first_id,
}
use content_pool_next.Collections.Normalize.{normalize_name, normalize_row_keys}

-- `const collection = …find(…)` and the writes to it: the first collection of that id is replaced.
unfoldable pub replace_collection :
    Text → StoredItemCollection → List StoredItemCollection → List StoredItemCollection
replace_collection id c [] = []
replace_collection id c (d ∷ ds) = if same d.id id then c ∷ ds else d ∷ replace_collection id c ds

abbrev pub with_collection : Text → StoredItemCollection → State → State
with_collection id c s = record s { collections = replace_collection id c s.collections }

-- `rawName || "Meine Auswahlliste"`; the default's code units
abbrev pub default_name : Text
default_name =
    b'M' ∷ b'e' ∷ b'i' ∷ b'n' ∷ b'e' ∷ 32 ∷ b'A' ∷ b'u' ∷ b's' ∷ b'w' ∷ b'a' ∷ b'h' ∷ b'l' ∷ b'l'
    ∷ b'i' ∷ b's' ∷ b't' ∷ b'e' ∷ []

abbrev pub name_or_default : Option Text → Text
name_or_default none = default_name
name_or_default (some name) = if is_empty name then default_name else name

abbrev pub new_collection : Text → Text → List Text → Text → StoredItemCollection
new_collection id name row_keys now = record {
  id = id;
  name = name;
  row_keys = row_keys;
  version = 1;
  created_at = now;
  updated_at = now;
  shared = false;
}

-- the locked step of `createItemCollection` and `copyItemCollection`
unfoldable pub push_collection : StoredItemCollection → State → Result State
push_collection c s =
    if leb max_item_collections (length s.collections)
    then err bad_request
    else ok (record s { collections = s.collections ++ c ∷ []; active_id = some c.id })

-- `createItemCollection`; the new id and the present come from outside
unfoldable pub create_item_collection : Text → Text → Option Text → State → Result State
unfolding normalize_name push_collection
create_item_collection id now raw_name s = do
  name ← normalize_name (some (name_or_default raw_name))
  push_collection (new_collection id name [] now) s

-- `ownSource || sharedSource`
abbrev pub source_of :
    Text → List StoredItemCollection → List StoredItemCollection → Option StoredItemCollection
source_of id own shared = elim (find_collection id own) [
  | none ↦ find_collection id shared
  | some c ↦ some c
]

-- the code units of " (Kopie)"
abbrev pub copy_suffix : Text
copy_suffix = 32 ∷ b'(' ∷ b'K' ∷ b'o' ∷ b'p' ∷ b'i' ∷ b'e' ∷ b')' ∷ []

-- `copyItemCollection`: the source is found without the lock, in one's own collections and then in
-- the shared ones; the copy is added to the state under the lock.
unfoldable pub copy_item_collection :
    Text → Text → Text → State → List StoredItemCollection → State → Result State
unfolding normalize_name push_collection
copy_item_collection id now source_id own shared locked = do
  source ← or_throw (source_of source_id own.collections shared) not_found
  name ← normalize_name (some (source.name ++ copy_suffix))
  push_collection (new_collection id name source.row_keys now) locked

-- The collection of that id, if the request is based on its present version. The base version is
-- none where `Number(baseVersion)` is no whole number, or negative.
abbrev pub is_version : Option ℕ → ℕ → Bool
is_version none version = false
is_version (some base) version = base == version

unfoldable pub checked_collection : Text → Option ℕ → State → Result StoredItemCollection
checked_collection id base s = do
  c ← or_throw (find_collection id s.collections) not_found
  throw_if (not (is_version base c.version)) conflict
  ok c

-- The fields of an update: an outer `none` is `undefined`; a name `some none` is no text.
pub record CollectionUpdate : Type 0 where
  pub name : Option (Option Text)
  pub row_keys : Option RawKeys
  pub shared : Option Bool
  pub base_version : Option ℕ

abbrev pub normalized_name : Option (Option Text) → Result (Option Text)
normalized_name none = ok none
normalized_name (some raw) = do name ← normalize_name raw; ok (some name)

abbrev pub normalized_keys : Option RawKeys → Result (Option (List Text))
normalized_keys none = ok none
normalized_keys (some raw) = do keys ← normalize_row_keys raw; ok (some keys)

abbrev pub or_keep {ℓ} : {A : Type ℓ} → Option A → A → A
or_keep none old = old
or_keep (some new) old = new

-- a row key that may not be added: the files do not know it and it is not stored already
abbrev pub is_foreign : List Text → List Text → Text → Bool
is_foreign known stored key = not (contains key known) && not (contains key stored)

abbrev pub adds_foreign : List Text → List Text → Option (List Text) → Bool
adds_foreign known stored none = false
adds_foreign known stored (some keys) = any (is_foreign known stored) keys

-- The locked step of `updateItemCollection`, `known` being the row keys of the files.
unfoldable pub apply_update :
    Text
    → Text
    → List Text
    → Option ℕ
    → Option Text
    → Option Bool
    → Option (List Text)
    → State
    → Result State
unfolding checked_collection replace_collection
apply_update id now known base name shared keys s = do
  c ← checked_collection id base s
  throw_if (adds_foreign known c.row_keys keys) bad_request
  ok (
      with_collection id
        (record c {
          name = or_keep name c.name;
          shared = or_keep shared c.shared;
          row_keys = or_keep keys c.row_keys;
          version = c.version + 1;
          updated_at = now;
        })
        s)

unfoldable pub update_item_collection :
    Text → Text → List Text → CollectionUpdate → State → Result State
unfolding normalize_name normalize_row_keys apply_update
update_item_collection id now known update s = do
  name ← normalized_name update.name
  keys ← normalized_keys update.row_keys
  apply_update id now known update.base_version name update.shared keys s

-- A request to change the rows; `clear` is `value === true` where it is given.
pub record RowsMutation : Type 0 where
  pub add_row_keys : Option RawKeys
  pub remove_row_keys : Option RawKeys
  pub clear : Option Bool
  pub base_version : Option ℕ

-- Exactly one of the three, and `clear` only as `true`: the mutation that is asked for.
pub data RowsAction : Type 0 where
  add : RawKeys → RowsAction
  remove : RawKeys → RowsAction
  clear_all : RowsAction

unfoldable pub rows_action : Option RawKeys → Option RawKeys → Option Bool → Result RowsAction
rows_action (some keys) none none = ok (add keys)
rows_action none (some keys) none = ok (remove keys)
rows_action none none (some true) = ok clear_all
rows_action _ _ _ = err bad_request

-- the additions that are not stored yet
abbrev pub additions_of : List Text → List Text → List Text
additions_of stored keys = filter (λ key. not (contains key stored)) keys

-- `nextRowKeys` for additions
unfoldable pub add_rows : List Text → List Text → List Text → Result (List Text)
add_rows known stored keys = do
  throw_if (any (λ key. not (contains key known)) (additions_of stored keys)) bad_request
  throw_if (ltb max_collection_rows (length stored + length (additions_of stored keys))) bad_request
  ok (stored ++ additions_of stored keys)

-- `nextRowKeys` for removals
unfoldable pub remove_rows : List Text → List Text → List Text
remove_rows stored keys = filter (λ key. not (contains key keys)) stored

-- A mutation whose keys are normalized, which happens before the state is read.
pub data RowsChange : Type 0 where
  adding removing : List Text → RowsChange
  clearing : RowsChange

unfoldable pub normalized_change : RowsAction → Result RowsChange
unfolding normalize_row_keys
normalized_change (add raw) = do keys ← normalize_row_keys raw; ok (adding keys)
normalized_change (remove raw) = do keys ← normalize_row_keys raw; ok (removing keys)
normalized_change clear_all = ok clearing

-- `nextRowKeys`
unfoldable pub next_rows : List Text → List Text → RowsChange → Result (List Text)
unfolding add_rows remove_rows
next_rows known stored (adding keys) = add_rows known stored keys
next_rows known stored (removing keys) = ok (remove_rows stored keys)
next_rows known stored clearing = ok []

-- `nextRowKeys.some((rowKey, index) => rowKey !== collection.rowKeys[index])`
unfoldable pub differs_at_some : List Text → List Text → Bool
differs_at_some [] old = false
differs_at_some (k ∷ next) [] = true
differs_at_some (k ∷ next) (j ∷ old) = not (same k j) || differs_at_some next old

-- `changed`
unfoldable pub rows_changed : List Text → List Text → Bool
unfolding differs_at_some
rows_changed next old = not (length next == length old) || differs_at_some next old

-- the locked step of `mutateItemCollectionRows`
unfoldable pub apply_rows : Text → Text → List Text → Option ℕ → RowsChange → State → Result State
unfolding checked_collection next_rows rows_changed replace_collection
apply_rows id now known base change s = do
  c ← checked_collection id base s
  next ← next_rows known c.row_keys change
  ok (
      if rows_changed next c.row_keys
      then with_collection id
          (record c { row_keys = next; version = c.version + 1; updated_at = now }) s
      else s)

unfoldable pub mutate_item_collection_rows :
    Text → Text → List Text → RowsMutation → State → Result State
unfolding rows_action normalized_change apply_rows
mutate_item_collection_rows id now known mutation s = do
  action ← rows_action mutation.add_row_keys mutation.remove_row_keys mutation.clear
  change ← normalized_change action
  apply_rows id now known mutation.base_version change s

abbrev pub is_own_or_shared : Text → List StoredItemCollection → List Text → Bool
is_own_or_shared id own shared_ids = any (λ c. same c.id id) own || contains id shared_ids

-- the view mode that `activateItemCollection` leaves
abbrev pub activated_mode : Option Text → Option ViewMode → ViewMode → ViewMode
activated_mode none requested old = all
activated_mode (some id) none old = old
activated_mode (some id) (some requested) old = requested

-- `activateItemCollection`; `shared_ids` are the ids of the collections that others share. An id,
-- where there is one, is not empty.
unfoldable pub activate_item_collection :
    List Text → Option Text → Option ViewMode → State → Result State
activate_item_collection shared_ids none mode s =
    ok (record s { active_id = none; view_mode = activated_mode none mode s.view_mode })
activate_item_collection shared_ids (some id) mode s =
    if is_own_or_shared id s.collections shared_ids
    then ok
        (record s { active_id = some id; view_mode = activated_mode (some id) mode s.view_mode })
    else err not_found

-- `lockedState.activeCollectionId === collectionId`
abbrev pub is_active : Option Text → Text → Bool
is_active none id = false
is_active (some a) id = same a id

-- a view mode without an active collection is "all"
abbrev pub mode_with : Option Text → ViewMode → ViewMode
mode_with none mode = all
mode_with (some id) mode = mode

unfoldable pub delete_item_collection : Text → State → Result State
delete_item_collection id s =
    let rest = filter (λ c. not (same c.id id)) s.collections in
    let active_id = if is_active s.active_id id then first_id rest else s.active_id in
    if length rest == length s.collections
    then err not_found
    else ok (record s {
      collections = rest;
      active_id = active_id;
      view_mode = mode_with active_id s.view_mode;
    })

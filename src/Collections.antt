-- ===== src/Collections.antt =====
-- Item collections (backend/src/item-collections): the stored state of one person's collections
-- (item-collection.models.ts), and what JSON documents and requests may hold in its place.
pub mod Normalize
pub mod Operations
pub mod Store
pub mod Summary
pub mod Csv
pub mod KeyLaws
pub mod Invariant
pub mod UpdateLaws
pub mod RowLaws
pub mod Requests
pub mod RoundTrip
pub mod Versions
pub mod RowChanges
pub mod CsvLaws
mod Tests
use content_pool_next.Base.{
  ℕ, Bool, true, false, Option, none, some, List, [], ◌∷◌, same, find, if◌then◌else◌,
}
use content_pool_next.Base.Text.{Text, text_eq}

pub record StoredItemCollection : Type 0 where
  pub id : Text
  pub name : Text
  pub row_keys : List Text
  pub version : ℕ
  pub created_at : Text
  pub updated_at : Text
  pub shared : Bool

pub data ViewMode : Type 0 where
  all active : ViewMode

pub record State : Type 0 where
  pub collections : List StoredItemCollection
  pub active_id : Option Text
  pub view_mode : ViewMode

-- A value that should be an array of texts: `none` is no array, an entry `none` no text.
abbrev pub RawKeys : Type 0
RawKeys = Option (List (Option Text))

-- A stored collection as read from JSON: `id` and `name` are `String(value || "")`, `version` is
-- `Number(value)` or none where that is negative or no number, `shared` is `value === true`, and a
-- date is none where it is no text.
pub record RawCollection : Type 0 where
  pub id : Text
  pub name : Text
  pub row_keys : RawKeys
  pub version : Option ℕ
  pub created_at : Option Text
  pub updated_at : Option Text
  pub shared : Bool

-- The preferences as read from JSON. `collections` is none where it is no array, an entry none
-- where it is no object; `active_id` is `String(value || "")`.
pub record RawPreferences : Type 0 where
  pub collections : Option (List (Option RawCollection))
  pub active_id : Text
  pub view_is_active : Bool

abbrev pub max_collection_rows : ℕ
max_collection_rows = 10000

abbrev pub max_row_key_length : ℕ
max_row_key_length = 500

abbrev pub max_item_collections : ℕ
max_item_collections = 100

abbrev pub max_name_length : ℕ
max_name_length = 100

-- `collections.find((candidate) => candidate.id === id)`
abbrev pub find_collection : Text → List StoredItemCollection → Option StoredItemCollection
find_collection id = find (λ c. same c.id id)

-- `collections[0]?.id || null`, ids being non-empty
abbrev pub first_id : List StoredItemCollection → Option Text
first_id [] = none
first_id (c ∷ cs) = some c.id

-- ===== src/Columns/Projection.antt =====
-- What a reviewer gets of an item, of the shared state and of the settings of the columns:
-- `projectMetadata`, `projectItem`, `projectState` and `projectColumnSettings` of
-- backend/src/item-explorer/reviewer-column-policy.ts. The lists of keys are lists of texts.
use content_pool_next.Base.{
  String, string_eq, Bool, true, false, not, ◌||◌, List, [], ◌∷◌, ◌++◌, filter, dedupe, same,
  if◌then◌else◌,
}
use content_pool_next.Base.Json.{
  Value, bool, array, object, no_entries, Fields, no_members, field, record_of, member, set,
  filter_fields, map_fields, filter_entries, map_entries, text_of, texts_of, array_of,
}
use content_pool_next.Columns.{
  Policy, allows, allows_configured_column, allows_configured_metadata, allows_field,
  allows_metadata, position_columns,
}

-- a field that is there or not
abbrev pub field_if : Bool → String → Value → Fields → Fields
field_if true key value fields = field key value fields
field_if false key value fields = fields

module _ (policy : Policy) where
  unfoldable pub project_metadata : Value → Value
  unfolding allows_metadata
  project_metadata value = object (filter_fields (allows_metadata policy) (record_of value))

  -- one place of an item in a booklet
  unfoldable pub project_occurrence : Value → Value
  unfolding allows
  project_occurrence entry = object (
      field_if (allows policy "metadata:booklet") "booklet" (member "booklet" (record_of entry)) (
        field_if (allows policy "metadata:bookletPosition") "position"
          (member "position" (record_of entry)) no_members))

  unfoldable pub project_occurrences : Value → Value
  unfolding project_occurrence
  project_occurrences (array items) = array (map_entries project_occurrence items)
  project_occurrences _ = array no_entries

  -- one field of an item, in front of those behind it
  unfoldable pub project_field : String → Value → Fields → Fields
  unfolding project_metadata project_occurrences allows allows_field
  project_field key value rest =
      if same key "metadata"
      then field key (project_metadata value) rest
      else if same key "bookletOccurrences"
      then field_if (allows policy "metadata:booklet" || allows policy "metadata:bookletPosition")
          key (project_occurrences value) rest
      else field_if (allows_field policy key) key value rest

  unfoldable pub project_item_fields : Fields → Fields
  unfolding project_field
  project_item_fields no_members = no_members
  project_item_fields (field key value fields) =
      project_field key value (project_item_fields fields)

  unfoldable pub project_item : Value → Value
  unfolding project_item_fields
  project_item value =
      if not policy.restricted
      then object (record_of value)
      else object (project_item_fields (record_of value))

  abbrev pub filter_keys : Value → List String
  filter_keys keys = filter (allows_configured_column policy) (texts_of keys)

  abbrev pub project_configured_metadata : Value → Value
  project_configured_metadata metadata =
      object (filter_fields (allows_configured_metadata policy) (record_of metadata))

  abbrev pub filter_ids : Value → Value
  filter_ids ids = array_of (filter (allows_configured_metadata policy) (texts_of ids))

  -- the definitions of allowed columns
  abbrev pub filter_definitions : Value → Value
  filter_definitions (array items) = array (
      filter_entries (λ c. allows_configured_metadata policy (text_of (member "id" (record_of c))))
        items)
  filter_definitions _ = array no_entries

  abbrev pub default_visible : List String
  default_visible = position_columns policy.legacy_position_visible ++ "system:itemId" ∷ []

  unfoldable pub project_layout : Value → Value
  unfolding allows_configured_column
  project_layout layout =
      let fields = record_of layout in
      object (
        set "widths"
          (object
            (filter_fields (allows_configured_column policy) (record_of (member "widths" fields))))
          (set "order" (array_of (dedupe (default_visible ++ filter_keys (member "order" fields))))
            (set "visible"
              (array_of (dedupe (default_visible ++ filter_keys (member "visible" fields))))
              (set "configured" (bool true) fields))))

  unfoldable pub project_column_settings : Value → Value
  unfolding project_layout allows_configured_metadata
  project_column_settings value =
      let columns = record_of value in
      object (
        set "layout" (project_layout (member "layout" columns)) (
          set "definitions" (filter_definitions (member "definitions" columns)) (
            set "widths" (project_configured_metadata (member "widths" columns)) (
              set "order" (filter_ids (member "order" columns))
                (set "visible" (filter_ids (member "visible" columns)) columns)))))

  unfoldable pub project_state : Value → Value
  unfolding allows project_item project_column_settings
  project_state value =
      let state = record_of value in
      object (
        set "metadataColumns" (project_column_settings (member "metadataColumns" state)) (
          set "itemProperties"
            (object (map_fields project_item (record_of (member "itemProperties" state))))
            (set "tags"
              (if allows policy "system:tags" then member "tags" state else object no_members)
              (set "ui" (object no_members) state))))

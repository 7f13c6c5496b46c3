-- ===== src/Columns/Responses.antt =====
-- `projectResponse` of backend/src/item-explorer/reviewer-column-policy.ts: what a reviewer gets of
-- any response, at every depth.
use content_pool_next.Base.{
  String, string_eq, Bool, true, false, not, ◌&&◌, ◌||◌, none, some, List, [], ◌∷◌, contains, same,
  str_eq, if◌then◌else◌,
}
use content_pool_next.Base.Json.{
  Value, undefined, null, bool, number, string, date, array, object, Entries, no_entries, entry,
  Fields, no_members, field, record_of, member, has, set, map_fields, filter_entries, text_of,
}
use content_pool_next.Columns.{Policy, allows, allows_metadata, entry_of, field_columns}
use content_pool_next.Columns.Projection.{
  field_if, project_metadata, project_item, project_state, project_column_settings,
}

abbrev pub is_truthy : Value → Bool
is_truthy undefined = false
is_truthy null = false
is_truthy (bool b) = b
is_truthy (number n) = not (contains n ("0" ∷ "-0" ∷ "NaN" ∷ []))
is_truthy (string s) = not (str_eq s "")
is_truthy _ = true

abbrev pub is_array : Value → Bool
is_array (array items) = true
is_array _ = false

abbrev pub unit_keys : List String
unit_keys =
    "id" ∷ "unitId" ∷ "name" ∷ "lang" ∷ "items" ∷ "dependencies" ∷ "codingScheme" ∷ "richText" ∷ []

-- `array.filter((entry) => keep(entry.key))`
abbrev pub filter_by : String → (String → Bool) → Value → Value
filter_by key keep (array items) =
    array (filter_entries (λ e. keep (text_of (member key (record_of e)))) items)
filter_by key keep _ = array no_entries

module _ (policy : Policy) where
  unfoldable pub is_hidden_field : String → Bool
  unfolding allows
  is_hidden_field key = elim (entry_of key field_columns) [
    | none ↦ false
    | some column ↦ not (allows policy column)
  ]

  -- an item, which is neither the target of a comment nor a count
  abbrev pub is_item : String → Fields → Bool
  is_item context fields =
      (has "itemId" fields || (same context "items" && has "id" fields))
      && not (has "targetType" fields)
      && not (same context "counts")

  unfoldable pub with_published : Fields → Value
  unfolding project_state
  with_published fields =
      let published = project_state policy (member "publishedState" fields) in
      object (
        set "draftState" published
          (set "publishedState" published (set "activeState" published fields)))

  -- One field of an object, in front of those behind it; `deep` is the projection of its value.
  unfoldable pub respond_field : String → String → Value → Value → Fields → Fields
  unfolding allows allows_metadata is_hidden_field project_item project_metadata
      project_column_settings
  respond_field context key value deep rest =
      if same context "units" && not (contains key unit_keys)
      then rest
      else if same key "counts" && not (allows policy "system:comments")
      then field key (array no_entries) rest
      else if same key "acpIndex" || same key "validationResult"
      then rest
      else if same key "itemProperties"
      then field key (object (map_fields (project_item policy) (record_of value))) rest
      else if same key "metadata"
      then field key (project_metadata policy value) rest
      else if same key "metadataColumns"
      then field key (project_column_settings policy value) rest
      else if same key "columns" && is_array value
      then field key (filter_by "id" (allows_metadata policy) value) rest
      else if same key "unitMetadata"
      then field key
          (object (map_fields (filter_by "id" (allows_metadata policy)) (record_of value))) rest
      else if same key "dependencies" && is_array value
      then field key
          (filter_by "type" (λ t. contains t ("PLAYER" ∷ "UNIT_DEFINITION" ∷ "CODING_SCHEME" ∷ []))
            value)
          rest
      else if contains key ("name" ∷ "description" ∷ [])
          && same context "units"
          && not (allows policy "system:unitLabel")
      then rest
      else if is_hidden_field key
      then rest
      else if contains key ("rowData" ∷ "codingSchemes" ∷ [])
      then field key value rest
      else field key deep rest

  -- what is left of a sequence whose booklet column is hidden
  abbrev pub bare_sequence : Fields → Value → Value
  bare_sequence fields units = object (
      field "id" (member "id" fields) (
        field_if (is_truthy (member "kind" fields)) "kind" (member "kind" fields)
          (field_if (is_array (member "units" fields)) "units" units no_members)))

  -- an object, with its projected fields and its projected units
  unfoldable pub respond_object : String → Fields → Fields → Value → Value
  unfolding allows project_item with_published
  respond_object context fields projected units =
      if is_item context fields
      then project_item policy (object fields)
      else if has "publishedState" fields && has "draftState" fields
      then with_published fields
      else if same context "sequences" && not (allows policy "metadata:booklet")
      then bare_sequence fields units
      else object projected

  unfoldable mutual
    unfolding respond_field respond_object

    pub respond : String → Value → Value
    respond context (array items) = array (respond_entries context items)
    respond context (object fields) =
        respond_object context fields (respond_fields context fields) (respond_units fields)
    respond context undefined = undefined
    respond context null = null
    respond context (bool b) = bool b
    respond context (number n) = number n
    respond context (string s) = string s
    respond context (date d) = date d

    pub respond_entries : String → Entries → Entries
    respond_entries context no_entries = no_entries
    respond_entries context (entry v items) =
        entry (respond context v) (respond_entries context items)

    pub respond_fields : String → Fields → Fields
    respond_fields context no_members = no_members
    respond_fields context (field key v fields) =
        respond_field context key v (respond key v) (respond_fields context fields)

    -- `this.projectResponse(value.units, "units")`
    pub respond_units : Fields → Value
    respond_units no_members = undefined
    respond_units (field key v fields) =
        let here = respond "units" v in
        let behind = respond_units fields in if same key "units" then here else behind

  unfoldable pub project_response : Value → String → Value
  unfolding respond
  project_response value context = if not policy.restricted then value else respond context value

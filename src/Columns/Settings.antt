-- ===== src/Columns/Settings.antt =====
-- The settings of the columns name a reviewer allowed columns only.
use content_pool_next.Base.{
  String, string_eq, Bool, true, false, not, ◌&&◌, List, [], ◌∷◌, ◌++◌, map, filter, contains,
  contains-filter, contains-dedupe, dedupe, dedupe_from, same, All, All-append, ◌≡◌, refl, ap,
  arith, if◌then◌else◌, Bool-cases, inl, inr, str_eq_iff,
}
use content_pool_next.Base.Json.{
  Value, undefined, object, Fields, no_members, field, record_of, member, set, filter_fields,
  texts_of, texts_of-array_of, array_of, member-filter_fields,
}
use content_pool_next.Columns.{
  Policy, Columns, policy_of, normalize_column, allows, allows_configured_column,
  allows_configured_metadata, position_columns, configured_columns, is_legacy, is_personal,
}
use content_pool_next.Columns.Projection.{
  filter_keys, filter_ids, default_visible, project_layout, project_column_settings,
}

member-set :
    (key k : String) (v : Value) (fields : Fields)
    → member key (set k v fields) ≡ (if same k key then v else member key fields)
member-set key k v no_members = refl
member-set key k v (field l w fields) =
    ground (arith, member-set key k v fields, str_eq_iff l k, str_eq_iff l key, str_eq_iff k key)

All-filter_self :
    (keep : String → Bool) (list : List String) → All (λ c. keep c ≡ true) (filter keep list)
All-filter_self keep [] = tt
All-filter_self keep (c ∷ list) = elim (Bool-cases (keep c)) [
  | inl kept ↦ rw kept (kept, All-filter_self keep list)
  | inr gone ↦ rw gone (All-filter_self keep list)
]

All-dedupe_from :
    (P : String → Type 0) (seen list : List String) → All P list → All P (dedupe_from seen list)
All-dedupe_from P seen [] h = tt
All-dedupe_from P seen (c ∷ list) h = elim (Bool-cases (contains c seen)) [
  | inl again ↦ rw again (All-dedupe_from P (c ∷ seen) list h.1)
  | inr new ↦ rw new (h.0, All-dedupe_from P (c ∷ seen) list h.1)
]

item_id_chosen :
    (legacy : Bool) (more : List String)
    → contains "system:itemId"
        (map normalize_column (position_columns legacy ++ "system:itemId" ∷ more))
      ≡ true
unfolding normalize_column
item_id_chosen true more = refl
item_id_chosen false more = refl

abbrev chosen : Columns → List String
chosen columns = map normalize_column (
    position_columns (columns.restrict_reviewer_columns && is_legacy columns.layout)
    ++ "system:itemId" ∷ configured_columns columns.layout)

allowed_column :
    (columns : Columns) (column : String)
    → is_personal column ≡ false
    → contains column (chosen columns) ≡ true
    → allows (policy_of columns) column ≡ true
unfolding allows policy_of
allowed_column columns column shared there =
    rw
      (
        contains-filter (λ key. not (is_personal key)) column (dedupe (chosen columns)),
        contains-dedupe column (chosen columns),
        there,
        shared,
      )
      (ground arith)

-- The columns that need no choice are allowed: the item's id, and in a legacy layout its position.
default_allowed :
    (columns : Columns)
    → All
        (λ c. allows_configured_column (policy_of columns) c ≡ true)
        (default_visible (policy_of columns))
unfolding allows_configured_column normalize_column policy_of
default_allowed columns =
    let id = allowed_column columns "system:itemId" refl (
      item_id_chosen (columns.restrict_reviewer_columns && is_legacy columns.layout)
        (configured_columns columns.layout)) in
    defaults (λ c. allows_configured_column (policy_of columns) c ≡ true)
      (columns.restrict_reviewer_columns && is_legacy columns.layout) id
      (λ legacy. allowed_column columns "system:position" refl (
        ap
          (λ b. contains "system:position" (
            map normalize_column
              (position_columns b ++ "system:itemId" ∷ configured_columns columns.layout)))
          legacy))
  where
    defaults :
        (P : String → Type 0) (legacy : Bool)
        → P "system:itemId"
        → (legacy ≡ true → P "system:position")
        → All P (position_columns legacy ++ "system:itemId" ∷ [])
    defaults P true id position = (position refl, (id, tt))
    defaults P false id position = (id, tt)

with_item_id :
    (legacy : Bool) (more : List String)
    → contains "system:itemId" (dedupe ((position_columns legacy ++ "system:itemId" ∷ []) ++ more))
      ≡ true
with_item_id true more =
    contains-dedupe "system:itemId" ("system:position" ∷ "system:itemId" ∷ more)
with_item_id false more = contains-dedupe "system:itemId" ("system:itemId" ∷ more)

-- The layout that a projection of the settings holds.
abbrev pub layout_of : Value → Fields
layout_of settings = record_of (member "layout" (record_of settings))

module _ (policy : Policy) (value : Value) where
  abbrev settings : Fields
  settings = record_of (project_column_settings policy value)

  visible_ids : member "visible" settings ≡ filter_ids policy (member "visible" (record_of value))
  unfolding project_column_settings
  visible_ids = rw (member-set, member-set, member-set, member-set, member-set) refl

  order_ids : member "order" settings ≡ filter_ids policy (member "order" (record_of value))
  unfolding project_column_settings
  order_ids = rw (member-set, member-set, member-set, member-set) refl

  projected_layout :
      member "layout" settings ≡ project_layout policy (member "layout" (record_of value))
  unfolding project_column_settings
  projected_layout = rw member-set refl

  abbrev layout : Fields
  layout = record_of (member "layout" (record_of value))

  layout_visible :
      member "visible" (record_of (project_layout policy (member "layout" (record_of value))))
      ≡ array_of (dedupe (default_visible policy ++ filter_keys policy (member "visible" layout)))
  unfolding project_layout
  layout_visible = rw (member-set, member-set, member-set) refl

  layout_order :
      member "order" (record_of (project_layout policy (member "layout" (record_of value))))
      ≡ array_of (dedupe (default_visible policy ++ filter_keys policy (member "order" layout)))
  unfolding project_layout
  layout_order = rw (member-set, member-set) refl

  layout_widths :
      member "widths" (record_of (project_layout policy (member "layout" (record_of value))))
      ≡ object
          (filter_fields (allows_configured_column policy) (record_of (member "widths" layout)))
  unfolding project_layout
  layout_widths = rw member-set refl

shown_allowed :
    (columns : Columns) (keys : Value)
    → let policy = policy_of columns in
      All
        (λ c. allows_configured_column policy c ≡ true)
        (texts_of (array_of (dedupe (default_visible policy ++ filter_keys policy keys))))
shown_allowed columns keys =
    let policy = policy_of columns in
    let P = λ (c : String). allows_configured_column policy c ≡ true in
    rw (texts_of-array_of (dedupe (default_visible policy ++ filter_keys policy keys))) (
      All-dedupe_from P [] (default_visible policy ++ filter_keys policy keys) (
        All-append P (default_visible policy) (filter_keys policy keys) (default_allowed columns)
          (All-filter_self (allows_configured_column policy) (texts_of keys))))

-- Under the policy that some settings make, the projection of any settings names allowed columns only:
-- in the layout what is visible and the order, and for the metadata what is visible and the order. A
-- width in the layout is kept for an allowed column and for no other, and the item's id is visible.
pub project_column_settings-allowed :
    (columns : Columns) (value : Value) (key : String)
    → let policy = policy_of columns in
      let settings = project_column_settings policy value in
      All
        (λ c. allows_configured_column policy c ≡ true)
        (texts_of (member "visible" (layout_of settings)))
      × All
          (λ c. allows_configured_column policy c ≡ true)
          (texts_of (member "order" (layout_of settings)))
      × All
          (λ id. allows_configured_metadata policy id ≡ true)
          (texts_of (member "visible" (record_of settings)))
      × All
          (λ id. allows_configured_metadata policy id ≡ true)
          (texts_of (member "order" (record_of settings)))
      × (member key (record_of (member "widths" (layout_of settings))) ≡ (
          if allows_configured_column policy key
          then member key (record_of (member "widths" (layout_of value)))
          else undefined))
      × (contains "system:itemId" (texts_of (member "visible" (layout_of settings))) ≡ true)
project_column_settings-allowed columns value key =
    let policy = policy_of columns in
    let shown = layout policy value in
    rw
      (
        projected_layout policy value,
        layout_visible policy value,
        layout_order policy value,
        layout_widths policy value,
        visible_ids policy value,
        order_ids policy value,
      )
      (
        shown_allowed columns (member "visible" shown),
        shown_allowed columns (member "order" shown),
        ids_allowed policy (member "visible" (record_of value)),
        ids_allowed policy (member "order" (record_of value)),
        member-filter_fields (allows_configured_column policy) key
            (record_of (member "widths" shown)),
        rw
            (texts_of-array_of
              (dedupe (default_visible policy ++ filter_keys policy (member "visible" shown))))
            (with_item_id policy.legacy_position_visible
              (filter_keys policy (member "visible" shown))),
      )
  where
    ids_allowed :
        (policy : Policy) (list : Value)
        → All
            (λ id. allows_configured_metadata policy id ≡ true)
            (texts_of (filter_ids policy list))
    ids_allowed policy list =
        rw (texts_of-array_of (filter (allows_configured_metadata policy) (texts_of list)))
          (All-filter_self (allows_configured_metadata policy) (texts_of list))

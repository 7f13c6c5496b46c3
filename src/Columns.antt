-- ===== src/Columns.antt =====
-- Which columns of the item table reach a reviewer: ReviewerColumnPolicy
-- (backend/src/item-explorer/reviewer-column-policy.ts).
pub mod Projection
pub mod Responses
pub mod Reviews
pub mod Released
pub mod Settings
mod Tests
use Prim.Native.String.{◌++◌ as ◌+++◌}
use text.Mathlib.Text.{starts_with}
use content_pool_next.Base.{
  ℕ, ltb, String, string_eq, Bool, true, false, not, ◌&&◌, ◌||◌, Option, none, some, List, [], ◌∷◌,
  ◌++◌, map, filter, find, contains, dedupe, same, if◌then◌else◌,
}

-- `FIELD_COLUMNS`
abbrev pub field_columns : List (String × String)
field_columns =
    ("unitLabel", "system:unitLabel")
    ∷ ("unitName", "system:unitLabel")
    ∷ ("rowNumber", "system:referenceNumber")
    ∷ ("subIdDisplay", "system:subId")
    ∷ ("empiricalDifficulty", "system:empiricalDifficulty")
    ∷ ("meanTaskDifficulty", "system:meanTaskDifficulty")
    ∷ ("tags", "system:tags")
    ∷ ("commentCount", "system:comments")
    ∷ ("bista", "metadata:bista")
    ∷ ("infit", "metadata:infit")
    ∷ ("discrimination", "metadata:discrimination")
    ∷ ("solutionRate", "metadata:solutionRate")
    ∷ ("textComplexity", "metadata:textComplexity")
    ∷ ("competenceLevel", "metadata:competenceLevel")
    ∷ ("itemTimeSeconds", "metadata:itemTimeSeconds")
    ∷ ("stimulusTimeSeconds", "metadata:stimulusTimeSeconds")
    ∷ ("booklets", "metadata:booklet")
    ∷ ("bookletPositions", "metadata:bookletPosition")
    ∷ []

abbrev pub time_column_aliases : List (String × String)
time_column_aliases =
    ("metadata:iqb_time_item", "metadata:itemTimeSeconds")
    ∷ ("metadata:iqb_item_time", "metadata:itemTimeSeconds")
    ∷ ("metadata:iqb_time_stimulus", "metadata:stimulusTimeSeconds")
    ∷ []

-- `table[key]`
abbrev pub entry_of : String → List (String × String) → Option String
entry_of key [] = none
entry_of key (entry ∷ table) = if same entry.0 key then some entry.1 else entry_of key table

abbrev pub or_else : Option String → String → String
or_else none other = other
or_else (some column) other = column

unfoldable pub normalize_column : String → String
normalize_column column = or_else (entry_of column time_column_aliases) column

abbrev pub identity_fields : List String
identity_fields =
    "id" ∷ "itemId" ∷ "uuid" ∷ "itemUuid" ∷ "rowKey" ∷ "unitId" ∷ "subId" ∷ "variableId"
    ∷ "sourceVariable" ∷ "variableReadOnlyId" ∷ "useUnitAliasAsPrefix" ∷ "previewTargetId"
    ∷ "previewStart" ∷ "excluded" ∷ []

abbrev pub personal_export_fields : List String
personal_export_fields =
    "sequenceNumber" ∷ "markers" ∷ "note" ∷ "category" ∷ "personalCompetenceLevel" ∷ []

-- The layout of the table; a version of its schema that is no whole number is missing.
pub record Layout : Type 0 where
  pub configured : Bool
  pub visible : List String
  pub schema_version : Option ℕ

-- The settings of the columns, as far as the policy reads them.
pub record Columns : Type 0 where
  pub restrict_reviewer_columns : Bool
  pub layout : Option Layout

pub record Policy : Type 0 where
  pub restricted : Bool
  pub allowed_columns : List String
  pub legacy_position_visible : Bool

abbrev pub is_personal : String → Bool
is_personal column = starts_with column "personal:"

-- before schema 3, or without a schema
abbrev pub is_legacy : Option Layout → Bool
is_legacy none = true
is_legacy (some layout) = before_three layout.schema_version
  where
    before_three : Option ℕ → Bool
    before_three none = true
    before_three (some version) = ltb version 3

abbrev pub configured_columns : Option Layout → List String
configured_columns none = []
configured_columns (some layout) = if layout.configured then layout.visible else []

abbrev pub position_columns : Bool → List String
position_columns legacy = if legacy then "system:position" ∷ [] else []

-- the constructor of the policy
unfoldable pub policy_of : Columns → Policy
unfolding normalize_column
policy_of columns =
    let legacy = columns.restrict_reviewer_columns && is_legacy columns.layout in
    record {
      restricted = columns.restrict_reviewer_columns;
      legacy_position_visible = legacy;
      allowed_columns =
          filter (λ key. not (is_personal key))
            (dedupe (
              map normalize_column
                (position_columns legacy ++ "system:itemId" ∷ configured_columns columns.layout)));
    }

module _ (policy : Policy) where
  unfoldable pub allows : String → Bool
  allows column =
      not policy.restricted || is_personal column || contains column policy.allowed_columns

  unfoldable pub allows_configured_column : String → Bool
  unfolding allows normalize_column
  allows_configured_column column = allows (normalize_column column)

  -- the column of a metadata entry, `FIELD_COLUMNS[id] || "metadata:" + id`
  abbrev pub metadata_column : String → String
  metadata_column id = or_else (entry_of id field_columns) ("metadata:" +++ id)

  unfoldable pub allows_configured_metadata : String → Bool
  unfolding allows_configured_column
  allows_configured_metadata id = allows_configured_column (metadata_column id)

  -- `Boolean(FIELD_COLUMNS[field]) && this.allows(FIELD_COLUMNS[field])`
  unfoldable pub allows_column_of : String → Bool
  unfolding allows
  allows_column_of name = elim (entry_of name field_columns) [
    | none ↦ false
    | some column ↦ allows column
  ]

  unfoldable pub allows_field : String → Bool
  unfolding allows_column_of
  allows_field name =
      same name "studioComments"
      || not policy.restricted
      || contains name identity_fields
      || allows_column_of name

  unfoldable pub allows_export_field : String → Bool
  unfolding allows_column_of
  allows_export_field name =
      not policy.restricted
      || contains name personal_export_fields
      || same name "itemId"
      || (same name "subId" && allows "system:subId")
      || allows_column_of name

  unfoldable pub allows_metadata : String → Bool
  unfolding allows
  allows_metadata id = allows (metadata_column id)

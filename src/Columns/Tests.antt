-- ===== src/Columns/Tests.antt =====
-- A reviewer who may see two columns, and each theorem on an item and on the settings.
use content_pool_next.Base.{
  string_eq, true, false, none, some, [], ◌∷◌, contains, All, ◌≡◌, refl, if◌then◌else◌,
}
use content_pool_next.Base.Json.{
  Value, undefined, null, number, string, array, object, no_entries, entry, no_members, field,
  record_of, member, texts_of, array_of,
}
use content_pool_next.Columns.{
  Columns, Policy, policy_of, normalize_column, allows, allows_field, allows_metadata,
  allows_column_of, allows_configured_column, allows_configured_metadata,
}
use content_pool_next.Columns.Projection.{
  project_item, project_item_fields, project_field, project_metadata, project_column_settings,
}
use content_pool_next.Columns.Responses.{
  project_response, respond, respond_object, respond_field, with_published, is_hidden_field,
}
use content_pool_next.Columns.Reviews.{
  project_review_manifest, project_review_booklet, project_node, node, unit,
}
use content_pool_next.Columns.Released.{is_undefined, project_item-released}
use content_pool_next.Columns.Settings.{layout_of, project_column_settings-allowed}

abbrev columns : Columns
columns = record {
  restrict_reviewer_columns = true;
  layout = some (record {
    configured = true;
    visible = "system:unitLabel" ∷ "metadata:iqb_time_item" ∷ "personal:note" ∷ [];
    schema_version = some 3;
  });
}

abbrev policy : Policy
policy = record {
  restricted = true;
  allowed_columns = "system:itemId" ∷ "system:unitLabel" ∷ "metadata:itemTimeSeconds" ∷ [];
  legacy_position_visible = false;
}

policy_test : policy_of columns ≡ policy
unfolding policy_of normalize_column
policy_test = refl

abbrev one_item : Value
one_item = object (
    field "itemId" (string "i") (
      field "unitLabel" (string "Unit") (
        field "infit" (number "1.02") (
          field "metadata"
            (object
              (field "itemTimeSeconds" (number "60") (field "bista" (number "500") no_members)))
            (field "bookletOccurrences" (array (entry null no_entries)) no_members)))))

shown_test :
    project_item policy one_item
    ≡ object (
        field "itemId" (string "i") (
          field "unitLabel" (string "Unit") (
            field "metadata"
              (object (field "itemTimeSeconds" (number "60") no_members))
              no_members)))
unfolding project_item project_item_fields project_field project_metadata allows allows_field
    allows_metadata allows_column_of
shown_test = refl

-- The same item inside a response, beside a field that is left out.
response_test :
    project_response policy
      (object (
        field "items"
          (array (entry one_item no_entries))
          (field "acpIndex" (string "{}") no_members)))
      ""
    ≡ object (field "items" (array (entry (project_item policy one_item) no_entries)) no_members)
unfolding project_response respond respond_object respond_field with_published is_hidden_field
    allows project_item project_item_fields project_field project_metadata allows_field
    allows_metadata allows_column_of
response_test = refl

manifest_test :
    project_review_manifest policy (record {
      booklets =
          record {
            id = "b";
            name = "Booklet";
            definition_id = some "d";
            children = node unit "u" "Unit" "0" none ∷ [];
            units = [];
            legacy = none;
            module_ids = none;
          }
          ∷ [];
      units = [];
      issues = [];
    })
    ≡ record {
      booklets =
          record {
            id = "b";
            name = "";
            definition_id = none;
            children = node unit "u" "Unit" "0" none ∷ [];
            units = [];
            legacy = none;
            module_ids = none;
          }
          ∷ [];
      units = [];
      issues = [];
    }
unfolding project_review_manifest project_review_booklet project_node allows
manifest_test = refl

project_item-released_example :
    (member "infit" (record_of (project_item policy one_item)) ≡ undefined)
    × (member "bista" (record_of (member "metadata" (record_of (project_item policy one_item))))
        ≡ undefined)
    × (is_undefined (member "bookletOccurrences" (record_of (project_item policy one_item))) ≡ true)
unfolding allows allows_field allows_metadata allows_column_of
project_item-released_example = project_item-released policy one_item "infit" "bista" refl refl

abbrev stored_settings : Value
stored_settings = object (
    field "visible" (array_of ("bista" ∷ "itemTimeSeconds" ∷ [])) (
      field "layout"
        (object
          (field "visible" (array_of ("metadata:bista" ∷ "system:unitLabel" ∷ [])) no_members))
        no_members))

project_column_settings-allowed_example :
    let settings = project_column_settings (policy_of columns) stored_settings in
    All
      (λ c. allows_configured_column (policy_of columns) c ≡ true)
      (texts_of (member "visible" (layout_of settings)))
    × All
        (λ c. allows_configured_column (policy_of columns) c ≡ true)
        (texts_of (member "order" (layout_of settings)))
    × All
        (λ id. allows_configured_metadata (policy_of columns) id ≡ true)
        (texts_of (member "visible" (record_of settings)))
    × All
        (λ id. allows_configured_metadata (policy_of columns) id ≡ true)
        (texts_of (member "order" (record_of settings)))
    × (member "system:tags" (record_of (member "widths" (layout_of settings))) ≡ (
        if allows_configured_column (policy_of columns) "system:tags"
        then member "system:tags" (record_of (member "widths" (layout_of stored_settings)))
        else undefined))
    × (contains "system:itemId" (texts_of (member "visible" (layout_of settings))) ≡ true)
project_column_settings-allowed_example =
    project_column_settings-allowed columns stored_settings "system:tags"

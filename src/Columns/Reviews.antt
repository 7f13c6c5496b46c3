-- ===== src/Columns/Reviews.antt =====
-- `projectReviewBooklet` and `projectReviewManifest` of
-- backend/src/item-explorer/reviewer-column-policy.ts, on the manifest of
-- backend/src/review/review-manifest.ts.
use content_pool_next.Base.{
  String, Bool, true, false, not, Option, none, List, [], map, if◌then◌else◌,
}
use content_pool_next.Columns.{Policy, allows}

pub data Kind : Type 0 where
  block unit : Kind

-- A node without a list of children, or with one.
mutual
  pub data NavigationNode : Type 0 where
    node : Kind → String → String → String → Option String → NavigationNode
    parent : Kind → String → String → String → Option String → Children → NavigationNode

  pub data Children : Type 0 where
    none_left : Children
    child : NavigationNode → Children → Children

pub record ReviewOccurrence : Type 0 where
  pub id : String
  pub name : String
  pub alias : Option String
  pub occurrence_id : String
  pub link_id : String
  pub block_path : List String

pub record ReviewBooklet : Type 0 where
  pub id : String
  pub name : String
  pub definition_id : Option String
  pub children : List NavigationNode
  pub units : List ReviewOccurrence
  pub legacy : Option Bool
  pub module_ids : Option (List String)

pub record ManifestUnit : Type 0 where
  pub id : String
  pub name : String
  pub items : List (String × String)

pub record Issue : Type 0 where
  pub severity : String
  pub path : String
  pub message : String

pub record ReviewManifest : Type 0 where
  pub booklets : List ReviewBooklet
  pub units : List ManifestUnit
  pub issues : List Issue

abbrev pub label_if : Bool → String → String
label_if shown label = if shown then label else ""

abbrev pub is_unit : Kind → Bool
is_unit unit = true
is_unit block = false

module _ (booklet_labels unit_labels : Bool) where
  unfoldable mutual
    pub project_node : NavigationNode → NavigationNode
    project_node (node kind id label path alias) =
        node kind id (label_if (if is_unit kind then unit_labels else booklet_labels) label) path
          none
    project_node (parent kind id label path alias children) =
        parent kind id (label_if (if is_unit kind then unit_labels else booklet_labels) label) path
          none (project_children children)

    pub project_children : Children → Children
    project_children none_left = none_left
    project_children (child n children) = child (project_node n) (project_children children)

  unfoldable pub project_occurrence : ReviewOccurrence → ReviewOccurrence
  project_occurrence u = record {
    id = u.id;
    name = label_if unit_labels u.name;
    alias = none;
    occurrence_id = u.occurrence_id;
    link_id = u.link_id;
    block_path = if booklet_labels then u.block_path else [];
  }

module _ (policy : Policy) where
  unfoldable pub project_review_booklet : ReviewBooklet → ReviewBooklet
  unfolding allows project_node project_occurrence
  project_review_booklet booklet =
      let booklet_labels = allows policy "metadata:booklet" in
      let unit_labels = allows policy "system:unitLabel" in
      if not policy.restricted then booklet else record {
        id = booklet.id;
        name = label_if booklet_labels booklet.name;
        definition_id = none;
        children = map (project_node booklet_labels unit_labels) booklet.children;
        units = map (project_occurrence booklet_labels unit_labels) booklet.units;
        legacy = booklet.legacy;
        module_ids = none;
      }

  unfoldable pub project_manifest_unit : ManifestUnit → ManifestUnit
  unfolding allows
  project_manifest_unit u = record {
    id = u.id;
    name = label_if (allows policy "system:unitLabel") u.name;
    items = map (λ i. (i.0, "")) u.items;
  }

  unfoldable pub project_review_manifest : ReviewManifest → ReviewManifest
  unfolding project_review_booklet project_manifest_unit
  project_review_manifest manifest = if not policy.restricted then manifest else record {
    booklets = map project_review_booklet manifest.booklets;
    units = map project_manifest_unit manifest.units;
    issues =
        map
          (λ (issue : Issue). record issue {
            message = "Die Review-Navigation enthält einen Strukturfehler.";
          })
          manifest.issues;
  }

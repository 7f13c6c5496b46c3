-- ===== src/Threads/Targets.antt =====
-- `resolveReviewTarget`, `resolveItemTarget`, `buildLegacyItemTargets`, `matchesTarget` and
-- `assertStoredTargetExists` of backend/src/comments/comments.service.ts.
use Prim.Native.String.{◌++◌ as str_append}
use content_pool_next.Base.{
  String, string_eq, Bool, false, not, ◌&&◌, ◌||◌, Option, none, some, List, [], ◌∷◌, any, filter,
  contains, length, same, ◌==◌, if◌then◌else◌,
}
use content_pool_next.Base.Http.{Result, ok, err, bad_request, not_found, ◌>>=◌, ◌>>◌, throw_if}
use content_pool_next.Review.{
  CommentTarget, booklet, unit, item, coding, task_sequence, same_text, given,
}
use content_pool_next.Threads.{
  StoredComment, ReviewCommentTarget, ResolvedTarget, CatalogEntry, Files, Booklet, text_or,
}

unfoldable pub legacy_item_target_id : String → String → String
legacy_item_target_id unit_id item_id = str_append (str_append unit_id "_") item_id

-- The entries that own an alias; an entry is its place in the catalog.
unfoldable pub owners_of : String → List CatalogEntry → List CatalogEntry
unfolding legacy_item_target_id
owners_of alias = filter (λ (e : CatalogEntry).
    same e.item_id alias || same (legacy_item_target_id e.unit_id e.item_id) alias)

-- the items that a request may mean: those of exactly that id, or else of that legacy id
unfoldable pub item_matches : String → String → List CatalogEntry → List CatalogEntry
unfolding legacy_item_target_id
item_matches unit_id item_id items =
    let in_unit = filter (λ (e : CatalogEntry). same e.unit_id unit_id) items in
    let exact = filter (λ (e : CatalogEntry). same e.item_id item_id) in_unit in
    if length exact == 0
    then filter (λ (e : CatalogEntry). same (legacy_item_target_id e.unit_id e.item_id) item_id)
        in_unit
    else exact

-- the one match
unfoldable pub only_match : List CatalogEntry → Result CatalogEntry
only_match [] = err not_found
only_match (e ∷ []) = ok e
only_match (e ∷ f ∷ es) = err bad_request

-- the legacy id of an item, where no other item answers to it
unfoldable pub legacy_ids_of : List CatalogEntry → CatalogEntry → List String
unfolding owners_of legacy_item_target_id
legacy_ids_of items e =
    let legacy = legacy_item_target_id e.unit_id e.item_id in
    if length (owners_of legacy items) == 1 then legacy ∷ [] else []

unfoldable pub resolve_item_target : Files → String → String → Result CatalogEntry
unfolding item_matches only_match
resolve_item_target files unit_id item_id = only_match (item_matches unit_id item_id files.items)

abbrev pub is_booklet_of : String → Booklet → Bool
is_booklet_of id b = same b.id id && not b.legacy

-- `String.prototype.trim` on ids is a parameter.
module _ (trim_id : String → String) (files : Files) where
  -- `String(id || "").trim()`, where it is not empty
  abbrev pub required_id : Option String → Result String
  required_id none = err bad_request
  required_id (some id) = if same (trim_id id) "" then err bad_request else ok (trim_id id)

  abbrev pub booklet_target : String → ResolvedTarget
  booklet_target id = record {
    target_type = booklet;
    target_id = id;
    booklet_id = some id;
    unit_id = none;
    item_id = none;
    legacy_target_ids = [];
  }

  abbrev pub unit_target : String → ResolvedTarget
  unit_target id = record {
    target_type = unit;
    target_id = id;
    booklet_id = none;
    unit_id = some id;
    item_id = none;
    legacy_target_ids = id ∷ [];
  }

  abbrev pub item_target : CommentTarget → List String → CatalogEntry → ResolvedTarget
  item_target target_type legacy_ids e = record {
    target_type = target_type;
    target_id = legacy_item_target_id e.unit_id e.item_id;
    booklet_id = none;
    unit_id = some e.unit_id;
    item_id = some e.item_id;
    legacy_target_ids = legacy_ids;
  }

  -- the entry that a request for an item means
  unfoldable pub requested_item : ReviewCommentTarget → Result CatalogEntry
  unfolding resolve_item_target
  requested_item input = do
    unit_id ← required_id input.unit_id
    item_id ← required_id input.item_id
    resolve_item_target files unit_id item_id

  unfoldable pub resolve_for : CommentTarget → ReviewCommentTarget → Result ResolvedTarget
  unfolding requested_item legacy_ids_of
  resolve_for task_sequence input = err bad_request
  resolve_for booklet input = do
    id ← required_id input.booklet_id
    throw_if (not (any (is_booklet_of id) files.booklets)) not_found
    ok (booklet_target id)
  resolve_for unit input = do
    id ← required_id input.unit_id
    throw_if (not (contains id files.units)) not_found
    ok (unit_target id)
  resolve_for coding input = do
    e ← requested_item input
    throw_if (not (contains e.unit_id files.coded_units)) not_found
    ok (item_target coding [] e)
  resolve_for item input = do
    e ← requested_item input
    ok (item_target item (legacy_ids_of files.items e) e)

  unfoldable pub resolve_review_target : ReviewCommentTarget → Result ResolvedTarget
  unfolding resolve_for
  resolve_review_target input = resolve_for input.target_type input

  -- the target that a stored comment names
  abbrev pub stored_unit : CommentTarget → String → Option String
  stored_unit unit target_id = some target_id
  stored_unit _ target_id = none

  abbrev pub stored_target : StoredComment → ReviewCommentTarget
  stored_target c = record {
    target_type = c.review.target_type;
    booklet_id = c.booklet_id;
    unit_id = text_or c.unit_id (stored_unit c.review.target_type c.target_id);
    item_id = c.item_id;
  }

  unfoldable pub assert_stored_target_exists : StoredComment → Result (Unit {0})
  unfolding resolve_review_target
  assert_stored_target_exists c = do target ← resolve_review_target (stored_target c); ok tt

-- `comment.x === target.x`
abbrev pub same_item : StoredComment → ResolvedTarget → Bool
same_item c t = same_text c.unit_id t.unit_id && same_text c.item_id t.item_id

-- Resolved item targets name a unit and an item.
unfoldable pub matches_item_target : StoredComment → ResolvedTarget → Bool
matches_item_target c t =
    if given c.unit_id || given c.item_id
    then same_item c t
    else contains c.target_id t.legacy_target_ids

-- `matchesTarget`, by the type that both have
unfoldable pub matches_for : CommentTarget → CommentTarget → StoredComment → ResolvedTarget → Bool
unfolding matches_item_target
matches_for booklet booklet c t = same_text (text_or c.booklet_id (some c.target_id)) t.booklet_id
matches_for unit unit c t = same_text (text_or c.unit_id (some c.target_id)) t.unit_id
matches_for item item c t = given t.unit_id && given t.item_id && matches_item_target c t
matches_for coding coding c t = same_item c t
matches_for task_sequence task_sequence c t = same_item c t
matches_for _ _ c t = false

unfoldable pub matches_target : StoredComment → ResolvedTarget → Bool
unfolding matches_for
matches_target c t = matches_for c.review.target_type t.target_type c t

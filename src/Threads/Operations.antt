-- ===== src/Threads/Operations.antt =====
-- The requests that change comments (backend/src/comments/comments.service.ts). Each runs in a
-- transaction that holds the lock of the ACP's configuration: one step on the database, which a
-- request that throws leaves as it was.
use content_pool_next.Base.{
  ℕ, String, string_eq, Bool, true, false, not, ◌&&◌, ◌||◌, ◌+◌, ◌==◌, Option, none, some, List, [],
  ◌∷◌, ◌++◌, any, filter, length, is_empty, ltb, same, if◌then◌else◌,
}
use content_pool_next.Base.Text.{Text, trim}
use content_pool_next.Base.Http.{
  Result, ok, err, bad_request, forbidden, not_found, conflict, ◌>>=◌, ◌>>◌, throw_if, or_throw,
}
use content_pool_next.Review.{Mode, Actor, ReviewGroup, given, same_text}
use content_pool_next.Review.Policy.{
  Choice, prepare_visibility, assert_comment_access, assert_can_reply, assert_can_mutate,
  can_view_comment, is_task_sequence, select_category, select_group, or_null,
}
use content_pool_next.Threads.{
  StoredComment, Vote, Database, ReviewCommentTarget, ResolvedTarget, Files, find_comment, text_or,
}
use content_pool_next.Threads.Targets.{
  resolve_review_target, assert_stored_target_exists, matches_target,
}

abbrev pub max_comment_length : ℕ
max_comment_length = 10000

unfoldable pub normalize_comment_text : Text → Result Text
unfolding trim
normalize_comment_text text = do
  throw_if (is_empty (trim text)) bad_request
  throw_if (ltb max_comment_length (length (trim text))) bad_request
  ok (trim text)

-- A comment that a request names: stored, live and visible to the actor, or else not found.
unfoldable pub find_visible : Database → String → String → Actor → Result StoredComment
unfolding prepare_visibility can_view_comment
find_visible db acp_id id actor = do
  c ← or_throw (find_comment acp_id id db.comments) not_found
  let (mode, prepared) = prepare_visibility db.configs acp_id actor
  throw_if (c.review.deleted || not (can_view_comment mode prepared c.review)) not_found
  ok c

unfoldable pub find_mutable_comment : Database → String → String → Actor → Result StoredComment
unfolding find_visible assert_can_mutate
find_mutable_comment db acp_id id actor = do
  c ← find_visible db acp_id id actor
  throw_if (is_task_sequence c.review.target_type || c.review.legacy_read_only) forbidden
  assert_can_mutate actor c.review
  ok c

-- What a request for a new comment holds besides its target.
pub record CommentInput : Type 0 where
  pub comment_text : Text
  pub parent_comment_id : Option String
  pub group_id : Option String
  pub category : Choice

-- the place of a new comment: its thread and its group
pub record Place : Type 0 where
  pub parent_comment_id : Option String
  pub group_id : Option String

abbrev pub is_archived_group : Option String → ReviewGroup → Bool
is_archived_group id group = same_text (some group.id) id && group.archived

-- A reply goes to the root of its parent's thread and keeps the group.
unfoldable pub place_reply :
    Database → String → Mode → Actor → ResolvedTarget → CommentInput → String → Result Place
unfolding matches_target assert_can_reply
place_reply db acp_id mode actor target input id = do
  parent ← or_throw (find_comment acp_id id db.comments) not_found
  throw_if (parent.review.deleted || not (matches_target parent target)) not_found
  assert_can_reply mode actor parent.review
  throw_if (given input.group_id && not (same_text input.group_id (or_null parent.review.group_id)))
      bad_request
  throw_if
      (given parent.review.group_id && any (is_archived_group parent.review.group_id) actor.groups)
      bad_request
  ok (record {
    parent_comment_id = text_or parent.parent_comment_id (some parent.review.id);
    group_id = or_null parent.review.group_id;
  })

unfoldable pub place_root : Mode → Actor → CommentInput → Result Place
unfolding select_group
place_root mode actor input = do
  group_id ← select_group mode actor input.group_id
  ok (record { parent_comment_id = none; group_id = group_id })

abbrev pub place_of :
    Database → String → Mode → Actor → ResolvedTarget → CommentInput → Option String → Result Place
place_of db acp_id mode actor target input none = place_root mode actor input
place_of db acp_id mode actor target input (some id) =
    if same id ""
    then place_root mode actor input
    else place_reply db acp_id mode actor target input id

-- the row that `create` saves
abbrev pub new_comment :
    String → String → Actor → ResolvedTarget → Place → Option String → Text → StoredComment
new_comment id acp_id actor target place category_id text = record {
  review = record {
    id = id;
    user_id = actor.user_id;
    credential_id = actor.credential_id;
    target_type = target.target_type;
    group_id = place.group_id;
    deleted = false;
    legacy_read_only = false;
  };
  acp_id = acp_id;
  target_id = target.target_id;
  booklet_id = target.booklet_id;
  unit_id = target.unit_id;
  item_id = target.item_id;
  parent_comment_id = place.parent_comment_id;
  category_id = category_id;
  author_label = actor.author_label;
  comment_text = text;
  version = 1;
}

-- the rows that a versioned update finds: `{ id, acpId, version, deletedAt: IsNull() }`
abbrev pub is_current : String → String → ℕ → StoredComment → Bool
is_current acp_id id version c =
    same c.review.id id && same c.acp_id acp_id && c.version == version && not c.review.deleted

unfoldable pub update_where :
    (StoredComment → Bool)
    → (StoredComment → StoredComment)
    → List StoredComment
    → List StoredComment
update_where test change [] = []
update_where test change (c ∷ cs) = (if test c then change c else c) ∷ update_where test change cs

-- An update that has found no row is a conflict, or the comment is gone.
unfoldable pub versioned_update :
    String
    → String
    → ℕ
    → (StoredComment → StoredComment)
    → List StoredComment
    → Result (List StoredComment)
unfolding update_where
versioned_update acp_id id version change cs =
    if any (is_current acp_id id version) cs
    then ok (update_where (is_current acp_id id version) change cs)
    else (do latest ← or_throw (find_comment acp_id id cs) not_found; err conflict)

abbrev pub edited : ℕ → Option String → Text → StoredComment → StoredComment
edited version category_id text c = record c {
  category_id = category_id;
  comment_text = text;
  version = version + 1;
}

abbrev pub emptied : ℕ → StoredComment → StoredComment
emptied version c = record c {
  review = record c.review { deleted = true };
  comment_text = [];
  version = version + 1;
}

-- the trigger that removes the votes of a comment when it is deleted
-- (backend/src/database/migrations/1789500000000-CommentVotes.ts)
unfoldable pub drop_votes : String → List Vote → List Vote
drop_votes id = filter (λ (v : Vote). not (same v.comment_id id))

module _ (trim_id : String → String) (files : Files) where
  -- `createReviewComment`; the new id comes from outside
  unfoldable pub create_review_comment :
      String → String → ReviewCommentTarget → CommentInput → Actor → Database → Result Database
  unfolding assert_comment_access resolve_review_target place_reply place_root select_category
      normalize_comment_text
  create_review_comment new_id acp_id input body actor db = do
    (mode, prepared) ← assert_comment_access db.configs acp_id actor input.target_type
    target ← resolve_review_target trim_id files input
    place ← place_of db acp_id mode prepared target body body.parent_comment_id
    category_id ← select_category prepared body.category none
    text ← normalize_comment_text body.comment_text
    ok (record db {
      comments =
          db.comments ++ new_comment new_id acp_id prepared target place category_id text ∷ [];
    })

  unfoldable pub update_own_comment :
      String → String → Text → ℕ → Actor → Choice → Database → Result Database
  unfolding find_mutable_comment assert_comment_access normalize_comment_text
      assert_stored_target_exists select_category versioned_update
  update_own_comment acp_id id text version actor category db = do
    current ← find_mutable_comment db acp_id id actor
    (mode, prepared) ← assert_comment_access db.configs acp_id actor current.review.target_type
    normalized ← normalize_comment_text text
    throw_if (not (current.version == version)) conflict
    assert_stored_target_exists trim_id files current
    category_id ← select_category prepared category current.category_id
    comments ←
        versioned_update acp_id id version (edited version category_id normalized) db.comments
    ok (record db { comments = comments })

  unfoldable pub delete_own_comment : String → String → ℕ → Actor → Database → Result Database
  unfolding find_mutable_comment assert_comment_access assert_stored_target_exists versioned_update
      drop_votes
  delete_own_comment acp_id id version actor db = do
    current ← find_mutable_comment db acp_id id actor
    (mode, prepared) ← assert_comment_access db.configs acp_id actor current.review.target_type
    throw_if (not (current.version == version)) conflict
    assert_stored_target_exists trim_id files current
    comments ← versioned_update acp_id id version (emptied version) db.comments
    ok (record db { comments = comments; votes = drop_votes id db.votes })

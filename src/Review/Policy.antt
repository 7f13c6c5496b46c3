-- ===== src/Review/Policy.antt =====
-- `ReviewPolicyService` (backend/src/comments/review-policy.service.ts) with `commentAuthorName`
-- (comment-author-name.ts). `getFeatureConfig` writes to the actor, so it returns a new one.
use content_pool_next.Base.{
  number_eq, String, string_eq, Bool, true, false, not, ◌&&◌, ◌||◌, Option, none, some, List, [],
  ◌∷◌, any, filter, find, contains, is_empty, same, if◌then◌else◌,
}
use content_pool_next.Base.Text.{Text, trim}
use content_pool_next.Base.Http.{Result, ok, err, forbidden, bad_request, not_found, throw_if}
use content_pool_next.Access.Settings.{
  FeatureConfig, no_settings, is_true, is_word, truthy, as_words,
}
use content_pool_next.Review.{
  CommentTarget, booklet, item, coding, task_sequence, target_name, Comment, MemberKind,
  user_member, credential_member, Member, ReviewGroup, CommentCategory, ReviewConfig, Mode,
  private_mode, shared_mode, group_mode, Actor, given, same_text,
}

-- What the service reads of `req.user` and `req.acpCapabilities`.
pub record ReviewUser : Type 0 where
  pub is_credential : Bool
  pub sub : Option String
  pub username : Option Text
  pub display_name : Option Text
  pub is_app_admin : Bool

pub record ReviewRequest : Type 0 where
  pub user : Option ReviewUser
  pub capabilities : List String

-- the code units of "Unbekannt"
abbrev pub unknown_author : Text
unknown_author = b'U' ∷ b'n' ∷ b'b' ∷ b'e' ∷ b'k' ∷ b'a' ∷ b'n' ∷ b'n' ∷ b't' ∷ []

abbrev pub trim_given : Option Text → Text
trim_given none = []
trim_given (some name) = trim name

abbrev pub is_display_name : Text → Bool
is_display_name name = not (is_empty name) && not (contains b'@' name)

unfoldable pub comment_author_name : List (Option Text) → Option Text
comment_author_name [] = none
comment_author_name (candidate ∷ candidates) =
    if is_display_name (trim_given candidate)
    then some (trim_given candidate)
    else comment_author_name candidates

abbrev pub or_unknown : Option Text → Text
or_unknown none = unknown_author
or_unknown (some name) = name

-- `req.user?.sub`, which must not be empty
abbrev pub signed_in : Option ReviewUser → Bool
signed_in none = false
signed_in (some u) = given u.sub

abbrev pub is_admin_user : Option ReviewUser → Bool
is_admin_user none = false
is_admin_user (some u) = u.is_app_admin

unfoldable pub is_manager_request : ReviewRequest → Bool
is_manager_request req = is_admin_user req.user || contains "review:manage" req.capabilities

abbrev pub may_participate : ReviewRequest → Bool
may_participate req = signed_in req.user && contains "review:participate" req.capabilities

unfoldable pub assert_can_participate_request : ReviewRequest → Result (Unit {0})
assert_can_participate_request req = throw_if (not (may_participate req)) forbidden

-- the identity part of `resolveActor`, with the request's rights
unfoldable pub actor_of : Option ReviewUser → Bool → Bool → Actor
actor_of none manager participates = record {
  user_id = none;
  credential_id = none;
  author_label = unknown_author;
  is_manager = manager;
  can_participate = participates;
  voting_enabled = false;
  voting_targets = [];
  groups = [];
  categories = [];
  ungrouped_shared = false;
}
actor_of (some u) manager participates = record {
  user_id = if u.is_credential then none else u.sub;
  credential_id = if u.is_credential then u.sub else none;
  author_label =
      or_unknown (
        comment_author_name ((if u.is_credential then none else u.display_name) ∷ u.username ∷ []));
  is_manager = manager;
  can_participate = participates;
  voting_enabled = false;
  voting_targets = [];
  groups = [];
  categories = [];
  ungrouped_shared = false;
}

unfoldable pub resolve_actor : ReviewRequest → Actor
unfolding actor_of is_manager_request
resolve_actor req = actor_of req.user (is_manager_request req) (may_participate req)

unfoldable pub comment_targets : FeatureConfig → List String
comment_targets features = as_words features.comment_targets

abbrev pub is_listed_only : CommentTarget → Bool
is_listed_only booklet = true
is_listed_only coding = true
is_listed_only _ = false

unfoldable pub is_target_enabled : List String → CommentTarget → Bool
is_target_enabled [] target = not (is_listed_only target)
is_target_enabled (t ∷ targets) target = contains (target_name target) (t ∷ targets)

unfoldable pub visibility_mode : FeatureConfig → Mode
visibility_mode features =
    if is_word features.comment_visibility_mode "GROUP"
    then group_mode
    else if is_word features.comment_visibility_mode "SHARED"
    then shared_mode
    else private_mode

abbrev pub is_user_member : MemberKind → Bool
is_user_member user_member = true
is_user_member credential_member = false

-- one member of a group against the actor
abbrev pub is_member : Actor → Member → Bool
is_member actor member =
    if is_user_member member.kind
    then same_text (some member.id) actor.user_id
    else same_text (some member.id) actor.credential_id

-- the groups that `getFeatureConfig` leaves the actor
abbrev pub is_own_group : Actor → ReviewGroup → Bool
is_own_group actor group =
    actor.is_manager || (not group.archived && any (is_member actor) group.members)

-- `findOne({ where: { acpId } })`
unfoldable pub find_review_config : List ReviewConfig → String → Option ReviewConfig
find_review_config rows acp_id = find (λ c. same c.acp_id acp_id) rows

abbrev pub features_of : Option ReviewConfig → FeatureConfig
features_of none = no_settings
features_of (some c) = c.feature_config

abbrev pub groups_of : Option ReviewConfig → List ReviewGroup
groups_of none = []
groups_of (some c) = c.review_groups

abbrev pub categories_of : Option ReviewConfig → List CommentCategory
categories_of none = []
categories_of (some c) = c.comment_categories

abbrev pub allows_voting : FeatureConfig → Bool
allows_voting features =
    is_true features.enable_review
    && is_true features.enable_commenting
    && is_word features.comment_visibility_mode "SHARED"

-- What `getFeatureConfig` writes to the actor.
unfoldable pub prepare_actor : Option ReviewConfig → Actor → Actor
unfolding comment_targets
prepare_actor config actor = record actor {
  categories = categories_of config;
  voting_targets = comment_targets (features_of config);
  voting_enabled = allows_voting (features_of config);
  ungrouped_shared = is_word (features_of config).ungrouped_visibility_mode "SHARED";
  groups = filter (is_own_group actor) (groups_of config);
}

unfoldable pub prepare_visibility : List ReviewConfig → String → Actor → Mode × Actor
unfolding find_review_config visibility_mode prepare_actor
prepare_visibility rows acp_id actor =
    let config = find_review_config rows acp_id in
    (visibility_mode (features_of config), prepare_actor config actor)

-- `getCommentCategories`
unfoldable pub get_comment_categories : List ReviewConfig → String → List CommentCategory
unfolding find_review_config
get_comment_categories rows acp_id = categories_of (find_review_config rows acp_id)

abbrev pub has_identity : Actor → Bool
has_identity actor = given actor.user_id || given actor.credential_id

abbrev pub is_task_sequence : CommentTarget → Bool
is_task_sequence task_sequence = true
is_task_sequence _ = false

unfoldable pub assert_comment_access :
    List ReviewConfig → String → Actor → CommentTarget → Result (Mode × Actor)
unfolding find_review_config visibility_mode prepare_actor comment_targets is_target_enabled
assert_comment_access rows acp_id actor target =
    let config = find_review_config rows acp_id in
    let features = features_of config in
    if not (has_identity actor)
    then err forbidden
    else if is_task_sequence target
    then err forbidden
    else if (not (truthy features.enable_commenting) && not actor.is_manager)
        || not (is_target_enabled (comment_targets features) target)
    then err forbidden
    else ok (visibility_mode features, prepare_actor config actor)

unfoldable pub assert_item_comment_access :
    List ReviewConfig → String → Actor → Result (Mode × Actor)
unfolding assert_comment_access
assert_item_comment_access rows acp_id actor = assert_comment_access rows acp_id actor item

abbrev pub count_targets : FeatureConfig → List CommentTarget
count_targets features = filter (is_target_enabled (comment_targets features)) (item ∷ coding ∷ [])

unfoldable pub assert_count_access :
    List ReviewConfig → String → Actor → Result (Mode × List CommentTarget × Actor)
unfolding find_review_config visibility_mode prepare_actor comment_targets is_target_enabled
assert_count_access rows acp_id actor =
    let config = find_review_config rows acp_id in
    let features = features_of config in
    if not (has_identity actor)
    then err forbidden
    else if not (truthy features.enable_commenting) || is_empty (count_targets features)
    then err forbidden
    else ok (visibility_mode features, count_targets features, prepare_actor config actor)

unfoldable pub is_commenting_enabled : List ReviewConfig → String → CommentTarget → Bool
unfolding find_review_config comment_targets is_target_enabled
is_commenting_enabled rows acp_id target =
    let features = features_of (find_review_config rows acp_id) in
    truthy features.enable_commenting && is_target_enabled (comment_targets features) target

unfoldable pub is_owned_by : Comment → Actor → Bool
is_owned_by comment actor =
    if given actor.user_id && given comment.user_id
    then same_text actor.user_id comment.user_id
    else if given actor.credential_id && given comment.credential_id
    then same_text actor.credential_id comment.credential_id
    else false

abbrev pub is_group_mode : Mode → Bool
is_group_mode group_mode = true
is_group_mode _ = false

abbrev pub is_shared_mode : Mode → Bool
is_shared_mode shared_mode = true
is_shared_mode _ = false

abbrev pub in_group : Option String → ReviewGroup → Bool
in_group id group = same_text (some group.id) id

unfoldable pub can_view_comment : Mode → Actor → Comment → Bool
can_view_comment mode actor comment =
    if actor.is_manager
    then true
    else if is_group_mode mode && given comment.group_id
    then any (in_group comment.group_id) actor.groups
    else is_shared_mode mode
      || (is_group_mode mode && not (given comment.group_id) && actor.ungrouped_shared)
      || is_owned_by comment actor

unfoldable pub assert_can_reply : Mode → Actor → Comment → Result (Unit {0})
unfolding can_view_comment
assert_can_reply mode actor parent = throw_if (not (can_view_comment mode actor parent)) not_found

unfoldable pub assert_can_mutate : Actor → Comment → Result (Unit {0})
unfolding is_owned_by
assert_can_mutate actor comment = throw_if (not (is_owned_by comment actor)) forbidden

-- `Boolean(a) !== Boolean(b)`
abbrev pub exactly_one : Bool → Bool → Bool
exactly_one true b = not b
exactly_one false b = b

unfoldable pub can_vote : Actor → Comment → Bool
can_vote actor comment =
    actor.can_participate
    && actor.voting_enabled
    && exactly_one (given actor.user_id) (given actor.credential_id)
    && is_target_enabled actor.voting_targets comment.target_type
    && not comment.deleted
    && not comment.legacy_read_only
    && not (is_task_sequence comment.target_type)
    && not (is_owned_by comment actor)

-- A category that a request names: not at all, `null`, or by its id.
pub data Choice : Type 0 where
  unchanged cleared : Choice
  chosen : String → Choice

-- `text || null`
abbrev pub or_null : Option String → Option String
or_null none = none
or_null (some text) = if same text "" then none else some text

unfoldable pub select_category : Actor → Choice → Option String → Result (Option String)
select_category actor unchanged current = ok (or_null current)
select_category actor cleared current = ok none
select_category actor (chosen id) current =
    elim (find (λ (c : CommentCategory). same c.id id) actor.categories) [
      | none ↦ err bad_request
      | some category ↦
          if category.archived && not (same_text (some id) current)
          then err bad_request
          else ok (some category.id)
    ]

abbrev pub only_group : List ReviewGroup → Option String
only_group (group ∷ []) = some group.id
only_group _ = none

abbrev pub active_groups : Actor → List ReviewGroup
active_groups actor = filter (λ group. not group.archived) actor.groups

-- the id that `selectGroup` settles on in group mode
abbrev pub group_choice : Actor → Option String → Option String
group_choice actor requested =
    if given requested
    then requested
    else if actor.is_manager
    then none
    else only_group (active_groups actor)

unfoldable pub select_group : Mode → Actor → Option String → Result (Option String)
select_group mode actor requested =
    if not (is_group_mode mode)
    then if given requested then err bad_request else ok none
    else if given (group_choice actor requested)
        && any (in_group (group_choice actor requested)) (active_groups actor)
    then ok (group_choice actor requested)
    else err bad_request

-- ===== src/Review/Visibility.antt =====
-- Who sees which comment once `getFeatureConfig` has prepared the actor.
use content_pool_next.Base.{
  String, string_eq, Bool, true, false, not, ◌&&◌, ◌||◌, Option, some, List, [], ◌∷◌, any, filter,
  str_eq_iff, ◌≡◌, refl, arith, if◌then◌else◌,
}
use content_pool_next.Base.Http.{ok}
use content_pool_next.Access.Settings.{FeatureConfig, Setting, word, is_word}
use content_pool_next.Review.{
  Comment, ReviewGroup, ReviewConfig, shared_mode, group_mode, Actor, given,
}
use content_pool_next.Review.Policy.{
  features_of, groups_of, is_member, is_own_group, in_group, find_review_config, prepare_actor,
  prepare_visibility, visibility_mode, is_owned_by, can_view_comment, can_vote, select_group,
  allows_voting,
}

any_of_filter {ℓ} :
    {A : Type ℓ} (p q : A → Bool) (xs : List A) → any p (filter q xs) ≡ true → any p xs ≡ true
any_of_filter p q [] h = h
any_of_filter p q (x ∷ xs) h = ground (arith, any_of_filter p q xs)

-- A group of the configuration that makes the actor a reader of the comments posted in it.
abbrev pub lets_read : Actor → Option String → ReviewGroup → Bool
lets_read actor id group =
    (not group.archived && any (is_member actor) group.members) && in_group id group

-- The documented table of visibility, read off the configuration alone: its mode is `GROUP`,
-- `SHARED`, or else, when it names neither, the private one.
pub may_see : Option ReviewConfig → Actor → Comment → Bool
may_see config actor comment =
    if is_word (features_of config).comment_visibility_mode "GROUP"
    then if given comment.group_id
      then any (lets_read actor comment.group_id) (groups_of config)
      else is_word (features_of config).ungrouped_visibility_mode "SHARED"
        || is_owned_by comment actor
    else is_word (features_of config).comment_visibility_mode "SHARED" || is_owned_by comment actor

own_group_plain :
    (actor : Actor) (id : Option String) (groups : List ReviewGroup)
    → actor.is_manager ≡ false
    → any (in_group id) (filter (is_own_group actor) groups) ≡ any (lets_read actor id) groups
own_group_plain actor id [] plain = refl
own_group_plain actor id (g ∷ groups) plain = ground (arith, own_group_plain actor id groups)

pub owned-prepare :
    (config : Option ReviewConfig) (actor : Actor) (comment : Comment)
    → is_owned_by comment (prepare_actor config actor) ≡ is_owned_by comment actor
unfolding is_owned_by prepare_actor
owned-prepare config actor comment = refl

shared_word : (s : Setting) → is_word s "SHARED" ≡ true → is_word s "GROUP" ≡ false
shared_word (word w) h = let e : w ≡ "SHARED" = (str_eq_iff w "SHARED").0 h in rw e
shared_word _ h = absurd (ground arith)

view_table :
    (config : Option ReviewConfig) (actor : Actor) (comment : Comment)
    → actor.is_manager ≡ false
    → can_view_comment (visibility_mode (features_of config)) (prepare_actor config actor) comment
      ≡ may_see config actor comment
unfolding can_view_comment prepare_actor may_see visibility_mode
view_table config actor comment plain =
    let owned = owned-prepare config actor comment in
    let grouped = own_group_plain actor comment.group_id (groups_of config) plain in
    ground (arith, owned, grouped)

-- For anybody but a manager the prepared actor sees exactly what the table makes of the stored
-- configuration. In `GROUP` mode a comment of a group is seen only by the members of that group
-- while it is not archived, its author included, and one without a group by its author or, where
-- ungrouped comments are shared, by all; in `SHARED` mode all see it; else only its author does.
pub can_view_comment-may_see :
    (rows : List ReviewConfig) (acp_id : String) (actor : Actor) (comment : Comment)
    → actor.is_manager ≡ false
    → can_view_comment
        (prepare_visibility rows acp_id actor).0
        (prepare_visibility rows acp_id actor).1
        comment
      ≡ may_see (find_review_config rows acp_id) actor comment
unfolding prepare_visibility
can_view_comment-may_see rows acp_id actor comment plain =
    view_table (find_review_config rows acp_id) actor comment plain

voting-shared :
    (features : FeatureConfig)
    → allows_voting features ≡ true
    → visibility_mode features ≡ shared_mode
unfolding visibility_mode
voting-shared features h = ground (arith, shared_word features.comment_visibility_mode)

-- Whoever may vote on a comment sees it, has not written it, and votes on a live comment.
pub can_vote-can_view :
    (rows : List ReviewConfig) (acp_id : String) (actor : Actor) (comment : Comment)
    → can_vote (prepare_visibility rows acp_id actor).1 comment ≡ true
    → (can_view_comment
          (prepare_visibility rows acp_id actor).0
          (prepare_visibility rows acp_id actor).1
          comment
        ≡ true)
      × (is_owned_by comment actor ≡ false)
      × (comment.deleted ≡ false)
      × (actor.can_participate ≡ true)
unfolding prepare_visibility prepare_actor can_vote can_view_comment
can_vote-can_view rows acp_id actor comment h =
    let config = find_review_config rows acp_id in
    ground (arith, voting-shared (features_of config), owned-prepare config actor comment)

-- A group that a non-manager may post in is one whose comments that person sees.
pub select_group-can_view :
    (actor : Actor) (requested : Option String) (id : String) (comment : Comment)
    → select_group group_mode actor requested ≡ ok (some id)
    → comment.group_id ≡ some id
    → can_view_comment group_mode actor comment ≡ true
unfolding select_group can_view_comment
select_group-can_view actor requested id comment h posted =
    ground (arith, any_of_filter (in_group (some id)) (λ group. not group.archived) actor.groups)

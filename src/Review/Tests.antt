-- ===== src/Review/Tests.antt =====
-- A review with two groups, runs of the policy on it, and each theorem at an input that meets its
-- hypotheses.
use content_pool_next.Base.{
  string_eq, true, false, ◌&&◌, none, some, List, [], ◌∷◌, All, ◌≡◌, ◌↔◌, ◌⊎◌, refl,
}
use content_pool_next.Base.Text.{trim}
use content_pool_next.Base.Http.{ok, err, forbidden, bad_request}
use content_pool_next.Access.Settings.{no_settings, flag, word, words}
use content_pool_next.Review.{
  item, coding, unit, Comment, user_member, ReviewGroup, ReviewConfig, group_mode, Actor, given,
}
use content_pool_next.Review.Policy.{
  ReviewRequest, resolve_actor, comment_author_name, find_review_config, prepare_visibility,
  assert_comment_access, assert_count_access, is_commenting_enabled, is_owned_by, is_target_enabled,
  can_view_comment, can_vote, assert_can_mutate, select_category, select_group, unknown_author,
}
use content_pool_next.Review.Visibility.{
  may_see, can_view_comment-may_see, can_vote-can_view, select_group-can_view,
}
use content_pool_next.Review.Writing.{
  AreOneId, assert_can_mutate_iff, assert_comment_access_iff, assert_count_access-targets,
}

abbrev red : ReviewGroup
red = record {
  id = "red";
  archived = false;
  members = record { kind = user_member; id = "ann" } ∷ [];
}

abbrev blue : ReviewGroup
blue = record red { id = "blue"; members = [] }

abbrev grouped : ReviewConfig
grouped = record {
  acp_id = "acp";
  feature_config = record no_settings {
    enable_commenting = flag true;
    comment_visibility_mode = word "GROUP";
    comment_targets = words ("ITEM" ∷ "CODING" ∷ []);
  };
  review_groups = red ∷ blue ∷ [];
  comment_categories = record { id = "k"; archived = false } ∷ [];
}

abbrev shared : ReviewConfig
shared = record grouped {
  acp_id = "open";
  feature_config = record no_settings {
    enable_commenting = flag true;
    enable_review = flag true;
    comment_visibility_mode = word "SHARED";
  };
}

abbrev rows : List ReviewConfig
rows = grouped ∷ shared ∷ []

abbrev ann : Actor
ann = record {
  user_id = some "ann";
  credential_id = none;
  author_label = unknown_author;
  is_manager = false;
  can_participate = true;
  voting_enabled = false;
  voting_targets = [];
  groups = red ∷ [];
  categories = record { id = "k"; archived = false } ∷ [];
  ungrouped_shared = false;
}

abbrev remark : Comment
remark = record {
  id = "m";
  user_id = some "bob";
  credential_id = none;
  target_type = item;
  group_id = some "blue";
  deleted = false;
  legacy_read_only = false;
}

abbrev sign_in : ReviewRequest
sign_in = record {
  user = some (record {
    is_credential = false;
    sub = some "ann";
    username = none;
    display_name = some (b'a' ∷ b'@' ∷ b'b' ∷ []);
    is_app_admin = false;
  });
  capabilities = "review:participate" ∷ [];
}

run : Unit {0}
unfolding resolve_actor comment_author_name find_review_config prepare_visibility
    assert_comment_access assert_count_access is_commenting_enabled is_owned_by is_target_enabled
    can_view_comment can_vote assert_can_mutate select_category select_group trim
run = tt

hidden_test :
    (can_view_comment group_mode ann remark ≡ false)
    × (can_view_comment group_mode ann (record remark { group_id = some "red" }) ≡ true)
    × (select_group group_mode ann (some "blue") ≡ err bad_request)
    × ((resolve_actor sign_in).author_label ≡ unknown_author)
unfolding run
hidden_test = (refl, refl, refl, refl)

can_view_comment-may_see_example :
    can_view_comment
      (prepare_visibility rows "acp" ann).0
      (prepare_visibility rows "acp" ann).1
      remark
    ≡ may_see (find_review_config rows "acp") ann remark
can_view_comment-may_see_example = can_view_comment-may_see rows "acp" ann remark refl

can_vote-can_view_example :
    (can_view_comment
        (prepare_visibility rows "open" ann).0
        (prepare_visibility rows "open" ann).1
        remark
      ≡ true)
    × (is_owned_by remark ann ≡ false)
    × (remark.deleted ≡ false)
    × (ann.can_participate ≡ true)
unfolding run
can_vote-can_view_example = can_vote-can_view rows "open" ann remark refl

select_group-can_view_example :
    can_view_comment group_mode ann (record remark { group_id = some "red" }) ≡ true
unfolding run
select_group-can_view_example =
    select_group-can_view ann none "red" (record remark { group_id = some "red" }) refl refl

assert_can_mutate_iff_example : (assert_can_mutate ann remark ≡ ok tt) ↔ (
    AreOneId ann.user_id remark.user_id
    ⊎ (((given ann.user_id && given remark.user_id) ≡ false)
        × AreOneId ann.credential_id remark.credential_id))
assert_can_mutate_iff_example = assert_can_mutate_iff ann remark

assert_comment_access_iff_example :
    (assert_comment_access rows "acp" ann unit ≡ err forbidden)
    ↔ (is_commenting_enabled rows "acp" unit ≡ false)
unfolding run
assert_comment_access_iff_example = assert_comment_access_iff rows "acp" ann unit refl refl refl

assert_count_access-targets_example :
    All
      (λ t.
        assert_comment_access rows "acp" ann t
        ≡ ok (group_mode, (prepare_visibility rows "acp" ann).1))
      (item ∷ coding ∷ [])
unfolding run
assert_count_access-targets_example =
    assert_count_access-targets rows "acp" ann group_mode (item ∷ coding ∷ [])
      (prepare_visibility rows "acp" ann).1 refl

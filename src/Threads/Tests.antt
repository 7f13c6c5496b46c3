-- ===== src/Threads/Tests.antt =====
-- A thread of two comments, runs of the requests on it, and each theorem at an input that meets its
-- hypotheses.
use content_pool_next.Base.{
  String, string_eq, number_eq, true, false, Option, none, some, [], ◌∷◌, ◌≡◌, ◌≢◌, refl, arith,
  any, filter, same, inl, ◌⊎◌,
}
use content_pool_next.Base.Text.{Text, trim, trim_start, trim_end, is_space}
use content_pool_next.Base.Http.{ok, err, forbidden}
use content_pool_next.Access.Settings.{no_settings, flag, word}
use content_pool_next.Review.{unit, ReviewConfig, Actor}
use content_pool_next.Review.Policy.{
  Choice, unchanged, unknown_author, find_review_config, visibility_mode, prepare_actor,
  prepare_visibility, comment_targets, is_target_enabled, assert_comment_access, assert_can_reply,
  assert_can_mutate, can_view_comment, is_owned_by, can_vote, select_category, select_group,
}
use content_pool_next.Threads.{StoredComment, Vote, up, Database, Files, find_comment}
use content_pool_next.Threads.Targets.{
  resolve_review_target, resolve_for, assert_stored_target_exists, matches_target, matches_for,
}
use content_pool_next.Threads.Operations.{
  find_visible, find_mutable_comment, place_reply, place_root, update_where, versioned_update,
  create_review_comment, update_own_comment, delete_own_comment, normalize_comment_text, drop_votes,
}
use content_pool_next.Threads.Votes.{cast, voter_of, put_vote, overwrite_vote, set_vote}
use content_pool_next.Threads.Changes.{Changes}
use content_pool_next.Threads.Versions.{delete_own_comment-Changes, update_own_comment-late}
use content_pool_next.Threads.Shape.{IsThreaded, IsRoot}
use content_pool_next.Threads.Requests
use content_pool_next.Threads.VoteLaws.{votes_of, OneVote}
use content_pool_next.Threads.Ballots.{IsCast, votes_of_others, set_vote-IsCast}

abbrev as_is : String → String
as_is id = id

abbrev files : Files
files = record { booklets = []; units = "u" ∷ []; items = []; coded_units = [] }

abbrev config : ReviewConfig
config = record {
  acp_id = "acp";
  feature_config = record no_settings {
    enable_commenting = flag true;
    enable_review = flag true;
    comment_visibility_mode = word "SHARED";
  };
  review_groups = [];
  comment_categories = [];
}

abbrev bob : Actor
bob = record {
  user_id = some "bob";
  credential_id = none;
  author_label = unknown_author;
  is_manager = false;
  can_participate = true;
  voting_enabled = false;
  voting_targets = [];
  groups = [];
  categories = [];
  ungrouped_shared = false;
}

abbrev ann : Actor
ann = record bob { user_id = some "ann" }

abbrev root : StoredComment
root = record {
  review = record {
    id = "m";
    user_id = some "bob";
    credential_id = none;
    target_type = unit;
    group_id = none;
    deleted = false;
    legacy_read_only = false;
  };
  acp_id = "acp";
  target_id = "u";
  booklet_id = none;
  unit_id = some "u";
  item_id = none;
  parent_comment_id = none;
  category_id = none;
  author_label = unknown_author;
  comment_text = b'x' ∷ [];
  version = 1;
}

abbrev reply : StoredComment
reply = record root {
  review = record (root.review) { id = "n"; user_id = some "ann" };
  parent_comment_id = some "m";
}

abbrev start : Database
start = record { configs = config ∷ []; comments = root ∷ reply ∷ []; votes = [] }

-- Bob answers Ann's reply; his comment hangs on the root.
abbrev answered : Database
answered = record start {
  comments = root ∷ reply ∷ record reply { review = record (root.review) { id = "o" } } ∷ [];
}

abbrev edited_db : Database
edited_db = record start {
  comments = record root { comment_text = b'y' ∷ []; version = 2 } ∷ reply ∷ [];
}

abbrev emptied_db : Database
emptied_db = record start {
  comments =
      record root {
        review = record (root.review) { deleted = true };
        comment_text = [];
        version = 2;
      }
      ∷ reply
      ∷ [];
}

abbrev voted : Database
voted = record start {
  votes = record { comment_id = "m"; user_id = some "ann"; credential_id = none; value = up } ∷ [];
}

abbrev answer : Requests.Request
answer =
    Requests.create "o"
      (record { target_type = unit; booklet_id = none; unit_id = some "u"; item_id = none })
      (record {
        comment_text = 32 ∷ b'x' ∷ [];
        parent_comment_id = some "n";
        group_id = none;
        category = unchanged;
      })

run : Unit {0}
unfolding find_review_config visibility_mode prepare_actor prepare_visibility comment_targets
    is_target_enabled assert_comment_access assert_can_reply assert_can_mutate can_view_comment
    is_owned_by can_vote select_category select_group resolve_review_target resolve_for
    assert_stored_target_exists matches_target matches_for find_visible find_mutable_comment
    place_reply place_root update_where versioned_update create_review_comment update_own_comment
    delete_own_comment normalize_comment_text drop_votes put_vote overwrite_vote set_vote trim
    trim_start trim_end is_space Requests.handle
run = tt

answer_run : Requests.handle as_is files "acp" answer bob start ≡ ok answered
unfolding run
answer_run = refl

update_run :
    update_own_comment as_is files "acp" "m" (b'y' ∷ []) 1 bob unchanged start ≡ ok edited_db
unfolding run
update_run = refl

delete_run : delete_own_comment as_is files "acp" "m" 1 bob start ≡ ok emptied_db
unfolding run
delete_run = refl

vote_run : set_vote as_is files "acp" "m" (cast up) ann start ≡ ok voted
unfolding run
vote_run = refl

-- nobody votes on a comment of one's own, or edits another's
refused_test :
    (set_vote as_is files "acp" "m" (cast up) bob start ≡ err forbidden)
    × (update_own_comment as_is files "acp" "m" (b'y' ∷ []) 1 ann unchanged start ≡ err forbidden)
unfolding run
refused_test = (refl, refl)

start-IsThreaded : IsThreaded start.comments
unfolding IsThreaded
start-IsThreaded = (λ id e g. absurd (ground arith), ((λ id e g. (root, reply_root id e)), tt))
  where
    reply_root :
        (id : String)
        → ◌≡◌ {A = Option String} (some "m") (some id)
        → IsRoot start.comments "acp" none id root
    reply_root id e =
        let named : ◌≡◌ {A = String} "m" id = ground arith in
        rw (← named) (record { found = refl; top = refl; group = refl })

handle-IsThreaded_example : IsThreaded answered.comments
handle-IsThreaded_example =
    Requests.handle-IsThreaded as_is files "acp" answer bob start answered start-IsThreaded
      answer_run

delete_own_comment-Changes_example :
    (c d : StoredComment) × Changes "acp" "m" 1 bob start emptied_db c d
    × (d.review.deleted ≡ true)
    × (d.comment_text ≡ [])
    × (any (λ (v : Vote). same v.comment_id "m") emptied_db.votes ≡ false)
    × ((j : String)
        → (j ≡ "m")
          ⊎ (filter (λ (v : Vote). same v.comment_id j) emptied_db.votes
              ≡ filter (λ (v : Vote). same v.comment_id j) start.votes))
delete_own_comment-Changes_example =
    delete_own_comment-Changes as_is files "acp" "m" 1 bob start emptied_db delete_run

update_own_comment-late_example :
    ((text' : Text) (actor' : Actor) (category' : Choice) (u : Database)
      → update_own_comment as_is files "acp" "m" text' 1 actor' category' edited_db ≢ ok u)
    × ((actor' : Actor) (u : Database)
        → delete_own_comment as_is files "acp" "m" 1 actor' edited_db ≢ ok u)
update_own_comment-late_example =
    update_own_comment-late as_is files "acp" "m" (b'y' ∷ []) 1 bob unchanged start edited_db
      (inl update_run)

start-OneVote : OneVote start.votes
unfolding OneVote
start-OneVote id voter = omega arith

set_vote-IsCast_example :
    OneVote voted.votes
    × IsCast (cast up) (votes_of "m" (voter_of ann) voted.votes)
    × (votes_of_others "m" (voter_of ann) voted.votes
        ≡ votes_of_others "m" (voter_of ann) start.votes)
    × ((c : StoredComment) × (find_comment "acp" "m" start.comments ≡ some c)
        × (c.review.deleted ≡ false)
        × (is_owned_by c.review ann ≡ false))
set_vote-IsCast_example =
    set_vote-IsCast as_is files "acp" "m" (cast up) ann start voted start-OneVote vote_run

-- ===== src/Threads/Votes.antt =====
-- `setVote` and `getVoteStates` of backend/src/comments/comments.service.ts, over the rows of
-- `comment_votes` (backend/src/database/migrations/1789500000000-CommentVotes.ts).
use content_pool_next.Base.{
  ℕ, String, string_eq, Bool, true, false, not, ◌&&◌, ◌||◌, Option, none, some, List, [], ◌∷◌, ◌++◌,
  any, filter, length, same, if◌then◌else◌,
}
use content_pool_next.Base.Http.{Result, ok, err, bad_request, forbidden, ◌>>=◌, ◌>>◌, throw_if}
use content_pool_next.Review.{Mode, Actor, given}
use content_pool_next.Review.Policy.{
  prepare_visibility, assert_comment_access, can_vote, can_view_comment, is_shared_mode, or_null,
}
use content_pool_next.Threads.{StoredComment, VoteValue, up, down, Vote, Database, Files}
use content_pool_next.Threads.Targets.{assert_stored_target_exists}
use content_pool_next.Threads.Operations.{find_visible}

-- What a request votes: `null`, "UP" or "DOWN", or anything else.
pub data Ballot : Type 0 where
  withdrawn malformed : Ballot
  cast : VoteValue → Ballot

-- The column that identifies a voter, with its value.
pub data Voter : Type 0 where
  user_voter credential_voter : Option String → Voter

abbrev pub voter_of : Actor → Voter
voter_of actor =
    if given actor.user_id then user_voter actor.user_id else credential_voter actor.credential_id

-- `column = value` in SQL: a missing value equals nothing
abbrev pub sql_equal : Option String → Option String → Bool
sql_equal (some a) (some b) = same a b
sql_equal _ _ = false

abbrev pub is_by : Voter → Vote → Bool
is_by (user_voter id) v = sql_equal v.user_id id
is_by (credential_voter id) v = sql_equal v.credential_id id

-- the vote of that voter on that comment
abbrev pub is_vote : String → Voter → Vote → Bool
is_vote id voter v = same v.comment_id id && is_by voter v

abbrev pub new_vote : String → Voter → VoteValue → Vote
new_vote id (user_voter user) value = record {
  comment_id = id;
  user_id = user;
  credential_id = none;
  value = value;
}
new_vote id (credential_voter credential) value = record {
  comment_id = id;
  user_id = none;
  credential_id = credential;
  value = value;
}

-- `DO UPDATE SET value`
unfoldable pub overwrite_vote : String → Voter → VoteValue → List Vote → List Vote
overwrite_vote id voter value [] = []
overwrite_vote id voter value (v ∷ vs) =
    (if is_vote id voter v then record v { value = value } else v)
    ∷ overwrite_vote id voter value vs

-- the two statements
unfoldable pub put_vote : String → Voter → Ballot → List Vote → Result (List Vote)
unfolding overwrite_vote
put_vote id voter malformed votes = err bad_request
put_vote id voter withdrawn votes = ok (filter (λ v. not (is_vote id voter v)) votes)
put_vote id voter (cast value) votes = ok (
    if any (is_vote id voter) votes
    then overwrite_vote id voter value votes
    else votes ++ new_vote id voter value ∷ [])

module _ (trim_id : String → String) (files : Files) where
  unfoldable pub set_vote : String → String → Ballot → Actor → Database → Result Database
  unfolding find_visible prepare_visibility can_vote assert_comment_access
      assert_stored_target_exists put_vote
  set_vote acp_id id ballot actor db = do
    c ← find_visible db acp_id id actor
    throw_if (not (can_vote ((prepare_visibility db.configs acp_id actor).1) c.review)) forbidden
    (mode, prepared) ← assert_comment_access db.configs acp_id actor c.review.target_type
    assert_stored_target_exists trim_id files c
    votes ← put_vote id (voter_of actor) ballot db.votes
    ok (record db { votes = votes })

pub record VoteState : Type 0 where
  pub upvotes : ℕ
  pub downvotes : ℕ
  pub my_vote : Option VoteValue
  pub can_vote : Bool

abbrev pub is_up : VoteValue → Bool
is_up up = true
is_up down = false

abbrev pub is_mine : Actor → Vote → Bool
is_mine actor v =
    sql_equal v.user_id (or_null actor.user_id)
    || sql_equal v.credential_id (or_null actor.credential_id)

-- `MAX(value)`: "UP" comes after "DOWN"
unfoldable pub max_vote : List Vote → Option VoteValue
max_vote [] = none
max_vote (v ∷ vs) =
    let rest = max_vote vs in
    if is_up v.value then some up else elim rest [ none ↦ some down | some w ↦ some w ]

abbrev pub no_votes : VoteState
no_votes = record { upvotes = 0; downvotes = 0; my_vote = none; can_vote = false }

-- The state of one comment's votes.
unfoldable pub vote_state : Mode → String → Actor → List Vote → StoredComment → VoteState
unfolding can_view_comment can_vote max_vote
vote_state mode acp_id actor votes c =
    let here = filter (λ (v : Vote). same v.comment_id c.review.id) votes in
    if is_shared_mode mode
      && not c.review.deleted
      && same c.acp_id acp_id
      && can_view_comment mode actor c.review
    then record {
      upvotes = length (filter (λ (v : Vote). is_up v.value) here);
      downvotes = length (filter (λ (v : Vote). not (is_up v.value)) here);
      my_vote = max_vote (filter (is_mine actor) here);
      can_vote = can_vote actor c.review;
    }
    else no_votes

-- ===== src/Threads/Ballots.antt =====
-- What a ballot changes: `setVote` of backend/src/comments/comments.service.ts as a whole.
use content_pool_next.Base.{
  String, string_eq, Bool, true, false, not, ◌≤◌, none, some, List, [], ◌∷◌, ◌++◌, any, filter,
  length, All, same, ◌≡◌, refl, arith, Bool-cases, inl, inr, str_eq_iff,
}
use content_pool_next.Base.Http.{ok, forbidden, not_found, throw_if, or_throw, >>=-eq-ok}
use content_pool_next.Review.{Actor, ReviewConfig, given}
use content_pool_next.Review.Visibility.{owned-prepare}
use content_pool_next.Review.Policy.{
  prepare_visibility, prepare_actor, assert_comment_access, can_vote, is_owned_by,
  find_review_config,
}
use content_pool_next.Threads.{StoredComment, VoteValue, Vote, Database, Files, find_comment}
use content_pool_next.Threads.Targets.{assert_stored_target_exists}
use content_pool_next.Threads.Operations.{find_visible}
use content_pool_next.Threads.Votes.{
  Ballot, withdrawn, malformed, cast, Voter, user_voter, credential_voter, voter_of, is_vote,
  new_vote, overwrite_vote, put_vote, set_vote,
}
use content_pool_next.Threads.VoteLaws.{
  votes_of, OneVote, put_vote-OneVote, overwritten_key, votes_of-none, votes_of-overwrite_vote,
}

-- what a ballot leaves of the votes of who cast it
pub IsCast : Ballot → List Vote → Type 0
IsCast withdrawn votes = votes ≡ []
IsCast malformed votes = ⊥
IsCast (cast value) votes = (length votes ≡ 1) × All (λ (v : Vote). v.value ≡ value) votes

abbrev pub votes_of_others : String → Voter → List Vote → List Vote
votes_of_others id voter = filter (λ v. not (is_vote id voter v))

votes_of-withdrawn :
    (id : String) (voter : Voter) (vs : List Vote)
    → votes_of id voter (votes_of_others id voter vs) ≡ []
votes_of-withdrawn id voter [] = refl
votes_of-withdrawn id voter (v ∷ vs) = elim (Bool-cases (is_vote id voter v)) [
  | inl mine ↦ rw mine (votes_of-withdrawn id voter vs)
  | inr other ↦ rw (other, other) (votes_of-withdrawn id voter vs)
]

others-withdrawn :
    (id : String) (voter : Voter) (vs : List Vote)
    → votes_of_others id voter (votes_of_others id voter vs) ≡ votes_of_others id voter vs
others-withdrawn id voter [] = refl
others-withdrawn id voter (v ∷ vs) = elim (Bool-cases (is_vote id voter v)) [
  | inl mine ↦ rw mine (others-withdrawn id voter vs)
  | inr other ↦ rw (other, other) (rw (others-withdrawn id voter vs))
]

others-overwrite_vote :
    (id : String) (voter : Voter) (value : VoteValue) (vs : List Vote)
    → votes_of_others id voter (overwrite_vote id voter value vs) ≡ votes_of_others id voter vs
unfolding overwrite_vote
others-overwrite_vote id voter value [] = refl
others-overwrite_vote id voter value (v ∷ vs) =
    let rest = others-overwrite_vote id voter value vs in
    elim (Bool-cases (is_vote id voter v)) [
      | inl mine ↦ rw (mine, overwritten_key id voter value v, mine) rest
      | inr other ↦ rw (other, other, rest)
    ]

overwritten_values :
    (id : String) (voter : Voter) (value : VoteValue) (vs : List Vote)
    → All (λ (v : Vote). v.value ≡ value) (votes_of id voter (overwrite_vote id voter value vs))
unfolding overwrite_vote
overwritten_values id voter value [] = tt
overwritten_values id voter value (v ∷ vs) =
    let rest = overwritten_values id voter value vs in
    elim (Bool-cases (is_vote id voter v)) [
      | inl mine ↦ rw (mine, overwritten_key id voter value v, mine) (refl, rest)
      | inr other ↦ rw (other, other) rest
    ]

votes_of-some :
    (id : String) (voter : Voter) (vs : List Vote)
    → any (is_vote id voter) vs ≡ true
    → 1 ≤ length (votes_of id voter vs)
votes_of-some id voter [] h = absurd (ground arith)
votes_of-some id voter (v ∷ vs) h = ground (arith, votes_of-some id voter vs)

filter-append : (p : Vote → Bool) (s t : List Vote) → filter p (s ++ t) ≡ filter p s ++ filter p t
filter-append p [] t = refl
filter-append p (v ∷ s) t = elim (Bool-cases (p v)) [
  | inl kept ↦ rw (kept, filter-append p s t)
  | inr dropped ↦ rw (dropped, filter-append p s t)
]

others-append :
    (id : String) (voter : Voter) (vs : List Vote) (x : Vote)
    → is_vote id voter x ≡ true
    → votes_of_others id voter (vs ++ x ∷ []) ≡ votes_of_others id voter vs
others-append id voter [] x h = rw h
others-append id voter (v ∷ vs) x h = elim (Bool-cases (is_vote id voter v)) [
  | inl mine ↦ rw mine (others-append id voter vs x h)
  | inr other ↦ rw (other, others-append id voter vs x h)
]

new_vote_value :
    (id : String) (voter : Voter) (value : VoteValue) → (new_vote id voter value).value ≡ value
new_vote_value id (user_voter u) value = refl
new_vote_value id (credential_voter c) value = refl

put_vote-IsCast :
    (id : String) (voter : Voter) (ballot : Ballot) (s t : List Vote)
    → ((value : VoteValue) → is_vote id voter (new_vote id voter value) ≡ true)
    → OneVote s
    → put_vote id voter ballot s ≡ ok t
    → IsCast ballot (votes_of id voter t)
      × (votes_of_others id voter t ≡ votes_of_others id voter s)
unfolding put_vote OneVote IsCast
put_vote-IsCast id voter malformed s t known h e = absurd (ground arith)
put_vote-IsCast id voter withdrawn s t known h e =
    let rest : votes_of_others id voter s ≡ t = ground arith in
    rw (← rest) (votes_of-withdrawn id voter s, others-withdrawn id voter s)
put_vote-IsCast id voter (cast value) s t known h e =
    let most = h id voter in
    elim (Bool-cases (any (is_vote id voter) s)) [
      | inl there ↦
          let rest : overwrite_vote id voter value s ≡ t = ground (arith, rw there at e) in
          let least = votes_of-some id voter s there in
          let same_count = votes_of-overwrite_vote id voter id voter value s in
          rw (← rest) (
            (omega arith, overwritten_values id voter value s),
            others-overwrite_vote id voter value s,
          )
      | inr new ↦
          let rest : s ++ new_vote id voter value ∷ [] ≡ t = ground (arith, rw new at e) in
          rw (← rest) (
            rw
              (
                filter-append (is_vote id voter) s (new_vote id voter value ∷ []),
                votes_of-none id voter s new,
                known value,
              )
              (
                (refl, (new_vote_value id voter value, tt)),
                others-append id voter s (new_vote id voter value) (known value),
              ))
    ]

abbrev is_known : Voter → Bool
is_known (user_voter id) = given id
is_known (credential_voter id) = given id

same_refl : (a : String) → same a a ≡ true
same_refl a = ground (arith, str_eq_iff a a)

own_vote :
    (id : String) (voter : Voter) (value : VoteValue)
    → is_known voter ≡ true
    → is_vote id voter (new_vote id voter value) ≡ true
own_vote id (user_voter none) value h = absurd (ground arith)
own_vote id (user_voter (some a)) value h = rw (same_refl id, same_refl a)
own_vote id (credential_voter none) value h = absurd (ground arith)
own_vote id (credential_voter (some a)) value h = rw (same_refl id, same_refl a)

-- whoever may vote is found by the vote that is cast
voter_of-is_vote :
    (rows : List ReviewConfig) (acp_id id : String) (actor : Actor) (c : StoredComment)
    → can_vote ((prepare_visibility rows acp_id actor).1) c.review ≡ true
    → (value : VoteValue) → is_vote id (voter_of actor) (new_vote id (voter_of actor) value) ≡ true
unfolding can_vote prepare_visibility prepare_actor
voter_of-is_vote rows acp_id id actor c h value =
    own_vote id (voter_of actor) value (elim (Bool-cases (given actor.user_id)) [
      | inl user ↦ rw (user, user)
      | inr anonymous ↦ rw anonymous (ground arith)
    ])

not_own :
    (rows : List ReviewConfig) (acp_id : String) (actor : Actor) (c : StoredComment)
    → can_vote ((prepare_visibility rows acp_id actor).1) c.review ≡ true
    → is_owned_by c.review actor ≡ false
unfolding can_vote prepare_visibility
not_own rows acp_id actor c h =
    ground (arith, owned-prepare (find_review_config rows acp_id) actor c.review)

find_visible-live :
    (db : Database) (acp_id id : String) (actor : Actor) (c : StoredComment)
    → find_visible db acp_id id actor ≡ ok c
    → (find_comment acp_id id db.comments ≡ some c) × (c.review.deleted ≡ false)
unfolding find_visible
find_visible-live db acp_id id actor c e =
    let (d, found, tail) =
      >>=-eq-ok (or_throw (find_comment acp_id id db.comments) not_found) _ e in
    let first : d ≡ c = ground (arith, tail) in
    rw (← first) (ground (arith, found), ground (arith, tail))

module _ (trim_id : String → String) (files : Files) where
  -- A vote that is accepted is on a live comment that somebody else has written. It leaves one vote
  -- of the voter's on that comment with the value that was cast, or none where it was withdrawn; all
  -- other votes stay, and nobody has two votes on one comment.
  pub set_vote-IsCast :
      (acp_id id : String) (ballot : Ballot) (actor : Actor) (s t : Database)
      → OneVote s.votes
      → set_vote trim_id files acp_id id ballot actor s ≡ ok t
      → OneVote t.votes
        × IsCast ballot (votes_of id (voter_of actor) t.votes)
        × (votes_of_others id (voter_of actor) t.votes
            ≡ votes_of_others id (voter_of actor) s.votes)
        × ((c : StoredComment) × (find_comment acp_id id s.comments ≡ some c)
            × (c.review.deleted ≡ false)
            × (is_owned_by c.review actor ≡ false))
  unfolding set_vote
  set_vote-IsCast acp_id id ballot actor s t h e =
      let (c, shown, e1) = >>=-eq-ok (find_visible s acp_id id actor) _ e in
      let prepared = (prepare_visibility s.configs acp_id actor).1 in
      let (_, voting, e2) =
        >>=-eq-ok (throw_if (not (can_vote prepared c.review)) forbidden) _ e1 in
      let ((mode, again), access, e3) =
        >>=-eq-ok (assert_comment_access s.configs acp_id actor c.review.target_type) _ e2 in
      let (_, exists, e4) = >>=-eq-ok (assert_stored_target_exists trim_id files c) _ e3 in
      let (votes, put, e5) = >>=-eq-ok (put_vote id (voter_of actor) ballot s.votes) _ e4 in
      let kept : votes ≡ t.votes = ground (arith, e5) in
      let may : can_vote prepared c.review ≡ true = ground (arith, voting) in
      let known = voter_of-is_vote s.configs acp_id id actor c may in
      let (chosen, others) = put_vote-IsCast id (voter_of actor) ballot s.votes votes known h put in
      let (found, live) = find_visible-live s acp_id id actor c shown in
      rw (← kept) (
        put_vote-OneVote id (voter_of actor) ballot s.votes votes h put,
        chosen,
        others,
        (c, found, live, not_own s.configs acp_id actor c may),
      )

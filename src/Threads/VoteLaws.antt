-- ===== src/Threads/VoteLaws.antt =====
-- One vote per person and comment, through the statements that write votes
-- (backend/src/comments/comments.service.ts).
use content_pool_next.Base.{
  String, string_eq, Bool, true, false, not, ◌+◌, ◌≤◌, none, some, List, [], ◌∷◌, ◌++◌, any, filter,
  length, ◌≡◌, refl, arith, Bool-cases, inl, inr, if◌then◌else◌, str_eq_iff,
}
use content_pool_next.Base.Http.{ok}
use content_pool_next.Threads.{VoteValue, Vote}
use content_pool_next.Threads.Votes.{
  Ballot, withdrawn, malformed, cast, Voter, user_voter, credential_voter, is_vote, new_vote,
  overwrite_vote, put_vote,
}

abbrev pub votes_of : String → Voter → List Vote → List Vote
votes_of id voter = filter (is_vote id voter)

-- the unique indexes of the table
unfoldable pub OneVote : List Vote → Type 0
OneVote votes = (id : String) (voter : Voter) → length (votes_of id voter votes) ≤ 1

filter-filter-le :
    (p q : Vote → Bool) (vs : List Vote) → length (filter p (filter q vs)) ≤ length (filter p vs)
filter-filter-le p q [] = omega arith
filter-filter-le p q (v ∷ vs) =
    let rest = filter-filter-le p q vs in
    elim (Bool-cases (q v)) [
      | inl kept ↦ elim (Bool-cases (p v)) [
        | inl hit ↦ rw (kept, hit) (omega arith)
        | inr miss ↦ rw (kept, miss) rest
      ]
      | inr dropped ↦ elim (Bool-cases (p v)) [
        | inl hit ↦ rw (dropped, hit) (omega arith)
        | inr miss ↦ rw (dropped, miss) rest
      ]
    ]

pub overwritten_key :
    (j : String) (w : Voter) (value : VoteValue) (v : Vote)
    → is_vote j w (record v { value = value }) ≡ is_vote j w v
overwritten_key j (user_voter id) value v = refl
overwritten_key j (credential_voter id) value v = refl

pub votes_of-overwrite_vote :
    (j : String) (w : Voter) (id : String) (voter : Voter) (value : VoteValue) (vs : List Vote)
    → length (votes_of j w (overwrite_vote id voter value vs)) ≡ length (votes_of j w vs)
unfolding overwrite_vote
votes_of-overwrite_vote j w id voter value [] = refl
votes_of-overwrite_vote j w id voter value (v ∷ vs) =
    let rest = votes_of-overwrite_vote j w id voter value vs in
    elim (Bool-cases (is_vote id voter v)) [
      | inl hit ↦
          rw (hit, overwritten_key j w value v)
            (elim (Bool-cases (is_vote j w v)) [
              | inl mine ↦ rw (mine, rest)
              | inr other ↦ rw (other, rest)
            ])
      | inr miss ↦ rw miss (elim (Bool-cases (is_vote j w v)) [
        | inl mine ↦ rw (mine, rest)
        | inr other ↦ rw (other, rest)
      ])
    ]

-- a voter that a new vote is found by is the one who cast it
new_vote-is_vote :
    (j : String) (w : Voter) (id : String) (voter : Voter) (value : VoteValue)
    → is_vote j w (new_vote id voter value) ≡ true
    → (j ≡ id) × (w ≡ voter)
new_vote-is_vote j (user_voter none) id (user_voter b) value h = absurd (ground arith)
new_vote-is_vote j (user_voter (some a)) id (user_voter none) value h = absurd (ground arith)
new_vote-is_vote j (user_voter (some a)) id (user_voter (some b)) value h =
    ground (arith, str_eq_iff id j, str_eq_iff b a)
new_vote-is_vote j (user_voter a) id (credential_voter b) value h = absurd (ground arith)
new_vote-is_vote j (credential_voter a) id (user_voter b) value h = absurd (ground arith)
new_vote-is_vote j (credential_voter none) id (credential_voter b) value h = absurd (ground arith)
new_vote-is_vote j (credential_voter (some a)) id (credential_voter none) value h =
    absurd (ground arith)
new_vote-is_vote j (credential_voter (some a)) id (credential_voter (some b)) value h =
    ground (arith, str_eq_iff id j, str_eq_iff b a)

pub votes_of-none :
    (id : String) (voter : Voter) (vs : List Vote)
    → any (is_vote id voter) vs ≡ false
    → votes_of id voter vs ≡ []
votes_of-none id voter [] h = refl
votes_of-none id voter (v ∷ vs) h = ground (arith, votes_of-none id voter vs)

votes_of-append :
    (id : String) (voter : Voter) (vs : List Vote) (v : Vote)
    → length (votes_of id voter (vs ++ v ∷ []))
      ≡ length (votes_of id voter vs) + (if is_vote id voter v then 1 else 0)
votes_of-append id voter [] v = ground arith
votes_of-append id voter (x ∷ vs) v = ground (arith, votes_of-append id voter vs v)

pub put_vote-OneVote :
    (id : String) (voter : Voter) (ballot : Ballot) (s t : List Vote)
    → OneVote s
    → put_vote id voter ballot s ≡ ok t
    → OneVote t
unfolding put_vote OneVote
put_vote-OneVote id voter malformed s t h e = absurd (ground arith)
put_vote-OneVote id voter withdrawn s t h e = λ j w.
    let rest : filter (λ v. not (is_vote id voter v)) s ≡ t = ground arith in
    let fewer = filter-filter-le (is_vote j w) (λ v. not (is_vote id voter v)) s in
    let before = h j w in rw (← rest) (omega arith)
put_vote-OneVote id voter (cast value) s t h e = λ j w.
    elim (Bool-cases (any (is_vote id voter) s)) [
      | inl there ↦
          let rest : overwrite_vote id voter value s ≡ t = ground (arith, rw there at e) in
          rw (← rest) (rw (votes_of-overwrite_vote j w id voter value s) (h j w))
      | inr new ↦
          let rest : s ++ new_vote id voter value ∷ [] ≡ t = ground (arith, rw new at e) in
          rw (← rest) (
            rw (votes_of-append j w s (new_vote id voter value))
              (elim (Bool-cases (is_vote j w (new_vote id voter value))) [
                | inl mine ↦
                    let (at_id, by) = new_vote-is_vote j w id voter value mine in
                    rw mine (rw (at_id, by) (rw (votes_of-none id voter s new) (omega arith)))
                | inr other ↦ rw other (let before = h j w in omega arith)
              ]))
    ]

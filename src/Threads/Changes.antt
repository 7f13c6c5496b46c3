-- ===== src/Threads/Changes.antt =====
-- What an accepted change of a comment (backend/src/comments/comments.service.ts) was based on, and
-- what it leaves of the comments and of the votes.
use content_pool_next.Base.{
  ℕ, String, string_eq, true, false, ◌&&◌, ◌+◌, Option, some, List, [], ◌∷◌, find_sound, ◌∙◌, same,
  ==_iff, ◌≡◌, ◌⊎◌, inl, inr, refl, arith, any, filter, Bool-cases, str_eq_iff,
}
use content_pool_next.Base.Text.{Text, trim}
use content_pool_next.Base.Http.{ok, not_found, or_throw, >>=-eq-ok}
use content_pool_next.Review.{Actor, CommentTarget, Mode, ReviewConfig}
use content_pool_next.Review.Policy.{
  is_owned_by, can_view_comment, prepare_visibility, assert_can_mutate, assert_comment_access,
}
use content_pool_next.Threads.{StoredComment, Vote, Database, find_comment}
use content_pool_next.Threads.Operations.{
  find_visible, find_mutable_comment, is_current, versioned_update, edited, emptied,
  normalize_comment_text, drop_votes,
}
use content_pool_next.Threads.Store.{
  Keeps, find-update_where, find-update_other, versioned_update-rows,
}

pub edited-Keeps : (v : ℕ) (category : Option String) (text : Text) → Keeps (edited v category text)
edited-Keeps v category text = record {
  id = λ c. refl;
  acp = λ c. refl;
  parent = λ c. refl;
  group = λ c. refl;
}

pub emptied-Keeps : (v : ℕ) → Keeps (emptied v)
emptied-Keeps v = record { id = λ c. refl; acp = λ c. refl; parent = λ c. refl; group = λ c. refl }

-- A comment that its author may change here: stored, live, visible and no legacy comment.
pub record IsMutable (db : Database) (acp_id id : String) (actor : Actor) (c : StoredComment)
    : Type 0 where
  pub found : find_comment acp_id id db.comments ≡ some c
  pub live : c.review.deleted ≡ false
  pub owned : is_owned_by c.review actor ≡ true
  pub writable : c.review.legacy_read_only ≡ false
  pub visible :
      let seen = prepare_visibility db.configs acp_id actor in
      can_view_comment seen.0 seen.1 c.review ≡ true

pub find_mutable_comment-IsMutable :
    (db : Database) (acp_id id : String) (actor : Actor) (c : StoredComment)
    → find_mutable_comment db acp_id id actor ≡ ok c
    → IsMutable db acp_id id actor c
unfolding find_mutable_comment find_visible assert_can_mutate
find_mutable_comment-IsMutable db acp_id id actor c e =
    let (d, shown, rest) = >>=-eq-ok (find_visible db acp_id id actor) _ e in
    let (d', found, tail) =
      >>=-eq-ok (or_throw (find_comment acp_id id db.comments) not_found) _ shown in
    let same_row : d' ≡ d = ground (arith, tail) in
    let result : d ≡ c = ground (arith, rest) in
    let first : d' ≡ c = same_row ∙ result in
    record {
      found = ground (arith, found, first);
      live = rw (← first) (ground (arith, tail));
      owned = rw (← result) (ground (arith, rest));
      writable = rw (← result) (ground (arith, rest));
      visible = rw (← first) (ground (arith, tail));
    }

is_current-true :
    (acp_id id : String) (c : StoredComment) (cs : List StoredComment)
    → find_comment acp_id id cs ≡ some c
    → c.review.deleted ≡ false
    → is_current acp_id id c.version c ≡ true
is_current-true acp_id id c cs found live =
    let named =
      find_sound (λ (c : StoredComment). same c.review.id id && same c.acp_id acp_id) cs c found in
    ground (arith, ==_iff c.version c.version)

-- What an accepted change of a comment was based on, and what it leaves.
pub record Changes (acp_id id : String) (version : ℕ) (actor : Actor) (s t : Database)
    (c d : StoredComment) : Type 0 where
  pub mutable : IsMutable s acp_id id actor c
  pub current : c.version ≡ version
  pub after : find_comment acp_id id t.comments ≡ some d
  pub raised : d.version ≡ version + 1
  pub others :
      (b j : String)
      → ((j ≡ id) × (b ≡ acp_id)) ⊎ (find_comment b j t.comments ≡ find_comment b j s.comments)

-- Any change in place whose rows are those of a versioned update.
pub versioned-Changes :
    (acp_id id : String) (version : ℕ) (actor : Actor) (s t : Database)
    (change : StoredComment → StoredComment) (c : StoredComment)
    → Keeps change
    → (change c).version ≡ version + 1
    → IsMutable s acp_id id actor c
    → c.version ≡ version
    → versioned_update acp_id id version change s.comments ≡ ok t.comments
    → Changes acp_id id version actor s t c (change c)
versioned-Changes acp_id id version actor s t change c k up m v e =
    let rows = versioned_update-rows acp_id id version change s.comments t.comments e in
    let hit : is_current acp_id id version c ≡ true =
      rw (← v) (is_current-true acp_id id c s.comments m.found m.live) in
    record {
      mutable = m;
      current = v;
      after = rw (← rows) (
          rw
            (find-update_where (is_current acp_id id version) change acp_id id s.comments c k
              m.found)
            (rw hit));
      raised = up;
      others = λ b j. elim (Bool-cases (same j id && same b acp_id)) [
        | inl here ↦ inl (ground (arith, str_eq_iff j id), ground (arith, str_eq_iff b acp_id))
        | inr other ↦
            inr (rw (← rows) (find-update_other acp_id id b j version change s.comments k other))
      ];
    }

-- What the checks of a request hand over.
pub prepared_actor :
    (rows : List ReviewConfig) (acp_id : String) (actor prepared : Actor) (target : CommentTarget)
    (mode : Mode)
    → assert_comment_access rows acp_id actor target ≡ ok (mode, prepared)
    → (prepare_visibility rows acp_id actor).1 ≡ prepared
unfolding assert_comment_access prepare_visibility
prepared_actor rows acp_id actor prepared target mode e = ground arith

pub normalized_text :
    (text normalized : Text) → normalize_comment_text text ≡ ok normalized → trim text ≡ normalized
unfolding normalize_comment_text
normalized_text text normalized e = ground arith

pub dropped_votes :
    (id : String) (votes : List Vote)
    → any (λ (v : Vote). same v.comment_id id) (drop_votes id votes) ≡ false
unfolding drop_votes
dropped_votes id [] = refl
dropped_votes id (v ∷ votes) = ground (arith, dropped_votes id votes)

kept_votes :
    (id j : String) (votes : List Vote)
    → same j id ≡ false
    → filter (λ (v : Vote). same v.comment_id j) (drop_votes id votes)
      ≡ filter (λ (v : Vote). same v.comment_id j) votes
unfolding drop_votes
kept_votes id j [] h = refl
kept_votes id j (v ∷ votes) h = elim (Bool-cases (same v.comment_id id)) [
  | inl own ↦
      let away : same v.comment_id j ≡ false =
        ground (arith, str_eq_iff v.comment_id id, str_eq_iff v.comment_id j, str_eq_iff j id) in
      rw (own, away, kept_votes id j votes h)
  | inr foreign ↦ rw (foreign, kept_votes id j votes h)
]

pub votes_of_others :
    (id j : String) (votes : List Vote)
    → (j ≡ id)
      ⊎ (filter (λ (v : Vote). same v.comment_id j) (drop_votes id votes)
          ≡ filter (λ (v : Vote). same v.comment_id j) votes)
votes_of_others id j votes = elim (Bool-cases (same j id)) [
  | inl here ↦ inl ((str_eq_iff j id).0 here)
  | inr other ↦ inr (kept_votes id j votes other)
]

pub late_version :
    (acp_id id : String) (version : ℕ) (t : Database) (d c : StoredComment)
    → find_comment acp_id id t.comments ≡ some d
    → d.version ≡ version + 1
    → find_comment acp_id id t.comments ≡ some c
    → c.version ≡ version
    → ⊥
late_version acp_id id version t d c after raised found current = ground arith

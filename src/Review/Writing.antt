-- ===== src/Review/Writing.antt =====
-- Who may write: authorship, the targets that take comments, categories and author names.
use content_pool_next.Base.{
  number_eq, String, string_eq, Bool, true, false, ◌&&◌, Option, none, some, List, [], ◌∷◌, All,
  find, same, str_eq_iff, ◌≡◌, ◌≢◌, ◌↔◌, ◌⊎◌, inl, inr, refl, arith, Bool-cases, Option-cases,
  find_sound,
}
use content_pool_next.Base.Text.{Text}
use content_pool_next.Base.Http.{ok, err, forbidden}
use content_pool_next.Review.{
  CommentTarget, Comment, CommentCategory, ReviewConfig, Mode, Actor, given, same_text,
}
use content_pool_next.Review.Policy.{
  ReviewUser, ReviewRequest, is_display_name, comment_author_name, actor_of, resolve_actor,
  may_participate, signed_in, or_unknown, has_identity, is_task_sequence, assert_comment_access,
  assert_count_access, is_commenting_enabled, assert_can_mutate, exactly_one, chosen,
  select_category,
}

-- The two texts are one non-empty id.
abbrev pub AreOneId : Option String → Option String → Type 0
AreOneId a b = (id : String) × (a ≡ some id) × (b ≡ some id) × (id ≢ "")

one_id : (a b : Option String) → (given a && given b) ≡ true → same_text a b ≡ true → AreOneId a b
one_id none b g h = absurd (ground arith)
one_id (some x) none g h = absurd (ground arith)
one_id (some x) (some y) g h =
    (x, refl, ground (arith, str_eq_iff x y), λ e. ground (arith, str_eq_iff x ""))

one_id-given : (a b : Option String) → AreOneId a b → (given a && given b && same_text a b) ≡ true
one_id-given a b (id, p, q, nonempty) = ground (arith, str_eq_iff id "", str_eq_iff id id)

-- A comment is changed by its author alone, whatever other rights the actor has: both carry one
-- user id or, where not both carry a user id, one credential id.
pub assert_can_mutate_iff :
    (actor : Actor) (comment : Comment)
    → (assert_can_mutate actor comment ≡ ok tt) ↔ (
        AreOneId actor.user_id comment.user_id
        ⊎ (((given actor.user_id && given comment.user_id) ≡ false)
            × AreOneId actor.credential_id comment.credential_id))
unfolding assert_can_mutate
assert_can_mutate_iff actor comment = (to, from)
  where
    to :
        assert_can_mutate actor comment ≡ ok tt
        → (AreOneId actor.user_id comment.user_id
            ⊎ (((given actor.user_id && given comment.user_id) ≡ false)
                × AreOneId actor.credential_id comment.credential_id))
    to e = elim (Bool-cases (given actor.user_id && given comment.user_id)) [
      | inl users ↦ inl (one_id actor.user_id comment.user_id users (ground arith))
      | inr apart ↦
          inr
            (apart, one_id actor.credential_id comment.credential_id (ground arith) (ground arith))
    ]

    from :
        (AreOneId actor.user_id comment.user_id
          ⊎ (((given actor.user_id && given comment.user_id) ≡ false)
              × AreOneId actor.credential_id comment.credential_id))
        → assert_can_mutate actor comment ≡ ok tt
    from (inl users) = ground (arith, one_id-given actor.user_id comment.user_id users)
    from (inr (apart, credentials)) =
        ground (arith, one_id-given actor.credential_id comment.credential_id credentials)

module _ (rows : List ReviewConfig) (acp_id : String) (actor : Actor) where
  -- For anybody but a manager, signed in and at no legacy target, comments are open exactly where
  -- the public test of the feature says so.
  pub assert_comment_access_iff :
      (target : CommentTarget)
      → actor.is_manager ≡ false
      → has_identity actor ≡ true
      → is_task_sequence target ≡ false
      → (assert_comment_access rows acp_id actor target ≡ err forbidden)
        ↔ (is_commenting_enabled rows acp_id target ≡ false)
  unfolding assert_comment_access is_commenting_enabled
  assert_comment_access_iff target plain known live = ground arith

  -- Every target whose comments may be counted may be commented on, with the same visibility.
  pub assert_count_access-targets :
      (mode : Mode) (targets : List CommentTarget) (prepared : Actor)
      → assert_count_access rows acp_id actor ≡ ok (mode, targets, prepared)
      → All (λ t. assert_comment_access rows acp_id actor t ≡ ok (mode, prepared)) targets
  unfolding assert_count_access assert_comment_access
  assert_count_access-targets mode targets prepared e = ground arith

-- The author name that a comment gets is never empty and never an e-mail address.
comment_author_name-display :
    (candidates : List (Option Text)) (name : Text)
    → comment_author_name candidates ≡ some name
    → is_display_name name ≡ true
unfolding comment_author_name
comment_author_name-display [] name e = absurd (ground arith)
comment_author_name-display (c ∷ candidates) name e =
    ground (arith, comment_author_name-display candidates name)

or_unknown-display :
    (candidates : List (Option Text))
    → is_display_name (or_unknown (comment_author_name candidates)) ≡ true
or_unknown-display candidates = elim (Option-cases (comment_author_name candidates)) [
  | inl missing ↦ rw missing
  | inr (name, found) ↦ rw found (comment_author_name-display candidates name found)
]

actor_identity :
    (user : Option ReviewUser) (manager participates : Bool)
    → (participates ≡ true → signed_in user ≡ true)
    → let a = actor_of user manager participates in
      ((given a.user_id && given a.credential_id) ≡ false)
      × (a.can_participate ≡ true → exactly_one (given a.user_id) (given a.credential_id) ≡ true)
      × (is_display_name a.author_label ≡ true)
unfolding actor_of
actor_identity none manager participates h = (refl, λ p. ground arith, refl)
actor_identity (some u) manager participates h =
    (ground arith, λ p. ground arith, or_unknown-display _)

-- An actor has one identity at most, exactly one where it may participate, and an author name that
-- is neither empty nor an e-mail address.
pub resolve_actor-identity :
    (req : ReviewRequest)
    → ((given (resolve_actor req).user_id && given (resolve_actor req).credential_id) ≡ false)
      × ((resolve_actor req).can_participate ≡ true
          → exactly_one
              (given (resolve_actor req).user_id)
              (given (resolve_actor req).credential_id)
            ≡ true)
      × (is_display_name (resolve_actor req).author_label ≡ true)
unfolding resolve_actor
resolve_actor-identity req = actor_identity req.user _ (may_participate req) (ground arith)

same_id :
    (current : Option String) (id : String) → same_text (some id) current ≡ true → current ≡ some id
same_id none id h = absurd (ground arith)
same_id (some text) id h = ground (arith, str_eq_iff id text)

-- A category that a request chooses, where the choice is accepted, is one of the ACP's, and it is
-- archived only if the comment has it already.
pub select_category-chosen :
    (actor : Actor) (id : String) (current result : Option String)
    → select_category actor (chosen id) current ≡ ok result
    → (result ≡ some id)
      × ((category : CommentCategory) × (find (λ c. same c.id id) actor.categories ≡ some category)
          × ((category.archived ≡ false) ⊎ (current ≡ some id)))
unfolding select_category
select_category-chosen actor id current result e =
    elim (Option-cases (find (λ (c : CommentCategory). same c.id id) actor.categories)) [
      | inl missing ↦ absurd (ground arith)
      | inr (category, found) ↦
          let named = find_sound (λ (c : CommentCategory). same c.id id) _ category found in
          (ground (arith, str_eq_iff category.id id), (category, found, kept category found))
    ]
  where
    kept :
        (category : CommentCategory)
        → find (λ c. same c.id id) actor.categories ≡ some category
        → (category.archived ≡ false) ⊎ (current ≡ some id)
    kept category found = elim (Bool-cases category.archived) [
      | inl archived ↦ inr (same_id current id (ground arith))
      | inr active ↦ inl active
    ]

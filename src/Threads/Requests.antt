-- ===== src/Threads/Requests.antt =====
-- The shape of threads across every request that writes comments.
use content_pool_next.Base.{ℕ, String, string_eq, not, none, [], ◌∷◌, ◌++◌, ◌≡◌, arith, ◌==◌}
use content_pool_next.Base.Text.{Text}
use content_pool_next.Base.Http.{Result, ok, conflict, throw_if, >>=-eq-ok}
use content_pool_next.Review.{Actor}
use content_pool_next.Review.Policy.{Choice, assert_comment_access, select_category}
use content_pool_next.Threads.{Database, Files, ReviewCommentTarget}
use content_pool_next.Threads.Targets.{resolve_review_target, assert_stored_target_exists}
use content_pool_next.Threads.Operations.{
  CommentInput, place_of, new_comment, create_review_comment, update_own_comment,
  delete_own_comment, normalize_comment_text, find_mutable_comment, versioned_update, edited,
  emptied, is_current,
}
use content_pool_next.Threads.Store.{versioned_update-rows}
use content_pool_next.Threads.Changes.{edited-Keeps, emptied-Keeps}
use content_pool_next.Threads.Shape.{
  IsThreaded, update_where-IsThreaded, append-IsThreaded, place_of-IsRoot,
}

-- A request on one ACP, by an actor.
pub data Request : Type 0 where
  create : String → ReviewCommentTarget → CommentInput → Request
  update : String → Text → ℕ → Choice → Request
  delete : String → ℕ → Request

module _ (trim_id : String → String) (files : Files) (acp_id : String) where
  unfoldable pub handle : Request → Actor → Database → Result Database
  handle (create id target input) actor db =
      create_review_comment trim_id files id acp_id target input actor db
  handle (update id text version category) actor db =
      update_own_comment trim_id files acp_id id text version actor category db
  handle (delete id version) actor db = delete_own_comment trim_id files acp_id id version actor db

  create-IsThreaded :
      (id : String) (input : ReviewCommentTarget) (body : CommentInput) (actor : Actor)
      (s t : Database)
      → IsThreaded s.comments
      → create_review_comment trim_id files id acp_id input body actor s ≡ ok t
      → IsThreaded t.comments
  unfolding create_review_comment
  create-IsThreaded id input body actor s t h e =
      let ((mode, prepared), access, e1) =
        >>=-eq-ok (assert_comment_access s.configs acp_id actor input.target_type) _ e in
      let (target, resolved, e2) = >>=-eq-ok (resolve_review_target trim_id files input) _ e1 in
      let (place, placed, e3) =
        >>=-eq-ok (place_of s acp_id mode prepared target body body.parent_comment_id) _ e2 in
      let (category, selected, e4) = >>=-eq-ok (select_category prepared body.category none) _ e3 in
      let (text, fit, e5) = >>=-eq-ok (normalize_comment_text body.comment_text) _ e4 in
      let c = new_comment id acp_id prepared target place category text in
      let rows : s.comments ++ c ∷ [] ≡ t.comments = ground (arith, e5) in
      rw (← rows) (
        append-IsThreaded s.comments c h (λ p parent g.
          place_of-IsRoot s acp_id mode prepared target body body.parent_comment_id place h placed p
            parent))

  update-IsThreaded :
      (id : String) (text : Text) (version : ℕ) (actor : Actor) (category : Choice) (s t : Database)
      → IsThreaded s.comments
      → update_own_comment trim_id files acp_id id text version actor category s ≡ ok t
      → IsThreaded t.comments
  unfolding update_own_comment
  update-IsThreaded id text version actor category s t h e =
      let (c, found, e1) = >>=-eq-ok (find_mutable_comment s acp_id id actor) _ e in
      let ((mode, prepared), access, e2) =
        >>=-eq-ok (assert_comment_access s.configs acp_id actor c.review.target_type) _ e1 in
      let (normalized, fit, e3) = >>=-eq-ok (normalize_comment_text text) _ e2 in
      let (_, current, e4) = >>=-eq-ok (throw_if (not (c.version == version)) conflict) _ e3 in
      let (_, exists, e5) = >>=-eq-ok (assert_stored_target_exists trim_id files c) _ e4 in
      let (category_id, selected, e6) =
        >>=-eq-ok (select_category prepared category c.category_id) _ e5 in
      let change = edited version category_id normalized in
      let (comments, updated, e7) =
        >>=-eq-ok (versioned_update acp_id id version change s.comments) _ e6 in
      let kept : comments ≡ t.comments = ground (arith, e7) in
      rw (← kept) (
        rw (← (versioned_update-rows acp_id id version change s.comments comments updated)) (
          update_where-IsThreaded (is_current acp_id id version) change s.comments
            (edited-Keeps version category_id normalized) h))

  delete-IsThreaded :
      (id : String) (version : ℕ) (actor : Actor) (s t : Database)
      → IsThreaded s.comments
      → delete_own_comment trim_id files acp_id id version actor s ≡ ok t
      → IsThreaded t.comments
  unfolding delete_own_comment
  delete-IsThreaded id version actor s t h e =
      let (c, found, e1) = >>=-eq-ok (find_mutable_comment s acp_id id actor) _ e in
      let ((mode, prepared), access, e2) =
        >>=-eq-ok (assert_comment_access s.configs acp_id actor c.review.target_type) _ e1 in
      let (_, current, e4) = >>=-eq-ok (throw_if (not (c.version == version)) conflict) _ e2 in
      let (_, exists, e5) = >>=-eq-ok (assert_stored_target_exists trim_id files c) _ e4 in
      let (comments, updated, e6) =
        >>=-eq-ok (versioned_update acp_id id version (emptied version) s.comments) _ e5 in
      let kept : comments ≡ t.comments = ground (arith, e6) in
      rw (← kept) (
        rw
          (← (
            versioned_update-rows acp_id id version (emptied version) s.comments comments updated))
          (update_where-IsThreaded (is_current acp_id id version) (emptied version) s.comments
            (emptied-Keeps version) h))

  -- Every request that succeeds keeps threads two levels deep: whatever a reply answers, it hangs on
  -- a stored comment that is no reply, of the same ACP and the same group. Deleted comments keep
  -- their place.
  pub handle-IsThreaded :
      (r : Request) (actor : Actor) (s t : Database)
      → IsThreaded s.comments
      → handle r actor s ≡ ok t
      → IsThreaded t.comments
  unfolding handle
  handle-IsThreaded (create id target input) actor s t h e =
      create-IsThreaded id target input actor s t h e
  handle-IsThreaded (update id text version category) actor s t h e =
      update-IsThreaded id text version actor category s t h e
  handle-IsThreaded (delete id version) actor s t h e = delete-IsThreaded id version actor s t h e

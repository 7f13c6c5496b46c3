-- ===== src/Threads/Versions.antt =====
-- Who changes which comment, and what happens to a change that comes too late: `updateOwnComment` and
-- `deleteOwnComment` of backend/src/comments/comments.service.ts.
use content_pool_next.Base.{
  ℕ, String, string_eq, true, false, not, ◌+◌, [], ap, sym, ◌∙◌, same, ◌==◌, ==_iff, ◌≡◌, ◌≢◌, ◌⊎◌,
  inl, inr, refl, arith, any, filter,
}
use content_pool_next.Base.Text.{Text, trim}
use content_pool_next.Base.Http.{ok, conflict, throw_if, >>=-eq-ok}
use content_pool_next.Review.{Actor}
use content_pool_next.Review.Policy.{
  Choice, prepare_visibility, assert_comment_access, select_category,
}
use content_pool_next.Threads.{StoredComment, Vote, Database, Files}
use content_pool_next.Threads.Targets.{assert_stored_target_exists}
use content_pool_next.Threads.Operations.{
  find_mutable_comment, versioned_update, edited, emptied, update_own_comment, delete_own_comment,
  normalize_comment_text, drop_votes,
}
use content_pool_next.Threads.Changes.{
  edited-Keeps, emptied-Keeps, find_mutable_comment-IsMutable, Changes, versioned-Changes,
  prepared_actor, normalized_text, dropped_votes, votes_of_others, late_version,
}

module _ (trim_id : String → String) (files : Files) where
  pub update_own_comment-Changes :
      (acp_id id : String) (text : Text) (version : ℕ) (actor : Actor) (category : Choice)
      (s t : Database)
      → update_own_comment trim_id files acp_id id text version actor category s ≡ ok t
      → (c d : StoredComment) × Changes acp_id id version actor s t c d
        × (d ≡ record c {
          category_id = d.category_id;
          comment_text = trim text;
          version = version + 1;
        })
        × (select_category (prepare_visibility s.configs acp_id actor).1 category c.category_id
            ≡ ok d.category_id)
  unfolding update_own_comment
  update_own_comment-Changes acp_id id text version actor category s t e =
      let (c, found, e1) = >>=-eq-ok (find_mutable_comment s acp_id id actor) _ e in
      let ((mode, prepared), access, e2) =
        >>=-eq-ok (assert_comment_access s.configs acp_id actor c.review.target_type) _ e1 in
      let (normalized, fit, e3) = >>=-eq-ok (normalize_comment_text text) _ e2 in
      let (_, current, e4) = >>=-eq-ok (throw_if (not (c.version == version)) conflict) _ e3 in
      let (_, exists, e5) = >>=-eq-ok (assert_stored_target_exists trim_id files c) _ e4 in
      let (category_id, selected, e6) =
        >>=-eq-ok (select_category prepared category c.category_id) _ e5 in
      let (comments, rows, e7) =
        >>=-eq-ok
          (versioned_update acp_id id version (edited version category_id normalized) s.comments) _
          e6 in
      let result : record s { comments = comments } ≡ t = ground arith in
      let kept : comments ≡ t.comments = ap (λ (u : Database). u.comments) result in
      (
        c,
        edited version category_id normalized c,
        versioned-Changes acp_id id version actor s t (edited version category_id normalized) c
            (edited-Keeps version category_id normalized) refl
            (find_mutable_comment-IsMutable s acp_id id actor c found)
            (ground (arith, current, ==_iff c.version version)) (rows ∙ ap ok kept),
        ap (λ (n : Text). edited version category_id n c)
            (sym (normalized_text text normalized fit)),
        ap (λ (a : Actor). select_category a category c.category_id)
              (prepared_actor s.configs acp_id actor prepared c.review.target_type mode access)
            ∙ selected,
      )

  -- A deletion that succeeds does as much: the comment is the actor's own, live and visible, of the
  -- named version, and no comment of another id or of another ACP changes. It stays as an empty row,
  -- none of its votes is left, and the votes on every other comment are as before.
  pub delete_own_comment-Changes :
      (acp_id id : String) (version : ℕ) (actor : Actor) (s t : Database)
      → delete_own_comment trim_id files acp_id id version actor s ≡ ok t
      → (c d : StoredComment) × Changes acp_id id version actor s t c d
        × (d.review.deleted ≡ true)
        × (d.comment_text ≡ [])
        × (any (λ (v : Vote). same v.comment_id id) t.votes ≡ false)
        × ((j : String)
            → (j ≡ id)
              ⊎ (filter (λ (v : Vote). same v.comment_id j) t.votes
                  ≡ filter (λ (v : Vote). same v.comment_id j) s.votes))
  unfolding delete_own_comment
  delete_own_comment-Changes acp_id id version actor s t e =
      let (c, found, e1) = >>=-eq-ok (find_mutable_comment s acp_id id actor) _ e in
      let ((mode, prepared), access, e2) =
        >>=-eq-ok (assert_comment_access s.configs acp_id actor c.review.target_type) _ e1 in
      let (_, current, e4) = >>=-eq-ok (throw_if (not (c.version == version)) conflict) _ e2 in
      let (_, exists, e5) = >>=-eq-ok (assert_stored_target_exists trim_id files c) _ e4 in
      let (comments, rows, e7) =
        >>=-eq-ok (versioned_update acp_id id version (emptied version) s.comments) _ e5 in
      let u : Database = record s { comments = comments; votes = drop_votes id s.votes } in
      let result : u ≡ t = ground arith in
      let kept : comments ≡ t.comments = ap (λ (u : Database). u.comments) result in
      let votes : drop_votes id s.votes ≡ t.votes = ap (λ (u : Database). u.votes) result in
      (
        c,
        emptied version c,
        versioned-Changes acp_id id version actor s t (emptied version) c (emptied-Keeps version)
            refl (find_mutable_comment-IsMutable s acp_id id actor c found)
            (ground (arith, current, ==_iff c.version version)) (rows ∙ ap ok kept),
        refl,
        refl,
        rw (← votes) (dropped_votes id s.votes),
        λ j. rw (← votes) (votes_of_others id j s.votes),
      )

  changed-late :
      (acp_id id : String) (version : ℕ) (actor : Actor) (s t : Database) (c d : StoredComment)
      → Changes acp_id id version actor s t c d
      → ((text' : Text) (actor' : Actor) (category' : Choice) (u : Database)
          → update_own_comment trim_id files acp_id id text' version actor' category' t ≢ ok u)
        × ((actor' : Actor) (u : Database)
            → delete_own_comment trim_id files acp_id id version actor' t ≢ ok u)
  changed-late acp_id id version actor s t c d h = (
    λ text' actor' category' u e'.
        let (c', d', h', _, _) =
          update_own_comment-Changes acp_id id text' version actor' category' t u e' in
        late_version acp_id id version t d c' h.after h.raised h'.mutable.found h'.current,
    λ actor' u e'.
        let (c', d', h', _, _, _, _) = delete_own_comment-Changes acp_id id version actor' t u e' in
        late_version acp_id id version t d c' h.after h.raised h'.mutable.found h'.current,
  )

  -- No change is lost: after an update or a deletion of the comment that succeeded, nobody can
  -- update or delete the comment on the ground of the same version.
  pub update_own_comment-late :
      (acp_id id : String) (text : Text) (version : ℕ) (actor : Actor) (category : Choice)
      (s t : Database)
      → (update_own_comment trim_id files acp_id id text version actor category s ≡ ok t)
        ⊎ (delete_own_comment trim_id files acp_id id version actor s ≡ ok t)
      → ((text' : Text) (actor' : Actor) (category' : Choice) (u : Database)
          → update_own_comment trim_id files acp_id id text' version actor' category' t ≢ ok u)
        × ((actor' : Actor) (u : Database)
            → delete_own_comment trim_id files acp_id id version actor' t ≢ ok u)
  update_own_comment-late acp_id id text version actor category s t (inl e) =
      let (c, d, h, _, _) =
        update_own_comment-Changes acp_id id text version actor category s t e in
      changed-late acp_id id version actor s t c d h
  update_own_comment-late acp_id id text version actor category s t (inr e) =
      let (c, d, h, _, _, _, _) = delete_own_comment-Changes acp_id id version actor s t e in
      changed-late acp_id id version actor s t c d h

-- ===== src/Threads/Shape.antt =====
-- Threads are two levels deep: a reply hangs on a comment that is no reply, of the same ACP and the
-- same group.
use content_pool_next.Base.{
  String, string_eq, Bool, true, false, not, ◌&&◌, ◌||◌, Option, none, some, List, [], ◌∷◌, ◌++◌,
  All, All-append, All-find, any, find_sound, same, ◌≡◌, refl, sym, ◌∙◌, arith, Bool-cases, inl,
  inr, str_eq_iff,
}
use content_pool_next.Base.Http.{ok, bad_request, not_found, throw_if, or_throw, >>=-eq-ok}
use content_pool_next.Review.{Mode, Actor, given, same_text}
use content_pool_next.Review.Policy.{assert_can_reply, or_null, select_group}
use content_pool_next.Threads.{StoredComment, Database, ResolvedTarget, find_comment, text_or}
use content_pool_next.Threads.Targets.{matches_target}
use content_pool_next.Threads.Operations.{
  CommentInput, Place, place_reply, place_root, place_of, is_archived_group, update_where,
}
use content_pool_next.Threads.Store.{
  Keeps, changed, find-update_where, All-update_where, find-append,
}

-- The root that a reply hangs on.
pub record IsRoot (cs : List StoredComment) (acp_id : String) (group_id : Option String)
    (id : String) (r : StoredComment) : Type 0 where
  pub found : find_comment acp_id id cs ≡ some r
  pub top : given r.parent_comment_id ≡ false
  pub group : or_null r.review.group_id ≡ or_null group_id

abbrev pub HasRoot : List StoredComment → StoredComment → Type 0
HasRoot cs c =
    (id : String)
    → c.parent_comment_id ≡ some id
    → given (some id) ≡ true
    → (r : StoredComment) × IsRoot cs c.acp_id c.review.group_id id r

unfoldable pub IsThreaded : List StoredComment → Type 0
IsThreaded cs = All (HasRoot cs) cs

-- A change in place that keeps ids, parents and groups keeps the shape.
pub update_where-IsThreaded :
    (test : StoredComment → Bool) (change : StoredComment → StoredComment) (cs : List StoredComment)
    → Keeps change
    → IsThreaded cs
    → IsThreaded (update_where test change cs)
unfolding IsThreaded
update_where-IsThreaded test change cs k h =
    All-update_where {P = HasRoot cs} {Q = HasRoot (update_where test change cs)} test change cs
      (λ c p. (moved c c p refl refl refl, moved c (change c) p (k.acp c) (k.parent c) (k.group c)))
      h
  where
    root :
        (acp_id : String) (group_id : Option String) (id : String) (r : StoredComment)
        → IsRoot cs acp_id group_id id r
        → IsRoot (update_where test change cs) acp_id group_id id (changed test change r)
    root acp_id group_id id r h = record {
      found = find-update_where test change acp_id id cs r k h.found;
      top = elim (Bool-cases (test r)) [
        | inl hit ↦ rw hit (rw (k.parent r) h.top)
        | inr miss ↦ rw miss h.top
      ];
      group = elim (Bool-cases (test r)) [
        | inl hit ↦ rw hit (rw (k.group r) h.group)
        | inr miss ↦ rw miss h.group
      ];
    }

    moved :
        (c d : StoredComment)
        → HasRoot cs c
        → d.acp_id ≡ c.acp_id
        → d.parent_comment_id ≡ c.parent_comment_id
        → d.review.group_id ≡ c.review.group_id
        → HasRoot (update_where test change cs) d
    moved c d p acp parent group id e g =
        let (r, h) = p id (sym parent ∙ e) g in
        (changed test change r, rw (acp, group) (root c.acp_id c.review.group_id id r h))

or_null_idem : (id : Option String) → or_null (or_null id) ≡ or_null id
or_null_idem none = refl
or_null_idem (some text) = elim (Bool-cases (same text "")) [
  | inl empty ↦ rw empty
  | inr full ↦ rw (full, full)
]

-- the root of the thread that a parent is in
thread-IsRoot :
    (cs : List StoredComment) (acp_id id : String) (q : StoredComment)
    → IsThreaded cs
    → find_comment acp_id id cs ≡ some q
    → (p : String) → text_or q.parent_comment_id (some q.review.id) ≡ some p
    → (r : StoredComment) × IsRoot cs acp_id (or_null q.review.group_id) p r
unfolding IsThreaded
thread-IsRoot cs acp_id id q h found p e =
    let named =
      find_sound (λ (c : StoredComment). same c.review.id id && same c.acp_id acp_id) cs q found in
    let acp : q.acp_id ≡ acp_id = ground (arith, named, str_eq_iff q.acp_id acp_id) in
    let here : q.review.id ≡ id = ground (arith, named, str_eq_iff q.review.id id) in
    elim (Bool-cases (given q.parent_comment_id)) [
      | inl reply ↦
          let parent : q.parent_comment_id ≡ some p = rw reply at e in
          let hung = All-find (HasRoot cs) _ cs q h found in
          let (r, root) = hung p parent (rw parent at reply) in
          (
            r,
            record {
              found = rw (← acp) root.found;
              top = root.top;
              group = root.group ∙ sym (or_null_idem q.review.group_id);
            },
          )
      | inr top ↦
          let itself : some q.review.id ≡ some p = rw top at e in
          let at_p : id ≡ p = ground (arith, here, itself) in
          (
            q,
            record {
              found = rw (← at_p) found;
              top = top;
              group = sym (or_null_idem q.review.group_id);
            },
          )
    ]

place_reply-IsRoot :
    (db : Database) (acp_id : String) (mode : Mode) (actor : Actor) (target : ResolvedTarget)
    (input : CommentInput) (id : String) (place : Place)
    → IsThreaded db.comments
    → place_reply db acp_id mode actor target input id ≡ ok place
    → (p : String) → place.parent_comment_id ≡ some p
    → (r : StoredComment) × IsRoot db.comments acp_id place.group_id p r
unfolding place_reply
place_reply-IsRoot db acp_id mode actor target input id place h e p parent =
    let (q, found, e1) = >>=-eq-ok (or_throw (find_comment acp_id id db.comments) not_found) _ e in
    let (_, live, e2) =
      >>=-eq-ok (throw_if (q.review.deleted || not (matches_target q target)) not_found) _ e1 in
    let (_, shown, e3) = >>=-eq-ok (assert_can_reply mode actor q.review) _ e2 in
    let (_, kept, e4) =
      >>=-eq-ok
        (throw_if
          (given input.group_id && not (same_text input.group_id (or_null q.review.group_id)))
          bad_request)
        _ e3 in
    let (_, unarchived, e5) =
      >>=-eq-ok
        (throw_if
          (given q.review.group_id && any (is_archived_group q.review.group_id) actor.groups)
          bad_request)
        _ e4 in
    let hung : text_or q.parent_comment_id (some q.review.id) ≡ place.parent_comment_id =
      ground (arith, e5) in
    let grouped : or_null q.review.group_id ≡ place.group_id = ground (arith, e5) in
    rw (← grouped)
      (thread-IsRoot db.comments acp_id id q h (ground (arith, found)) p (hung ∙ parent))

place_root-top :
    (mode : Mode) (actor : Actor) (input : CommentInput) (place : Place)
    → place_root mode actor input ≡ ok place
    → place.parent_comment_id ≡ none
unfolding place_root
place_root-top mode actor input place e =
    let (group, selected, rest) = >>=-eq-ok (select_group mode actor input.group_id) _ e in
    ground (arith, rest)

pub place_of-IsRoot :
    (db : Database) (acp_id : String) (mode : Mode) (actor : Actor) (target : ResolvedTarget)
    (input : CommentInput) (requested : Option String) (place : Place)
    → IsThreaded db.comments
    → place_of db acp_id mode actor target input requested ≡ ok place
    → (p : String) → place.parent_comment_id ≡ some p
    → (r : StoredComment) × IsRoot db.comments acp_id place.group_id p r
place_of-IsRoot db acp_id mode actor target input none place h e p parent =
    let top = place_root-top mode actor input place e in absurd (ground arith)
place_of-IsRoot db acp_id mode actor target input (some id) place h e p parent =
    elim (Bool-cases (same id "")) [
      | inl empty ↦
          let top = place_root-top mode actor input place (rw empty at e) in
          absurd (ground (arith, top, parent))
      | inr named ↦
          place_reply-IsRoot db acp_id mode actor target input id place h (rw named at e) p parent
    ]

append-HasRoot :
    (cs ds : List StoredComment) (c : StoredComment) → HasRoot cs c → HasRoot (cs ++ ds) c
append-HasRoot cs ds c h id e g =
    let (r, root) = h id e g in
    (
      r,
      record {
        found = find-append c.acp_id id cs ds r root.found;
        top = root.top;
        group = root.group;
      },
    )

pub append-IsThreaded :
    (cs : List StoredComment) (c : StoredComment)
    → IsThreaded cs
    → HasRoot cs c
    → IsThreaded (cs ++ c ∷ [])
unfolding IsThreaded
append-IsThreaded cs c h k =
    All-append (HasRoot (cs ++ c ∷ [])) cs (c ∷ []) (each cs h) (append-HasRoot cs (c ∷ []) c k, tt)
  where
    each : (ds : List StoredComment) → All (HasRoot cs) ds → All (HasRoot (cs ++ c ∷ [])) ds
    each [] a = tt
    each (d ∷ ds) a = (append-HasRoot cs (c ∷ []) d a.0, each ds a.1)

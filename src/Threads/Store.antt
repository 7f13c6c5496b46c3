-- ===== src/Threads/Store.antt =====
-- Rows of comments (backend/src/comments/comments.service.ts) under the two ways of writing them: a new row
-- at the end, and a change in place.
use content_pool_next.Base.{
  ℕ, String, string_eq, Bool, false, ◌&&◌, some, List, [], ◌∷◌, ◌++◌, any, same, All, ◌≡◌, refl,
  arith, Bool-cases, inl, inr, if◌then◌else◌, str_eq_iff,
}
use content_pool_next.Base.Http.{ok, not_found, or_throw, >>=-eq-ok}
use content_pool_next.Threads.{StoredComment, find_comment}
use content_pool_next.Threads.Operations.{is_current, update_where, versioned_update}

-- A change that keeps a row where it is.
pub record Keeps (change : StoredComment → StoredComment) : Type 0 where
  pub id : (c : StoredComment) → (change c).review.id ≡ c.review.id
  pub acp : (c : StoredComment) → (change c).acp_id ≡ c.acp_id
  pub parent : (c : StoredComment) → (change c).parent_comment_id ≡ c.parent_comment_id
  pub group : (c : StoredComment) → (change c).review.group_id ≡ c.review.group_id

abbrev pub changed :
    (StoredComment → Bool) → (StoredComment → StoredComment) → StoredComment → StoredComment
changed test change c = if test c then change c else c

key_kept :
    (change : StoredComment → StoredComment) (acp_id id : String) (c : StoredComment)
    → Keeps change
    → (same (change c).review.id id && same (change c).acp_id acp_id)
      ≡ (same c.review.id id && same c.acp_id acp_id)
key_kept change acp_id id c k = rw (k.id c) (rw (k.acp c))

pub find-update_where :
    (test : StoredComment → Bool) (change : StoredComment → StoredComment) (acp_id id : String)
    (cs : List StoredComment) (c : StoredComment)
    → Keeps change
    → find_comment acp_id id cs ≡ some c
    → find_comment acp_id id (update_where test change cs) ≡ some (changed test change c)
unfolding update_where
find-update_where test change acp_id id [] c k e = absurd (ground arith)
find-update_where test change acp_id id (x ∷ cs) c k e =
    elim (Bool-cases (same x.review.id id && same x.acp_id acp_id)) [
      | inl here ↦
          let first : x ≡ c = ground (arith, here, e) in
          rw (← first) (elim (Bool-cases (test x)) [
            | inl hit ↦ rw (hit, key_kept change acp_id id x k, here)
            | inr miss ↦ rw (miss, here)
          ])
      | inr there ↦
          let later = find-update_where test change acp_id id cs c k (rw there at e) in
          elim (Bool-cases (test x)) [
            | inl hit ↦ rw (hit, key_kept change acp_id id x k, there) later
            | inr miss ↦ rw (miss, there) later
          ]
    ]

pub find-update_other :
    (acp_id id b j : String) (version : ℕ) (change : StoredComment → StoredComment)
    (cs : List StoredComment)
    → Keeps change
    → (same j id && same b acp_id) ≡ false
    → find_comment b j (update_where (is_current acp_id id version) change cs) ≡ find_comment b j cs
unfolding update_where
find-update_other acp_id id b j version change [] k n = refl
find-update_other acp_id id b j version change (x ∷ cs) k n =
    let rest = find-update_other acp_id id b j version change cs k n in
    elim (Bool-cases (is_current acp_id id version x)) [
      | inl hit ↦
          let away : (same x.review.id j && same x.acp_id b) ≡ false = ground (
            arith,
            str_eq_iff x.review.id id,
            str_eq_iff x.review.id j,
            str_eq_iff x.acp_id acp_id,
            str_eq_iff x.acp_id b,
            str_eq_iff j id,
            str_eq_iff b acp_id,
          ) in
          rw (hit, key_kept change b j x k, away) rest
      | inr miss ↦ rw (miss, rest)
    ]

pub All-update_where :
    {P Q : StoredComment → Type 0} (test : StoredComment → Bool)
    (change : StoredComment → StoredComment) (cs : List StoredComment)
    → ((c : StoredComment) → P c → Q c × Q (change c))
    → All P cs
    → All Q (update_where test change cs)
unfolding update_where
All-update_where test change [] h a = tt
All-update_where test change (c ∷ cs) h a =
    let rest = All-update_where test change cs h a.1 in
    elim (Bool-cases (test c)) [
      | inl hit ↦ rw hit ((h c a.0).1, rest)
      | inr miss ↦ rw miss ((h c a.0).0, rest)
    ]

pub find-append :
    (acp_id id : String) (cs ds : List StoredComment) (c : StoredComment)
    → find_comment acp_id id cs ≡ some c
    → find_comment acp_id id (cs ++ ds) ≡ some c
find-append acp_id id [] ds c e = absurd (ground arith)
find-append acp_id id (x ∷ cs) ds c e = ground (arith, find-append acp_id id cs ds c)

-- the rows that a versioned update leaves
pub versioned_update-rows :
    (acp_id id : String) (version : ℕ) (change : StoredComment → StoredComment)
    (cs ds : List StoredComment)
    → versioned_update acp_id id version change cs ≡ ok ds
    → update_where (is_current acp_id id version) change cs ≡ ds
unfolding versioned_update
versioned_update-rows acp_id id version change cs ds e =
    elim (Bool-cases (any (is_current acp_id id version) cs)) [
      | inl some_row ↦ ground arith
      | inr no_row ↦
          let (latest, found, refused) =
            >>=-eq-ok (or_throw (find_comment acp_id id cs) not_found) _ (rw no_row at e) in
          absurd (ground arith)
    ]

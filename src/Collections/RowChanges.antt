-- ===== src/Collections/RowChanges.antt =====
-- What a mutation of the rows makes of a collection, as a set of row keys.
use content_pool_next.Base.{
  ℕ, Bool, true, false, not, ◌&&◌, ◌||◌, ◌+◌, Option, some, List, [], ◌∷◌, ◌++◌, contains,
  contains-append, contains-filter, length, filter, any, ltb, ◌≡◌, ◌≢◌, ◌⊎◌, refl, arith,
  Bool-cases, inl, inr,
}
use content_pool_next.Base.Text.{Text, text_eq, text_beq_iff}
use content_pool_next.Base.Http.{ok, bad_request, throw_if, >>=-eq-ok}
use content_pool_next.Collections.{
  StoredItemCollection, State, find_collection, max_collection_rows,
}
use content_pool_next.Collections.UpdateLaws.{checked_collection_lem}
use content_pool_next.Collections.Versions.{with_collection-Changes}
use content_pool_next.Collections.Operations
use content_pool_next.Collections.Operations.{RowsChange, adding, removing, clearing}

differs_same :
    (next old : List Text)
    → length next ≡ length old
    → Operations.differs_at_some next old ≡ false
    → next ≡ old
unfolding Operations.differs_at_some
differs_same [] [] l h = refl
differs_same [] (j ∷ old) l h = absurd (ground arith)
differs_same (k ∷ next) [] l h = absurd (ground arith)
differs_same (k ∷ next) (j ∷ old) l h = ground (arith, differs_same next old, text_beq_iff k j)

differs_refl : (keys : List Text) → Operations.differs_at_some keys keys ≡ false
unfolding Operations.differs_at_some
differs_refl [] = refl
differs_refl (k ∷ keys) = ground (arith, differs_refl keys, text_beq_iff k k)

rows_changed-false : (next old : List Text) → Operations.rows_changed next old ≡ false → next ≡ old
unfolding Operations.rows_changed
rows_changed-false next old h = ground (arith, differs_same next old)

rows_changed-true : (next old : List Text) → Operations.rows_changed next old ≡ true → next ≢ old
unfolding Operations.rows_changed
rows_changed-true next old h e = ground (arith, differs_refl old)

-- Whether a key is in the collection afterwards, given whether it was before.
pub kept_after : RowsChange → Text → Bool → Bool
kept_after (adding keys) key before = before || contains key keys
kept_after (removing keys) key before = before && not (contains key keys)
kept_after clearing key before = false

none_unknown :
    (known new : List Text) (k : Text)
    → any (λ key. not (contains key known)) new ≡ false
    → contains k new ≡ true
    → contains k known ≡ true
none_unknown known [] k h m = absurd (ground arith)
none_unknown known (n ∷ new) k h m = ground (arith, none_unknown known new k, text_beq_iff n k)

next_rows-kept :
    (known stored next : List Text) (change : RowsChange) (k : Text)
    → Operations.next_rows known stored change ≡ ok next
    → (contains k next ≡ kept_after change k (contains k stored))
      × (contains k next ≡ true → contains k stored ≡ false → contains k known ≡ true)
unfolding Operations.next_rows kept_after
next_rows-kept known stored next (adding keys) k e =
    let new = Operations.additions_of stored keys in
    let (_, familiar, rest) =
      >>=-eq-ok (throw_if (any (λ key. not (contains key known)) new) bad_request) _ e in
    let (_, fits, final) =
      >>=-eq-ok (throw_if (ltb max_collection_rows (length stored + length new)) bad_request) _
        rest in
    let appended : stored ++ new ≡ next = ground arith in
    let in_next = contains-append k stored new in
    let in_new = contains-filter (λ key. not (contains key stored)) k keys in
    rw (← appended) (
      ground (arith, in_next, in_new),
      λ m n. none_unknown known new k (ground (arith, familiar)) (ground (arith, in_next)),
    )
next_rows-kept known stored next (removing keys) k e =
    let kept : filter (λ key. not (contains key keys)) stored ≡ next = ground arith in
    let in_next = contains-filter (λ key. not (contains key keys)) k stored in
    rw (← kept) (in_next, λ m n. ground (arith, in_next))
next_rows-kept known stored next clearing k e =
    let emptied : [] ≡ next = ground arith in rw (← emptied) (refl, λ m n. ground arith)

-- A mutation of the rows that succeeds was based on the version that it found. It adds the given
-- keys, removes them or clears the collection, as a set; a key that is new is one that the files
-- know. The version rises by one exactly where the rows have changed, and no other collection does.
pub apply_rows-kept :
    (id now : Text) (known : List Text) (base : Option ℕ) (change : RowsChange) (s t : State)
    → Operations.apply_rows id now known base change s ≡ ok t
    → (c d : StoredItemCollection) × (find_collection id s.collections ≡ some c)
      × (base ≡ some c.version)
      × (find_collection id t.collections ≡ some d)
      × ((k : Text) → contains k d.row_keys ≡ kept_after change k (contains k c.row_keys))
      × ((k : Text)
          → contains k d.row_keys ≡ true
          → contains k c.row_keys ≡ false
          → contains k known ≡ true)
      × (((d.row_keys ≡ c.row_keys) × (d.version ≡ c.version))
          ⊎ ((d.row_keys ≢ c.row_keys) × (d.version ≡ c.version + 1)))
      × ((j : Text) → j ≢ id → find_collection j t.collections ≡ find_collection j s.collections)
unfolding Operations.apply_rows
apply_rows-kept id now known base change s t e =
    let (c, checked, last) = >>=-eq-ok (Operations.checked_collection id base s) _ e in
    let (found, here, current) = checked_collection_lem id base s c checked in
    let (next, rows, final) = >>=-eq-ok (Operations.next_rows known c.row_keys change) _ last in
    let kept = λ (k : Text). next_rows-kept known c.row_keys next change k rows in
    let d : StoredItemCollection = record c {
      row_keys = next;
      version = c.version + 1;
      updated_at = now;
    } in
    let changes = with_collection-Changes id s c d found here in
    elim (Bool-cases (Operations.rows_changed next c.row_keys)) [
      | inl moved ↦
          let result : Operations.with_collection id d s ≡ t = ground arith in
          rw (← result) (
            c,
            d,
            found,
            current,
            changes.after,
            λ k. (kept k).0,
            λ k. (kept k).1,
            inr (rows_changed-true next c.row_keys moved, refl),
            changes.others,
          )
      | inr still ↦
          let result : s ≡ t = ground arith in
          let unmoved = rows_changed-false next c.row_keys still in
          rw (← result) (
            c,
            c,
            found,
            current,
            found,
            λ k. rw unmoved at (kept k).0,
            λ k. rw unmoved at (kept k).1,
            inl (refl, refl),
            λ j n. refl,
          )
    ]

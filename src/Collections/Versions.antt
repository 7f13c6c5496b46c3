-- ===== src/Collections/Versions.antt =====
-- Versions: which request changes which collection, and what happens to one that comes too late.
use content_pool_next.Base.{
  ℕ, Bool, ◌+◌, Option, some, List, [], ◌∷◌, same, ◌≡◌, ◌≢◌, refl, arith, Bool-cases, inl, inr,
}
use content_pool_next.Base.Text.{Text, text_eq, text_beq_iff}
use content_pool_next.Base.Http.{ok, err, bad_request, conflict, throw_if, >>=-eq-ok}
use content_pool_next.Collections.{StoredItemCollection, State, find_collection}
use content_pool_next.Collections.UpdateLaws.{checked_collection_lem}
use content_pool_next.Collections.Operations
use content_pool_next.Collections.Operations.{
  CollectionUpdate, RowsChange, adding, removing, clearing,
}

find-replace_self :
    (id : Text) (c d : StoredItemCollection) (cs : List StoredItemCollection)
    → c.id ≡ id
    → find_collection id cs ≡ some d
    → find_collection id (Operations.replace_collection id c cs) ≡ some c
unfolding Operations.replace_collection
find-replace_self id c d [] h e = absurd (ground arith)
find-replace_self id c d (x ∷ cs) h e = elim (Bool-cases (same x.id id)) [
  | inl here ↦ rw here (rw ((text_beq_iff c.id id).1 h))
  | inr there ↦ rw there (rw there (find-replace_self id c d cs h (rw there at e)))
]

find-replace_ne :
    (id j : Text) (c : StoredItemCollection) (cs : List StoredItemCollection)
    → c.id ≡ id
    → j ≢ id
    → find_collection j (Operations.replace_collection id c cs) ≡ find_collection j cs
unfolding Operations.replace_collection
find-replace_ne id j c [] h n = refl
find-replace_ne id j c (x ∷ cs) h n = ground (
  arith,
  find-replace_ne id j c cs h n,
  text_beq_iff c.id j,
  text_beq_iff x.id j,
  text_beq_iff x.id id,
)

-- What an accepted change leaves at its collection, and that it leaves the others alone.
pub record Changes (id : Text) (s t : State) (c d : StoredItemCollection) : Type 0 where
  pub before : find_collection id s.collections ≡ some c
  pub after : find_collection id t.collections ≡ some d
  pub others :
      (j : Text) → j ≢ id → find_collection j t.collections ≡ find_collection j s.collections

pub with_collection-Changes :
    (id : Text) (s : State) (c d : StoredItemCollection)
    → find_collection id s.collections ≡ some c
    → d.id ≡ id
    → Changes id s (Operations.with_collection id d s) c d
with_collection-Changes id s c d found h = record {
  before = found;
  after = find-replace_self id d c s.collections h found;
  others = λ j n. find-replace_ne id j d s.collections h n;
}

-- An update that succeeds was based on the version that it found; it raises that version by one
-- and changes no other collection.
pub apply_update-version :
    (id now : Text) (known : List Text) (base : Option ℕ) (name : Option Text)
    (shared : Option Bool) (keys : Option (List Text)) (s t : State)
    → Operations.apply_update id now known base name shared keys s ≡ ok t
    → (c d : StoredItemCollection) × (find_collection id s.collections ≡ some c)
      × (base ≡ some c.version)
      × (find_collection id t.collections ≡ some d)
      × (d.version ≡ c.version + 1)
      × ((j : Text) → j ≢ id → find_collection j t.collections ≡ find_collection j s.collections)
unfolding Operations.apply_update
apply_update-version id now known base name shared keys s t e =
    let (c, checked, last) = >>=-eq-ok (Operations.checked_collection id base s) _ e in
    let (found, here, current) = checked_collection_lem id base s c checked in
    let (_, _, final) =
      >>=-eq-ok (throw_if (Operations.adds_foreign known c.row_keys keys) bad_request) _ last in
    let d : StoredItemCollection = record c {
      name = Operations.or_keep name c.name;
      shared = Operations.or_keep shared c.shared;
      row_keys = Operations.or_keep keys c.row_keys;
      version = c.version + 1;
      updated_at = now;
    } in
    let result : Operations.with_collection id d s ≡ t = ground arith in
    let changes = with_collection-Changes id s c d found here in
    rw (← result) (c, d, found, current, changes.after, refl, changes.others)

stale_conflict :
    (id : Text) (b : ℕ) (t : State) (d : StoredItemCollection)
    → find_collection id t.collections ≡ some d
    → d.version ≡ b + 1
    → Operations.checked_collection id (some b) t ≡ err conflict
unfolding Operations.checked_collection
stale_conflict id b t d found newer = rw found (ground arith)

-- No update is lost: once one has succeeded, a second update or a mutation of the rows that was
-- based on the same version is refused with a conflict.
pub apply_update-conflict :
    (id now : Text) (known : List Text) (base : Option ℕ) (name : Option Text)
    (shared : Option Bool) (keys : Option (List Text)) (s t : State)
    → Operations.apply_update id now known base name shared keys s ≡ ok t
    → ((now' : Text) (known' : List Text) (name' : Option Text) (shared' : Option Bool)
          (keys' : Option (List Text))
        → Operations.apply_update id now' known' base name' shared' keys' t ≡ err conflict)
      × ((now' : Text) (known' : List Text) (change : RowsChange)
          → Operations.apply_rows id now' known' base change t ≡ err conflict)
unfolding Operations.apply_update Operations.apply_rows
apply_update-conflict id now known base name shared keys s t e =
    let (c, d, found, current, after, newer, _) =
      apply_update-version id now known base name shared keys s t e in
    let stale = stale_conflict id c.version t d after newer in
    (
      λ now' known' name' shared' keys'. rw current (rw stale),
      λ now' known' change. rw current (rw stale),
    )

-- ===== src/Collections/UpdateLaws.antt =====
-- What an update finds and leaves: the collection at its version, and a valid state.
use content_pool_next.Base.{
  ℕ, true, false, ◌+◌, ◌≤◌, Option, none, some, List, is_empty, length, same, All-find, find_sound,
  ◌≡◌, refl, arith, Bool-cases, Option-cases, inl, inr, ==_iff,
}
use content_pool_next.Base.Text.{Text, text_eq, text_beq_iff}
use content_pool_next.Base.Http.{ok, bad_request, throw_if, >>=-eq-ok}
use content_pool_next.Collections.{
  StoredItemCollection, State, RawKeys, max_name_length, find_collection,
}
use content_pool_next.Collections.Normalize.{normalize_name, normalize_row_keys}
use content_pool_next.Collections.KeyLaws.{AreRowKeys, normalize_row_keys-AreRowKeys}
use content_pool_next.Collections.Invariant.{
  IsStored, IsValid, normalize_name-bounds, with_collection-IsValid,
}
use content_pool_next.Collections.Operations
use content_pool_next.Collections.Operations.{
  CollectionUpdate, RowsMutation, RowsAction, RowsChange, add, remove, clear_all, adding, removing,
  clearing,
}

is_version_sound :
    (base : Option ℕ) (version : ℕ)
    → Operations.is_version base version ≡ true
    → base ≡ some version
is_version_sound none version h = absurd (ground arith)
is_version_sound (some b) version h = ground (arith, ==_iff b version)

-- The collection that a request is about, at the version it is based on.
pub checked_collection_lem :
    (id : Text) (base : Option ℕ) (s : State) (c : StoredItemCollection)
    → Operations.checked_collection id base s ≡ ok c
    → (find_collection id s.collections ≡ some c) × (c.id ≡ id) × (base ≡ some c.version)
unfolding Operations.checked_collection
checked_collection_lem id base s c e = elim (Option-cases (find_collection id s.collections)) [
  | inl missing ↦ absurd (ground arith)
  | inr (d, found) ↦ elim (Bool-cases (Operations.is_version base d.version)) [
    | inl current ↦
        let here : d ≡ c = ground arith in
        rw (← here) (
          found,
          (text_beq_iff d.id id).0 (find_sound (λ c. same c.id id) s.collections d found),
          is_version_sound base d.version current,
        )
    | inr stale ↦ absurd (ground arith)
  ]
]

pub found-IsStored :
    (id : Text) (s : State) (c : StoredItemCollection)
    → IsValid s
    → find_collection id s.collections ≡ some c
    → IsStored c
found-IsStored id s c v found = All-find IsStored (λ c. same c.id id) s.collections c v.stored found

abbrev IsName : Text → Type 0
IsName name = (is_empty name ≡ false) × (length name ≤ max_name_length)

or_keep_holds :
    {A : Type 0} (P : A → Type 0) (new : Option A) (old : A)
    → P old
    → ((a : A) → new ≡ some a → P a)
    → P (Operations.or_keep new old)
or_keep_holds P none old h k = h
or_keep_holds P (some a) old h k = k a refl

normalized_name-IsName :
    (raw : Option (Option Text)) (name : Option Text)
    → Operations.normalized_name raw ≡ ok name
    → (n : Text) → name ≡ some n
    → IsName n
normalized_name-IsName none name e n p = absurd (ground arith)
normalized_name-IsName (some raw) name e n p =
    normalize_name-bounds raw n
      (let (m, named, kept) = >>=-eq-ok (normalize_name raw) _ e in ground arith)

normalized_keys-AreRowKeys :
    (raw : Option RawKeys) (keys : Option (List Text))
    → Operations.normalized_keys raw ≡ ok keys
    → (ks : List Text) → keys ≡ some ks
    → AreRowKeys ks
normalized_keys-AreRowKeys none keys e ks p = absurd (ground arith)
normalized_keys-AreRowKeys (some raw) keys e ks p =
    normalize_row_keys-AreRowKeys raw ks
      (let (m, accepted, kept) = >>=-eq-ok (normalize_row_keys raw) _ e in ground arith)

pub update-IsValid :
    (id now : Text) (known : List Text) (update : CollectionUpdate) (s t : State)
    → IsValid s
    → Operations.update_item_collection id now known update s ≡ ok t
    → IsValid t
unfolding Operations.update_item_collection
update-IsValid id now known update s t v e =
    let (name, named, rest) = >>=-eq-ok (Operations.normalized_name update.name) _ e in
    let (keys, accepted, applied) = >>=-eq-ok (Operations.normalized_keys update.row_keys) _ rest in
    let (c, checked, last) =
      >>=-eq-ok (Operations.checked_collection id update.base_version s) _ applied in
    let (found, here, _) = checked_collection_lem id update.base_version s c checked in
    let h = found-IsStored id s c v found in
    let (_, _, final) =
      >>=-eq-ok (throw_if (Operations.adds_foreign known c.row_keys keys) bad_request) _ last in
    let names =
      or_keep_holds IsName name c.name (h.name_given, h.name_short)
        (normalized_name-IsName update.name name named) in
    let changed : StoredItemCollection = record c {
      name = Operations.or_keep name c.name;
      shared = Operations.or_keep update.shared c.shared;
      row_keys = Operations.or_keep keys c.row_keys;
      version = c.version + 1;
      updated_at = now;
    } in
    let result : Operations.with_collection id changed s ≡ t = ground arith in
    rw (← result) (
      with_collection-IsValid id changed s here
        (record {
          id_trimmed = h.id_trimmed;
          id_given = h.id_given;
          name_given = names.0;
          name_short = names.1;
          keys =
              or_keep_holds AreRowKeys keys c.row_keys h.keys
                (normalized_keys-AreRowKeys update.row_keys keys accepted);
          counted = omega arith;
        })
        v)

-- ===== src/Collections/Invariant.antt =====
-- What holds of every state: of one read from any document whatever, and after every request.
use content_pool_next.Base.{
  ℕ, suc, false, ◌≤◌, Option, none, some, List, [], ◌∷◌, ◌++◌, map, contains, length, length-append,
  is_empty, same, take, take_bound, All, All-append, All-find, IsDistinct, append-IsDistinct, ◌≡◌,
  refl, arith, Bool-cases, Option-cases, inl, inr,
}
use mathlib.Core.List.{map-append}
use content_pool_next.Base.Text.{Text, text_eq, trim, text_beq_iff}
use content_pool_next.Base.Http.{ok, not_found, or_throw, >>=-eq-ok}
use content_pool_next.Collections.{
  StoredItemCollection, all, State, max_name_length, max_item_collections, find_collection,
}
use content_pool_next.Collections.Normalize.{normalize_name, collapse_from}
use content_pool_next.Collections.KeyLaws.{AreRowKeys}
use content_pool_next.Collections.Operations

pub record IsStored (c : StoredItemCollection) : Type 0 where
  pub id_trimmed : trim c.id ≡ c.id
  pub id_given : is_empty c.id ≡ false
  pub name_given : is_empty c.name ≡ false
  pub name_short : length c.name ≤ max_name_length
  pub keys : AreRowKeys c.row_keys
  pub counted : 1 ≤ c.version

abbrev pub ids : List StoredItemCollection → List Text
ids = map (λ c. c.id)

pub record IsValid (s : State) : Type 0 where
  pub stored : All IsStored s.collections
  pub distinct : IsDistinct (ids s.collections)
  pub mode : s.active_id ≡ none → s.view_mode ≡ all

-- A new id: trimmed, not empty and not in use.
pub record IsFresh (id : Text) (s : State) : Type 0 where
  pub trimmed : trim id ≡ id
  pub present : is_empty id ≡ false
  pub unused : contains id (ids s.collections) ≡ false

pub take-nonempty : (n : ℕ) (s : Text) → is_empty s ≡ false → is_empty (take (suc n) s) ≡ false
take-nonempty n [] h = h
take-nonempty n (c ∷ s) h = refl

pub normalize_name-bounds :
    (raw : Option Text) (name : Text)
    → normalize_name raw ≡ ok name
    → (is_empty name ≡ false) × (length name ≤ max_name_length)
unfolding normalize_name
normalize_name-bounds none name e = absurd (ground arith)
normalize_name-bounds (some raw) name e =
    elim (Bool-cases (is_empty (trim (collapse_from false raw)))) [
      | inl blank ↦ absurd (ground arith)
      | inr given ↦
          let cut : take 100 (trim (collapse_from false raw)) ≡ name = ground arith in
          rw (← cut) (take-nonempty 99 (trim (collapse_from false raw)) given, take_bound 100 _)
    ]

push_collection-IsValid :
    (c : StoredItemCollection) (s t : State)
    → IsStored c
    → contains c.id (ids s.collections) ≡ false
    → IsValid s
    → Operations.push_collection c s ≡ ok t
    → IsValid t × (length t.collections ≤ max_item_collections)
unfolding Operations.push_collection
push_collection-IsValid c s t h fresh v e =
    let pushed : record s { collections = s.collections ++ c ∷ []; active_id = some c.id } ≡ t =
      ground arith in
    rw (← pushed) (
      record {
        stored = All-append IsStored s.collections (c ∷ []) v.stored (h, tt);
        distinct =
            rw map-append
              (append-IsDistinct (ids s.collections) (c.id ∷ []) v.distinct (refl, tt) (fresh, tt));
        mode = λ p. cc;
      },
      ground (arith, length-append s.collections (c ∷ [])),
    )

-- Creating keeps the state valid, and never leaves more than a hundred collections.
pub create-IsValid :
    (id now : Text) (raw_name : Option Text) (s t : State)
    → IsFresh id s
    → IsValid s
    → Operations.create_item_collection id now raw_name s ≡ ok t
    → IsValid t × (length t.collections ≤ max_item_collections)
unfolding Operations.create_item_collection
create-IsValid id now raw_name s t f v e =
    let (name, named, pushed) =
      >>=-eq-ok (normalize_name (some (Operations.name_or_default raw_name))) _ e in
    let (given, short) =
      normalize_name-bounds (some (Operations.name_or_default raw_name)) name named in
    push_collection-IsValid (Operations.new_collection id name [] now) s t
      (record {
        id_trimmed = f.trimmed;
        id_given = f.present;
        name_given = given;
        name_short = short;
        keys = record { valid = tt; distinct = tt; bounded = omega arith };
        counted = omega arith;
      })
      f.unused v pushed

source_of-keys :
    (id : Text) (own shared : List StoredItemCollection) (c : StoredItemCollection)
    → All IsStored own
    → All IsStored shared
    → Operations.source_of id own shared ≡ some c
    → IsStored c
source_of-keys id own shared c h k e = elim (Option-cases (find_collection id own)) [
  | inl missing ↦ All-find IsStored (λ c. same c.id id) shared c k (ground arith)
  | inr (d, found) ↦ All-find IsStored (λ c. same c.id id) own c h (ground arith)
]

-- So does copying, from one's own collections or from shared ones.
pub copy-IsValid :
    (id now source_id : Text) (own : State) (shared : List StoredItemCollection) (s t : State)
    → IsFresh id s
    → IsValid own
    → All IsStored shared
    → IsValid s
    → Operations.copy_item_collection id now source_id own shared s ≡ ok t
    → IsValid t × (length t.collections ≤ max_item_collections)
unfolding Operations.copy_item_collection
copy-IsValid id now source_id own shared s t f o h v e =
    let (source, found, rest) =
      >>=-eq-ok (or_throw (Operations.source_of source_id own.collections shared) not_found) _ e in
    let raw : Option Text = some (source.name ++ Operations.copy_suffix) in
    let (name, named, pushed) = >>=-eq-ok (normalize_name raw) _ rest in
    let (given, short) = normalize_name-bounds raw name named in
    let kept = source_of-keys source_id own.collections shared source o.stored h (ground arith) in
    push_collection-IsValid (Operations.new_collection id name source.row_keys now) s t
      (record {
        id_trimmed = f.trimmed;
        id_given = f.present;
        name_given = given;
        name_short = short;
        keys = kept.keys;
        counted = omega arith;
      })
      f.unused v pushed

ids-replace :
    (id : Text) (c : StoredItemCollection) (cs : List StoredItemCollection)
    → c.id ≡ id
    → ids (Operations.replace_collection id c cs) ≡ ids cs
unfolding Operations.replace_collection
ids-replace id c [] h = refl
ids-replace id c (d ∷ cs) h = ground (arith, ids-replace id c cs, text_beq_iff d.id id)

All-replace :
    (id : Text) (c : StoredItemCollection) (cs : List StoredItemCollection)
    → IsStored c
    → All IsStored cs
    → All IsStored (Operations.replace_collection id c cs)
unfolding Operations.replace_collection
All-replace id c [] h k = tt
All-replace id c (d ∷ cs) h k = elim (Bool-cases (same d.id id)) [
  | inl here ↦ rw here (h, k.1)
  | inr there ↦ rw there (k.0, All-replace id c cs h k.1)
]

pub with_collection-IsValid :
    (id : Text) (c : StoredItemCollection) (s : State)
    → c.id ≡ id
    → IsStored c
    → IsValid s
    → IsValid (Operations.with_collection id c s)
with_collection-IsValid id c s e h v = record {
  stored = All-replace id c s.collections h v.stored;
  distinct = rw (ids-replace id c s.collections e) v.distinct;
  mode = v.mode;
}

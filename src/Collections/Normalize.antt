-- ===== src/Collections/Normalize.antt =====
-- `normalizeState`, `normalizeName`, `normalizeRowKeys`, `normalizeIsoDate` and
-- `normalizePlainText` of backend/src/item-collections/item-collections.service.ts.
use content_pool_next.Base.{
  ℕ, Bool, true, false, ◌||◌, Option, none, some, List, [], ◌∷◌, contains, length, take, is_empty,
  ltb, max, if◌then◌else◌,
}
use content_pool_next.Base.Text.{Text, text_eq, trim, is_space}
use content_pool_next.Base.Http.{Result, ok, err, bad_request, ◌>>=◌, ◌>>◌, throw_if}
use content_pool_next.Collections.{
  StoredItemCollection, ViewMode, all, active, State, RawKeys, RawCollection, RawPreferences,
  max_collection_rows, max_row_key_length, max_name_length, first_id,
}

-- `text.replace(/\s+/g, " ")`; the flag says that the unit before was white space
unfoldable pub collapse_from : Bool → Text → Text
unfolding is_space
collapse_from after_space [] = []
collapse_from after_space (c ∷ s) =
    let rest = collapse_from (is_space c) s in
    if is_space c then if after_space then rest else 32 ∷ rest else c ∷ rest

-- `none` is both a value that is no text and the result `null`.
unfoldable pub normalize_plain_text : Option Text → ℕ → Option Text
unfolding collapse_from trim
normalize_plain_text none limit = none
normalize_plain_text (some value) limit =
    let normalized = trim (collapse_from false value) in
    if is_empty normalized then none else some (take limit normalized)

abbrev pub or_bad_request : Option Text → Result Text
or_bad_request none = err bad_request
or_bad_request (some text) = ok text

unfoldable pub normalize_name : Option Text → Result Text
unfolding normalize_plain_text
normalize_name value = or_bad_request (normalize_plain_text value max_name_length)

-- a row key that is refused, once trimmed
abbrev pub is_bad_key : Text → Bool
is_bad_key key = is_empty key || ltb max_row_key_length (length key)

-- The loop of `normalizeRowKeys` behind the keys already seen.
unfoldable pub collect_row_keys : List Text → List (Option Text) → Result (List Text)
collect_row_keys seen [] = ok []
collect_row_keys seen (none ∷ raws) = err bad_request
collect_row_keys seen (some raw ∷ raws) = do
  throw_if (is_bad_key (trim raw)) bad_request
  keys ← collect_row_keys (trim raw ∷ seen) raws
  ok (if contains (trim raw) seen then keys else trim raw ∷ keys)

unfoldable pub normalize_row_keys : RawKeys → Result (List Text)
unfolding collect_row_keys
normalize_row_keys none = err bad_request
normalize_row_keys (some raws) =
    if ltb max_collection_rows (length raws) then err bad_request else collect_row_keys [] raws

-- `Math.max(1, Number(value) || 1)`
abbrev pub version_of : Option ℕ → ℕ
version_of none = 1
version_of (some n) = max 1 n

abbrev pub keys_or_empty : RawKeys → RawKeys
keys_or_empty none = some []
keys_or_empty (some raws) = some raws

abbrev pub or_text : Text → Option Text → Option Text
or_text text fallback = if is_empty text then fallback else some text

abbrev pub mode_for : Option Text → Bool → ViewMode
mode_for none requested = all
mode_for (some id) requested = if requested then active else all

-- a collection that is left out: no id, no name, or an id seen before
abbrev pub is_skipped : List Text → RawCollection → Bool
is_skipped seen raw =
    is_empty (trim raw.id) || is_empty (trim raw.name) || contains (trim raw.id) seen

abbrev pub state_of : RawPreferences → List StoredItemCollection → State
state_of raw collections =
    let active_id = or_text (trim raw.active_id) (first_id collections) in
    record {
      collections = collections;
      active_id = active_id;
      view_mode = mode_for active_id raw.view_is_active;
    }

abbrev pub raw_collections : RawPreferences → List (Option RawCollection)
raw_collections raw = elim raw.collections [ none ↦ [] | some list ↦ list ]

-- The language's date parser is a parameter: `to_iso text` is `new Date(text).toISOString()`, or
-- none where the date is invalid. `now` is the present in the same format.
module _ (to_iso : Text → Option Text) (now : Text) where
  unfoldable pub normalize_iso_date : Option Text → Text → Text
  normalize_iso_date none fallback = fallback
  normalize_iso_date (some value) fallback = elim (to_iso value) [
    | none ↦ fallback
    | some iso ↦ iso
  ]

  -- what is kept of a raw collection whose id and name serve
  unfoldable pub stored_of : RawCollection → List Text → StoredItemCollection
  unfolding normalize_iso_date
  stored_of raw keys = record {
    id = trim raw.id;
    name = take max_name_length (trim raw.name);
    row_keys = keys;
    version = version_of raw.version;
    created_at = normalize_iso_date raw.created_at now;
    updated_at = normalize_iso_date raw.updated_at (normalize_iso_date raw.created_at now);
    shared = raw.shared;
  }

  -- one entry of the list, in front of the collections behind it
  unfoldable pub add_collection_of :
      Bool → RawCollection → List StoredItemCollection → Result (List StoredItemCollection)
  add_collection_of true raw rest = ok rest
  add_collection_of false raw rest = do
    keys ← normalize_row_keys (keys_or_empty raw.row_keys)
    ok (stored_of raw keys ∷ rest)

  unfoldable pub normalize_collections :
      List Text → List (Option RawCollection) → Result (List StoredItemCollection)
  unfolding add_collection_of
  normalize_collections seen [] = ok []
  normalize_collections seen (none ∷ raws) = normalize_collections seen raws
  normalize_collections seen (some raw ∷ raws) = do
    rest ← normalize_collections (if is_skipped seen raw then seen else trim raw.id ∷ seen) raws
    add_collection_of (is_skipped seen raw) raw rest

  -- The preferences of somebody without any are those of an empty object.
  unfoldable pub normalize_state : RawPreferences → Result State
  unfolding normalize_collections
  normalize_state raw = do
    collections ← normalize_collections [] (raw_collections raw)
    ok (state_of raw collections)

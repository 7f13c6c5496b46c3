-- ===== src/Collections/Tests.antt =====
-- Collections of two owners, runs of the requests on them, and each theorem at an input that meets
-- its hypotheses.
use content_pool_next.Base.{
  Bool, true, false, ◌+◌, Option, none, some, List, [], ◌∷◌, map, contains, ◌≡◌, ◌≢◌, ◌⊎◌, refl,
  arith,
}
use content_pool_next.Base.Text.{Text, text_eq, trim, trim_start, trim_end, is_space}
use content_pool_next.Base.Http.{Result, ok, err, conflict}
use content_pool_next.Collections.{
  StoredItemCollection, active, State, RawPreferences, find_collection,
}
use content_pool_next.Collections.Normalize.{
  normalize_state, normalize_collections, normalize_row_keys, collect_row_keys, normalize_iso_date,
  stored_of, add_collection_of,
}
use content_pool_next.Collections.Operations
use content_pool_next.Collections.Operations.{
  CollectionUpdate, RowsMutation, RowsChange, adding, removing, clearing,
}
use content_pool_next.Collections.Store.{raw_state}
use content_pool_next.Collections.Csv.{Cell, text_cell, number_cell, csv_line, cell_text}
use content_pool_next.Collections.CsvLaws.{read_line, read_line-csv_line}
use content_pool_next.Collections.Invariant.{IsValid}
use content_pool_next.Collections.Requests
use content_pool_next.Collections.RoundTrip.{
  IsReadable, normalize_state-IsValid, normalize_state-raw_state,
}
use content_pool_next.Collections.Versions.{apply_update-version, apply_update-conflict}
use content_pool_next.Collections.RowChanges.{kept_after, apply_rows-kept}

-- a parser that takes every text for a date
abbrev any_date : Text → Option Text
any_date = some

abbrev noon : Text
noon = b'1' ∷ b'2' ∷ []

abbrev one : Text
one = b'1' ∷ []

abbrev key_a : Text
key_a = b'a' ∷ []

abbrev key_b : Text
key_b = b'b' ∷ []

abbrev first : StoredItemCollection
first = record {
  id = one;
  name = b'N' ∷ [];
  row_keys = key_a ∷ [];
  version = 3;
  created_at = noon;
  updated_at = noon;
  shared = false;
}

abbrev held : State
held = record { collections = first ∷ []; active_id = some one; view_mode = active }

-- a document with a blank entry, a doubled id and keys to clean
abbrev document : RawPreferences
document = record {
  collections = some (
      some (record {
        id = 32 ∷ one;
        name = b'N' ∷ [];
        row_keys = some (some (32 ∷ key_a) ∷ some key_a ∷ []);
        version = some 3;
        created_at = some noon;
        updated_at = none;
        shared = false;
      })
      ∷ none
      ∷ some (record {
        id = one;
        name = b'M' ∷ [];
        row_keys = none;
        version = none;
        created_at = none;
        updated_at = none;
        shared = true;
      })
      ∷ []);
  active_id = [];
  view_is_active = true;
}

document_read : normalize_state any_date noon document ≡ ok held
unfolding normalize_state normalize_collections add_collection_of stored_of normalize_iso_date
    normalize_row_keys collect_row_keys trim trim_start trim_end is_space
document_read = refl

normalize_state-IsValid_example : IsValid held
normalize_state-IsValid_example = normalize_state-IsValid any_date noon document held document_read

held-IsReadable : IsReadable any_date noon held
unfolding trim trim_start trim_end is_space
held-IsReadable = record {
  names = (refl, tt);
  created = (refl, tt);
  updated = (refl, tt);
  active_id = λ i e. ground arith;
  settled = λ e. absurd (ground arith);
}

normalize_state-raw_state_example : normalize_state any_date noon (raw_state held) ≡ ok held
normalize_state-raw_state_example =
    normalize_state-raw_state any_date noon held normalize_state-IsValid_example held-IsReadable

abbrev mutation : RowsMutation
mutation = record {
  add_row_keys = some (some (some (32 ∷ key_b) ∷ []));
  remove_row_keys = none;
  clear = none;
  base_version = some 3;
}

abbrev grown : State
grown = record held {
  collections = record first { row_keys = key_a ∷ key_b ∷ []; version = 4 } ∷ [];
}

abbrev request : Requests.Request
request = Requests.mutate_rows one noon (key_b ∷ []) mutation

request_run : Requests.handle request held ≡ ok grown
unfolding Requests.handle Operations.mutate_item_collection_rows Operations.rows_action
    Operations.normalized_change Operations.apply_rows Operations.checked_collection
    Operations.next_rows Operations.add_rows Operations.rows_changed Operations.differs_at_some
    Operations.replace_collection normalize_row_keys collect_row_keys trim trim_start trim_end
    is_space
request_run = refl

handle-IsValid_example : IsValid grown
handle-IsValid_example =
    Requests.handle-IsValid request held grown tt normalize_state-IsValid_example request_run

abbrev rows_added : State → Result State
rows_added = Operations.apply_rows one noon (key_b ∷ []) (some 3) (adding (key_b ∷ []))

rows_run : rows_added held ≡ ok grown
unfolding Operations.apply_rows Operations.checked_collection Operations.next_rows
    Operations.add_rows Operations.rows_changed Operations.differs_at_some
    Operations.replace_collection
rows_run = refl

apply_rows-kept_example :
    (c d : StoredItemCollection) × (find_collection one held.collections ≡ some c)
    × (some 3 ≡ some c.version)
    × (find_collection one grown.collections ≡ some d)
    × ((k : Text)
        → contains k d.row_keys ≡ kept_after (adding (key_b ∷ [])) k (contains k c.row_keys))
    × ((k : Text)
        → contains k d.row_keys ≡ true
        → contains k c.row_keys ≡ false
        → contains k (key_b ∷ []) ≡ true)
    × (((d.row_keys ≡ c.row_keys) × (d.version ≡ c.version))
        ⊎ ((d.row_keys ≢ c.row_keys) × (d.version ≡ c.version + 1)))
    × ((j : Text)
        → j ≢ one
        → find_collection j grown.collections ≡ find_collection j held.collections)
apply_rows-kept_example =
    apply_rows-kept one noon (key_b ∷ []) (some 3) (adding (key_b ∷ [])) held grown rows_run

abbrev renamed : State
renamed = record held { collections = record first { name = b'M' ∷ []; version = 4 } ∷ [] }

update_run :
    Operations.apply_update one noon [] (some 3) (some (b'M' ∷ [])) none none held ≡ ok renamed
unfolding Operations.apply_update Operations.checked_collection Operations.replace_collection
update_run = refl

apply_update-version_example :
    (c d : StoredItemCollection) × (find_collection one held.collections ≡ some c)
    × (some 3 ≡ some c.version)
    × (find_collection one renamed.collections ≡ some d)
    × (d.version ≡ c.version + 1)
    × ((j : Text)
        → j ≢ one
        → find_collection j renamed.collections ≡ find_collection j held.collections)
apply_update-version_example =
    apply_update-version one noon [] (some 3) (some (b'M' ∷ [])) none none held renamed update_run

apply_update-conflict_example :
    ((now' : Text) (known' : List Text) (name' : Option Text) (shared' : Option Bool)
        (keys' : Option (List Text))
      → Operations.apply_update one now' known' (some 3) name' shared' keys' renamed ≡ err conflict)
    × ((now' : Text) (known' : List Text) (change : RowsChange)
        → Operations.apply_rows one now' known' (some 3) change renamed ≡ err conflict)
apply_update-conflict_example =
    apply_update-conflict one noon [] (some 3) (some (b'M' ∷ [])) none none held renamed update_run

-- a formula with a quote and a semicolon, and a number
abbrev tricky : Cell
tricky = text_cell (b'=' ∷ 34 ∷ b';' ∷ [])

read_line-csv_line_example :
    read_line 2 (csv_line tricky (number_cell (b'7' ∷ []) ∷ []))
    ≡ some (map cell_text (tricky ∷ number_cell (b'7' ∷ []) ∷ []))
read_line-csv_line_example =
    read_line-csv_line tricky (number_cell (b'7' ∷ []) ∷ []) 2 (omega arith)

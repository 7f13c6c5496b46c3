-- ===== src/Base/Json.antt =====
-- The values of the language that requests and responses are made of. The fields of an object are
-- kept in their order; a field that is not there is `undefined`.
use Prim.Native.String.{String}
use mathlib.Core.Path.{◌≡◌, refl, ap}
use mathlib.Core.List.{List, [], ◌∷◌}
use mathlib.Core.Bool.{Bool, false, ◌||◌}
use native.Mathlib.Omega.{arith}
use content_pool_next.Base.Tests.{if◌then◌else◌}
use content_pool_next.Base.Keys.{string_eq, same}
use text.Mathlib.TextEquality.{eq_iff as str_eq_iff}

mutual
  pub data Fields : Type 0 where
    field : String → Value → Fields → Fields
    no_members : Fields

  pub data Entries : Type 0 where
    entry : Value → Entries → Entries
    no_entries : Entries

  pub data Value : Type 0 where
    object : Fields → Value
    array : Entries → Value
    number string date : String → Value
    bool : Bool → Value
    undefined null : Value

-- `record(value)`
abbrev pub record_of : Value → Fields
record_of (object fields) = fields
record_of _ = no_members

-- `fields[key]`
abbrev pub member : String → Fields → Value
member key no_members = undefined
member key (field k v fields) = if same k key then v else member key fields

-- `key in fields`
abbrev pub has : String → Fields → Bool
has key no_members = false
has key (field k v fields) = same k key || has key fields

-- `{ ...fields, [key]: value }`
abbrev pub set : String → Value → Fields → Fields
set key value no_members = field key value no_members
set key value (field k v fields) =
    let rest = set key value fields in if same k key then field k value fields else field k v rest

-- `Object.fromEntries(Object.entries(fields).filter(([key]) => keep(key)))`
abbrev pub filter_fields : (String → Bool) → Fields → Fields
filter_fields keep no_members = no_members
filter_fields keep (field k v fields) =
    let rest = filter_fields keep fields in if keep k then field k v rest else rest

-- `Object.fromEntries(Object.entries(fields).map(([key, value]) => [key, change(value)]))`
abbrev pub map_fields : (Value → Value) → Fields → Fields
map_fields change no_members = no_members
map_fields change (field k v fields) = field k (change v) (map_fields change fields)

abbrev pub filter_entries : (Value → Bool) → Entries → Entries
filter_entries keep no_entries = no_entries
filter_entries keep (entry v items) =
    let rest = filter_entries keep items in if keep v then entry v rest else rest

abbrev pub map_entries : (Value → Value) → Entries → Entries
map_entries change no_entries = no_entries
map_entries change (entry v items) = entry (change v) (map_entries change items)

-- A field that the filter keeps has its value, and any other is gone.
pub member-filter_fields :
    (keep : String → Bool) (key : String) (fields : Fields)
    → member key (filter_fields keep fields) ≡ (if keep key then member key fields else undefined)
member-filter_fields keep key no_members = ground arith
member-filter_fields keep key (field k v fields) =
    ground (arith, member-filter_fields keep key fields, str_eq_iff k key)

-- the text of a value that is one
abbrev pub text_of : Value → String
text_of (string s) = s
text_of _ = ""

-- an array of texts as a list, and back
abbrev pub texts_of_entries : Entries → List String
texts_of_entries no_entries = []
texts_of_entries (entry v items) = text_of v ∷ texts_of_entries items

abbrev pub texts_of : Value → List String
texts_of (array items) = texts_of_entries items
texts_of _ = []

abbrev pub entries_of_texts : List String → Entries
entries_of_texts [] = no_entries
entries_of_texts (s ∷ list) = entry (string s) (entries_of_texts list)

abbrev pub array_of : List String → Value
array_of list = array (entries_of_texts list)

pub texts_of-array_of : (list : List String) → texts_of (array_of list) ≡ list
texts_of-array_of [] = refl
texts_of-array_of (s ∷ list) = ap (◌∷◌ s) (texts_of-array_of list)

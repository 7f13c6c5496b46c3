-- ===== src/Cache.antt =====
-- The cache of loads in flight: backend/src/files/async-lru-cache.ts. A `Map` is the list of its
-- entries in insertion order, the oldest first. An entry object is told from others by a number; a
-- promise that settles later is an event that names the key and the entry.
pub mod Laws
mod Tests
use content_pool_next.Base.{
  ℕ, number_eq, Bool, true, false, not, ◌&&◌, Option, none, some, List, [], ◌∷◌, ◌++◌, map, filter,
  find, any, length, Eq, same, ltb, if◌then◌else◌,
}

pub record Entry (K : Type 0) : Type 0 where
  pub key : K
  pub id : ℕ
  pub settled : Bool

-- What happens to the cache: a request, with the number of the entry that it may create, the end of
-- a load, and the three ways of emptying it.
pub data Event (K : Type 0) : Type 0 where
  get_or_load : K → ℕ → Event K
  loaded : K → ℕ → Bool → Event K
  failed : K → ℕ → Event K
  delete : K → Event K
  delete_where : (K → Bool) → Event K
  clear : Event K

-- `AsyncCacheStatus`
pub data Status : Type 0 where
  hit miss coalesced : Status

module _ {K : Type 0} ⦃eq : Eq K⦄ where
  abbrev pub entry_of : K → List (Entry K) → Option (Entry K)
  entry_of key = find (λ e. same e.key key)

  unfoldable pub remove_key : K → List (Entry K) → List (Entry K)
  remove_key key = filter (λ e. not (same e.key key))

  -- the entry comes last, as the newest
  unfoldable pub touch : Entry K → List (Entry K) → List (Entry K)
  unfolding remove_key
  touch e entries = remove_key e.key entries ++ e ∷ []

  unfoldable pub evict_overflow : ℕ → List (Entry K) → List (Entry K)
  evict_overflow max_entries [] = []
  evict_overflow max_entries (e ∷ entries) =
      let rest = evict_overflow max_entries entries in
      if ltb max_entries (length (e ∷ entries)) then rest else e ∷ entries

  -- `getOrLoad`, up to its first `await`
  unfoldable pub request : ℕ → K → ℕ → List (Entry K) → List (Entry K)
  unfolding touch evict_overflow
  request max_entries key id entries = elim (entry_of key entries) [
    | none ↦
        evict_overflow max_entries (entries ++ record { key = key; id = id; settled = false } ∷ [])
    | some e ↦ touch e entries
  ]

  unfoldable pub status_of : K → List (Entry K) → Status
  status_of key entries = elim (entry_of key entries) [
    | none ↦ miss
    | some e ↦ if e.settled then hit else coalesced
  ]

  abbrev pub is_entry : ℕ → Option (Entry K) → Bool
  is_entry id none = false
  is_entry id (some e) = same e.id id

  unfoldable pub delete_if_current : K → ℕ → List (Entry K) → List (Entry K)
  unfolding remove_key
  delete_if_current key id entries =
      if is_entry id (entry_of key entries) then remove_key key entries else entries

  -- `entry.settled = true`, which nobody sees where the entry has left the cache
  abbrev pub settle_entry : ℕ → Entry K → Entry K
  settle_entry id e = record e { settled = if same e.id id then true else e.settled }

  unfoldable pub settle : ℕ → List (Entry K) → List (Entry K)
  settle id = map (settle_entry id)

  unfoldable pub handle : ℕ → Event K → List (Entry K) → List (Entry K)
  unfolding request settle delete_if_current remove_key
  handle max_entries (get_or_load key id) entries = request max_entries key id entries
  handle max_entries (loaded key id true) entries = settle id entries
  handle max_entries (loaded key id false) entries = delete_if_current key id entries
  handle max_entries (failed key id) entries = delete_if_current key id entries
  handle max_entries (delete key) entries = remove_key key entries
  handle max_entries (delete_where test) entries = filter (λ e. not (test e.key)) entries
  handle max_entries clear entries = []

  -- the events in their order
  unfoldable pub handle_all : ℕ → List (Event K) → List (Entry K) → List (Entry K)
  unfolding handle
  handle_all max_entries [] entries = entries
  handle_all max_entries (event ∷ events) entries =
      handle_all max_entries events (handle max_entries event entries)

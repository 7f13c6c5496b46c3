-- ===== src/Cache/Tests.antt =====
-- A cache of two entries, and each theorem on it.
use content_pool_next.Base.{
  String, string_eq, number_eq, true, false, List, [], ◌∷◌, ◌≡◌, refl, arith, none, same, ◌&&◌,
  if◌then◌else◌,
}
use content_pool_next.Cache.{
  Entry, Event, get_or_load, loaded, failed, handle, handle_all, request, touch, evict_overflow,
  settle, delete_if_current, remove_key, entry_of, is_entry, status_of, hit, miss, coalesced,
}
use content_pool_next.Cache.Laws.{IsBounded, handle_all-IsBounded, handle-entry_of}

abbrev busy : List (Event String)
busy =
    get_or_load "a" 1
    ∷ get_or_load "b" 2
    ∷ loaded "a" 1 true
    ∷ get_or_load "a" 3
    ∷ get_or_load "c" 4
    ∷ failed "b" 2
    ∷ []

abbrev left : List (Entry String)
left =
    record { key = "a"; id = 1; settled = true }
    ∷ record { key = "c"; id = 4; settled = false }
    ∷ []

-- the oldest entry has gone, the one that was asked for again has stayed
busy_test :
    (handle_all 2 busy [] ≡ left)
    × (status_of "a" left ≡ hit)
    × (status_of "c" left ≡ coalesced)
    × (status_of "b" left ≡ miss)
unfolding handle_all handle request touch evict_overflow settle delete_if_current remove_key
    status_of
busy_test = (refl, refl, refl, refl)

empty-IsBounded : IsBounded {K = String} 2 []
empty-IsBounded = record { bounded = omega arith; distinct = tt }

handle_all-IsBounded_example : IsBounded 2 (handle_all 2 busy [])
handle_all-IsBounded_example = handle_all-IsBounded 2 busy [] empty-IsBounded

handle-entry_of_example :
    (entry_of "c" (handle 2 (failed "c" 4) left) ≡ (
      if same {A = String} "c" "c" && is_entry 4 (entry_of "c" left)
      then none
      else entry_of "c" left))
    × (entry_of "c" (handle 2 (loaded "c" 4 false) left) ≡ (
        if same {A = String} "c" "c" && is_entry 4 (entry_of "c" left)
        then none
        else entry_of "c" left))
handle-entry_of_example = handle-entry_of 2 "c" "c" 4 left

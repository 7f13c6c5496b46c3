-- ===== src/Collections/Requests.antt =====
-- The invariant across every request to change the collections.
use content_pool_next.Base.{
  not, Option, none, some, List, filter, same, All, All-filter, map-filter-IsDistinct, ◌≡◌, refl,
  arith, if◌then◌else◌,
}
use content_pool_next.Base.Text.{Text, text_eq}
use content_pool_next.Base.Http.{Result, ok}
use content_pool_next.Collections.{StoredItemCollection, ViewMode, all, State, first_id}
use content_pool_next.Collections.Invariant.{
  IsStored, IsValid, IsFresh, create-IsValid, copy-IsValid,
}
use content_pool_next.Collections.UpdateLaws.{update-IsValid}
use content_pool_next.Collections.RowLaws.{mutate-IsValid}
use content_pool_next.Collections.Operations
use content_pool_next.Collections.Operations.{
  CollectionUpdate, RowsMutation, RowsAction, RowsChange, add, remove, clear_all, adding, removing,
  clearing,
}

activate-IsValid :
    (shared_ids : List Text) (id : Option Text) (mode : Option ViewMode) (s t : State)
    → IsValid s
    → Operations.activate_item_collection shared_ids id mode s ≡ ok t
    → IsValid t
unfolding Operations.activate_item_collection
activate-IsValid shared_ids none mode s t v e =
    let result : record s { active_id = none; view_mode = all } ≡ t = ground arith in
    rw (← result) (record { stored = v.stored; distinct = v.distinct; mode = λ p. refl })
activate-IsValid shared_ids (some id) mode s t v e =
    let result : record s {
      active_id = some id;
      view_mode = Operations.activated_mode (some id) mode s.view_mode;
    }
        ≡ t =
      ground arith in
    rw (← result) (record { stored = v.stored; distinct = v.distinct; mode = λ p. cc })

mode_with-none :
    (active_id : Option Text) (mode : ViewMode)
    → active_id ≡ none
    → Operations.mode_with active_id mode ≡ all
mode_with-none none mode p = refl
mode_with-none (some id) mode p = cc

delete-IsValid :
    (id : Text) (s t : State)
    → IsValid s
    → Operations.delete_item_collection id s ≡ ok t
    → IsValid t
unfolding Operations.delete_item_collection
delete-IsValid id s t v e =
    let rest = filter (λ (c : StoredItemCollection). not (same c.id id)) s.collections in
    let active_id : Option Text =
      if Operations.is_active s.active_id id then first_id rest else s.active_id in
    let result : record s {
      collections = rest;
      active_id = active_id;
      view_mode = Operations.mode_with active_id s.view_mode;
    }
        ≡ t =
      ground arith in
    rw (← result) (record {
      stored = All-filter IsStored (λ c. not (same c.id id)) s.collections v.stored;
      distinct =
          map-filter-IsDistinct (λ c. c.id) (λ c. not (same c.id id)) s.collections v.distinct;
      mode = mode_with-none active_id s.view_mode;
    })

-- A request to change the collections, with what it takes from outside: new ids, the present, the
-- row keys of the files, and the collections that others share.
pub data Request : Type 0 where
  create : Text → Text → Option Text → Request
  copy : Text → Text → Text → State → List StoredItemCollection → Request
  update : Text → Text → List Text → CollectionUpdate → Request
  mutate_rows : Text → Text → List Text → RowsMutation → Request
  activate : List Text → Option Text → Option ViewMode → Request
  delete : Text → Request

unfoldable pub handle : Request → State → Result State
handle (create id now name) s = Operations.create_item_collection id now name s
handle (copy id now source own shared) s =
    Operations.copy_item_collection id now source own shared s
handle (update id now known u) s = Operations.update_item_collection id now known u s
handle (mutate_rows id now known m) s = Operations.mutate_item_collection_rows id now known m s
handle (activate shared id mode) s = Operations.activate_item_collection shared id mode s
handle (delete id) s = Operations.delete_item_collection id s

-- New ids are fresh, and what is copied comes from valid states.
abbrev pub IsAdmissible : Request → State → Type 0
IsAdmissible (create id now name) s = IsFresh id s
IsAdmissible (copy id now source own shared) s = IsFresh id s × IsValid own × All IsStored shared
IsAdmissible _ s = Unit

-- From a valid state, every admissible request that succeeds leaves a valid one: distinct ids,
-- trimmed and distinct row keys within their bounds, names of 1 to 100 units, positive versions, and
-- no view of an active collection without one.
pub handle-IsValid :
    (r : Request) (s t : State) → IsAdmissible r s → IsValid s → handle r s ≡ ok t → IsValid t
unfolding handle
handle-IsValid (create id now name) s t a v e = (create-IsValid id now name s t a v e).0
handle-IsValid (copy id now source own shared) s t (fresh, o, h) v e =
    (copy-IsValid id now source own shared s t fresh o h v e).0
handle-IsValid (update id now known u) s t a v e = update-IsValid id now known u s t v e
handle-IsValid (mutate_rows id now known m) s t a v e = mutate-IsValid id now known m s t v e
handle-IsValid (activate shared id mode) s t a v e = activate-IsValid shared id mode s t v e
handle-IsValid (delete id) s t a v e = delete-IsValid id s t v e

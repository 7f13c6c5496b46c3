-- ===== src/Cache/Laws.antt =====
-- What the cache of backend/src/files/async-lru-cache.ts never holds, and whom a load that ends may
-- remove.
use content_pool_next.Base.{
  ℕ, suc, number_eq, Bool, true, false, not, ◌≤◌, none, some, List, [], ◌∷◌, ◌++◌, map, filter,
  length, length-append, length-filter-le, length-map, Eq, same, same_iff, contains,
  map-filter-IsDistinct, append-IsDistinct, IsDistinct, ltb, ◌&&◌, if◌then◌else◌, ◌≡◌, refl, arith,
  Bool-cases, Option-cases, inl, inr,
}
use mathlib.Core.List.{map-append}
use content_pool_next.Cache.{
  Entry, Event, get_or_load, loaded, failed, delete, delete_where, clear, entry_of, remove_key,
  touch, evict_overflow, request, is_entry, delete_if_current, settle_entry, settle, handle,
  handle_all,
}

module _ {K : Type 0} ⦃eq : Eq K⦄ where
  abbrev pub keys : List (Entry K) → List K
  keys = map (λ e. e.key)

  -- at most so many entries, and one for a key
  pub record IsBounded (max_entries : ℕ) (entries : List (Entry K)) : Type 0 where
    pub bounded : length entries ≤ max_entries
    pub distinct : IsDistinct (keys entries)

  filter-IsBounded :
      (n : ℕ) (p : Entry K → Bool) (es : List (Entry K))
      → IsBounded n es
      → IsBounded n (filter p es)
  filter-IsBounded n p es h =
      let fewer = length-filter-le p es in
      let most = h.bounded in
      record {
        bounded = omega arith;
        distinct = map-filter-IsDistinct (λ (e : Entry K). e.key) p es h.distinct;
      }

  keys-settle : (id : ℕ) (es : List (Entry K)) → keys (settle id es) ≡ keys es
  unfolding settle
  keys-settle id [] = refl
  keys-settle id (e ∷ es) = rw (keys-settle id es)

  removed_key : (key : K) (es : List (Entry K)) → contains key (keys (remove_key key es)) ≡ false
  unfolding remove_key
  removed_key key [] = refl
  removed_key key (e ∷ es) = elim (Bool-cases (same e.key key)) [
    | inl gone ↦ rw gone (removed_key key es)
    | inr kept ↦ rw (kept, kept) (removed_key key es)
  ]

  removed_count :
      (key : K) (es : List (Entry K)) (e : Entry K)
      → entry_of key es ≡ some e
      → suc (length (remove_key key es)) ≤ length es
  unfolding remove_key
  removed_count key [] e h = absurd (ground arith)
  removed_count key (x ∷ es) e h = elim (Bool-cases (same x.key key)) [
    | inl here ↦
        let fewer = length-filter-le (λ (e : Entry K). not (same e.key key)) es in
        rw here (omega arith)
    | inr there ↦ let later = removed_count key es e (rw there at h) in rw there (omega arith)
  ]

  entry_of-none :
      (key : K) (es : List (Entry K)) → entry_of key es ≡ none → contains key (keys es) ≡ false
  entry_of-none key [] h = refl
  entry_of-none key (x ∷ es) h = ground (arith, entry_of-none key es)

  entry_of-key :
      (key : K) (es : List (Entry K)) (e : Entry K) → entry_of key es ≡ some e → e.key ≡ key
  entry_of-key key [] e h = absurd (ground arith)
  entry_of-key key (x ∷ es) e h = ground (arith, entry_of-key key es e, same_iff x.key key)

  appended-IsDistinct :
      (es : List (Entry K)) (e : Entry K)
      → IsDistinct (keys es)
      → contains e.key (keys es) ≡ false
      → IsDistinct (keys (es ++ e ∷ []))
  appended-IsDistinct es e h fresh =
      rw map-append (append-IsDistinct (keys es) (e.key ∷ []) h (refl, tt) (fresh, tt))

  evict_overflow-bound : (n : ℕ) (es : List (Entry K)) → length (evict_overflow n es) ≤ n
  unfolding evict_overflow
  evict_overflow-bound n [] = omega arith
  evict_overflow-bound n (e ∷ es) = ground (arith, evict_overflow-bound n es)

  evict_overflow-IsDistinct :
      (n : ℕ) (es : List (Entry K)) → IsDistinct (keys es) → IsDistinct (keys (evict_overflow n es))
  unfolding evict_overflow
  evict_overflow-IsDistinct n [] h = tt
  evict_overflow-IsDistinct n (e ∷ es) h = elim (Bool-cases (ltb n (length (e ∷ es)))) [
    | inl full ↦ rw full (evict_overflow-IsDistinct n es h.1)
    | inr room ↦ rw room h
  ]

  removed-IsDistinct :
      (key : K) (es : List (Entry K)) → IsDistinct (keys es) → IsDistinct (keys (remove_key key es))
  unfolding remove_key
  removed-IsDistinct key es h =
      map-filter-IsDistinct (λ (e : Entry K). e.key) (λ (e : Entry K). not (same e.key key)) es h

  touch-IsBounded :
      (n : ℕ) (es : List (Entry K)) (e : Entry K)
      → IsBounded n es
      → entry_of e.key es ≡ some e
      → IsBounded n (touch e es)
  unfolding touch
  touch-IsBounded n es e h found =
      let fewer = removed_count e.key es e found in
      let most = h.bounded in
      record {
        bounded = rw (length-append (remove_key e.key es) (e ∷ [])) (omega arith);
        distinct =
            appended-IsDistinct (remove_key e.key es) e (removed-IsDistinct e.key es h.distinct)
              (removed_key e.key es);
      }

  request-IsBounded :
      (n : ℕ) (key : K) (id : ℕ) (es : List (Entry K))
      → IsBounded n es
      → IsBounded n (request n key id es)
  unfolding request
  request-IsBounded n key id es h = elim (Option-cases (entry_of key es)) [
    | inl absent ↦
        let new : Entry K = record { key = key; id = id; settled = false } in
        rw (request, absent)
          (record {
            bounded = evict_overflow-bound n (es ++ new ∷ []);
            distinct =
                evict_overflow-IsDistinct n (es ++ new ∷ [])
                  (appended-IsDistinct es new h.distinct (entry_of-none key es absent));
          })
    | inr (e, found) ↦
        let named = entry_of-key key es e found in
        rw (request, found) (touch-IsBounded n es e h (rw (← named) at found))
  ]

  delete_if_current-IsBounded :
      (n : ℕ) (key : K) (id : ℕ) (es : List (Entry K))
      → IsBounded n es
      → IsBounded n (delete_if_current key id es)
  unfolding delete_if_current remove_key
  delete_if_current-IsBounded n key id es h = elim (Bool-cases (is_entry id (entry_of key es))) [
    | inl current ↦ rw current (filter-IsBounded n (λ (e : Entry K). not (same e.key key)) es h)
    | inr replaced ↦ rw replaced h
  ]

  handle-IsBounded :
      (n : ℕ) (event : Event K) (es : List (Entry K))
      → IsBounded n es
      → IsBounded n (handle n event es)
  unfolding handle settle remove_key
  handle-IsBounded n (get_or_load key id) es h = request-IsBounded n key id es h
  handle-IsBounded n (loaded key id true) es h = record {
    bounded = rw (length-map (settle_entry id) es) h.bounded;
    distinct = rw (keys-settle id es) h.distinct;
  }
  handle-IsBounded n (loaded key id false) es h = delete_if_current-IsBounded n key id es h
  handle-IsBounded n (failed key id) es h = delete_if_current-IsBounded n key id es h
  handle-IsBounded n (delete key) es h =
      filter-IsBounded n (λ (e : Entry K). not (same e.key key)) es h
  handle-IsBounded n (delete_where test) es h =
      filter-IsBounded n (λ (e : Entry K). not (test e.key)) es h
  handle-IsBounded n clear es h = record { bounded = omega arith; distinct = tt }

  -- Whatever requests, ends of loads and deletions come in whatever order, a cache within its
  -- maximum and without two entries for a key stays so.
  pub handle_all-IsBounded :
      (n : ℕ) (events : List (Event K)) (es : List (Entry K))
      → IsBounded n es
      → IsBounded n (handle_all n events es)
  unfolding handle_all
  handle_all-IsBounded n [] es h = h
  handle_all-IsBounded n (event ∷ events) es h =
      handle_all-IsBounded n events (handle n event es) (handle-IsBounded n event es h)

  entry_of-removed : (key : K) (es : List (Entry K)) → entry_of key (remove_key key es) ≡ none
  unfolding remove_key
  entry_of-removed key [] = refl
  entry_of-removed key (e ∷ es) = elim (Bool-cases (same e.key key)) [
    | inl gone ↦ rw gone (entry_of-removed key es)
    | inr kept ↦ rw (kept, kept) (entry_of-removed key es)
  ]

  entry_of-removed_other :
      (key k : K) (es : List (Entry K))
      → same key k ≡ false
      → entry_of k (remove_key key es) ≡ entry_of k es
  unfolding remove_key
  entry_of-removed_other key k [] other = refl
  entry_of-removed_other key k (e ∷ es) other = ground (
    arith,
    entry_of-removed_other key k es other,
    same_iff e.key key,
    same_iff e.key k,
    same_iff key k,
  )

  delete_if_current-entry_of :
      (key k : K) (id : ℕ) (es : List (Entry K))
      → entry_of k (delete_if_current key id es)
        ≡ (if same key k && is_entry id (entry_of key es) then none else entry_of k es)
  unfolding delete_if_current
  delete_if_current-entry_of key k id es = elim (Bool-cases (is_entry id (entry_of key es))) [
    | inl current ↦ elim (Bool-cases (same key k)) [
      | inl here ↦
          let named = (same_iff key k).0 here in
          rw (current, here) (rw (← named) (entry_of-removed key es))
      | inr other ↦ rw (current, other) (entry_of-removed_other key k es other)
    ]
    | inr replaced ↦ elim (Bool-cases (same key k)) [
      | inl here ↦ rw (replaced, here)
      | inr other ↦ rw (replaced, other)
    ]
  ]

  -- A load that fails, or whose value is not to be kept, takes the entry of its key out of the cache
  -- if that is still the entry of this very load. A newer entry for the key and the entries of all
  -- other keys are found as before.
  pub handle-entry_of :
      (n : ℕ) (key k : K) (id : ℕ) (es : List (Entry K))
      → (entry_of k (handle n (failed key id) es)
          ≡ (if same key k && is_entry id (entry_of key es) then none else entry_of k es))
        × (entry_of k (handle n (loaded key id false) es)
            ≡ (if same key k && is_entry id (entry_of key es) then none else entry_of k es))
  unfolding handle
  handle-entry_of n key k id es =
      (delete_if_current-entry_of key k id es, delete_if_current-entry_of key k id es)

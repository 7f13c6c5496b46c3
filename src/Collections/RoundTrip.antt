-- ===== src/Collections/RoundTrip.antt =====
-- Reading: any document gives a valid state, and a state that was written is read back as it was.
use content_pool_next.Base.{
  ℕ, Bool, false, ◌≤◌, Option, none, some, List, [], ◌∷◌, map, contains, is_empty, take_bound,
  take_whole, All, IsDistinct, ◌≡◌, refl, sym, arith, Bool-cases, inl, inr,
}
use content_pool_next.Base.Text.{Text, text_eq, trim}
use content_pool_next.Base.Text.Laws.{trim_idem, trim-nil}
use content_pool_next.Base.Http.{ok, >>=-eq-ok}
use content_pool_next.Collections.{
  StoredItemCollection, ViewMode, all, active, State, RawCollection, RawPreferences, first_id,
}
use content_pool_next.Collections.Normalize.{
  normalize_row_keys, keys_or_empty, version_of, stored_of, is_skipped, add_collection_of,
  normalize_collections, normalize_state, state_of, mode_for, or_text, raw_collections,
}
use content_pool_next.Collections.Store.{raw_collection, raw_state, raw_id, is_active_mode}
use content_pool_next.Collections.KeyLaws.{
  AreRowKeys, normalize_row_keys-AreRowKeys, normalize_row_keys-stored, fresh-weaken,
  fresh-strengthen, fresh-nil,
}
use content_pool_next.Collections.Invariant.{IsStored, IsValid, ids, take-nonempty}

version_of_pos : (v : Option ℕ) → 1 ≤ version_of v
version_of_pos none = omega arith
version_of_pos (some n) = omega arith

version_of_stored : (n : ℕ) → 1 ≤ n → version_of (some n) ≡ n
version_of_stored n h = omega arith

module _ (to_iso : Text → Option Text) (now : Text) where
  -- what is read behind the ids already seen
  record Read (seen : List Text) (cs : List StoredItemCollection) : Type 0 where
    stored : All IsStored cs
    distinct : IsDistinct (ids cs)
    fresh : All (λ id. contains id seen ≡ false) (ids cs)

  stored_of-IsStored :
      (raw : RawCollection) (keys : List Text)
      → is_empty (trim raw.id) ≡ false
      → is_empty (trim raw.name) ≡ false
      → AreRowKeys keys
      → IsStored (stored_of to_iso now raw keys)
  unfolding stored_of
  stored_of-IsStored raw keys given named k = record {
    id_trimmed = trim_idem raw.id;
    id_given = given;
    name_given = take-nonempty 99 (trim raw.name) named;
    name_short = take_bound 100 (trim raw.name);
    keys = k;
    counted = version_of_pos raw.version;
  }

  normalize_collections-Read :
      (seen : List Text) (raws : List (Option RawCollection)) (cs : List StoredItemCollection)
      → normalize_collections to_iso now seen raws ≡ ok cs
      → Read seen cs
  unfolding normalize_collections stored_of
  normalize_collections-Read seen [] cs e =
      let empty : [] ≡ cs = ground arith in
      rw (← empty) (record { stored = tt; distinct = tt; fresh = tt })
  normalize_collections-Read seen (none ∷ raws) cs e = normalize_collections-Read seen raws cs e
  normalize_collections-Read seen (some raw ∷ raws) cs e = elim (Bool-cases (is_skipped seen raw)) [
    | inl skip ↦
        let (rest, tail, final) =
          >>=-eq-ok (normalize_collections to_iso now seen raws) _ (rw skip at e) in
        let kept : rest ≡ cs = ground arith in
        rw (← kept) (normalize_collections-Read seen raws rest tail)
    | inr served ↦
        let (rest, tail, final) =
          >>=-eq-ok (normalize_collections to_iso now (trim raw.id ∷ seen) raws) _
            (rw served at e) in
        let (keys, accepted, last) =
          >>=-eq-ok (normalize_row_keys (keys_or_empty raw.row_keys)) _ final in
        let kept : stored_of to_iso now raw keys ∷ rest ≡ cs = ground arith in
        let behind = normalize_collections-Read (trim raw.id ∷ seen) raws rest tail in
        let (fresh, absent) = fresh-weaken (trim raw.id) seen (ids rest) behind.fresh in
        rw (← kept) (record {
          stored = (
            stored_of-IsStored raw keys (ground arith) (ground arith)
                (normalize_row_keys-AreRowKeys (keys_or_empty raw.row_keys) keys accepted),
            behind.stored,
          );
          distinct = (absent, behind.distinct);
          fresh = (ground arith, fresh);
        })
  ]

  mode_for-none : (id : Option Text) (requested : Bool) → id ≡ none → mode_for id requested ≡ all
  mode_for-none none requested p = refl
  mode_for-none (some id) requested p = cc

  -- Whatever a row of preferences holds, the state that is read from it is valid, or the read
  -- fails.
  pub normalize_state-IsValid :
      (raw : RawPreferences) (s : State) → normalize_state to_iso now raw ≡ ok s → IsValid s
  unfolding normalize_state
  normalize_state-IsValid raw s e =
      let (cs, read, final) =
        >>=-eq-ok (normalize_collections to_iso now [] (raw_collections raw)) _ e in
      let kept : state_of raw cs ≡ s = ground arith in
      let valid = normalize_collections-Read [] (raw_collections raw) cs read in
      rw (← kept) (record {
        stored = valid.stored;
        distinct = valid.distinct;
        mode = mode_for-none _ raw.view_is_active;
      })

  -- What the invariant does not say: names are trimmed, dates are in the stored format, an active
  -- id is a trimmed text, and there is one unless there are no collections.
  pub record IsReadable (s : State) : Type 0 where
    pub names : All (λ (c : StoredItemCollection). trim c.name ≡ c.name) s.collections
    pub created :
        All (λ (c : StoredItemCollection). to_iso c.created_at ≡ some c.created_at) s.collections
    pub updated :
        All (λ (c : StoredItemCollection). to_iso c.updated_at ≡ some c.updated_at) s.collections
    pub active_id : (id : Text) → s.active_id ≡ some id → (trim id ≡ id) × (is_empty id ≡ false)
    pub settled : s.active_id ≡ none → s.collections ≡ []

  stored_of-raw :
      (c : StoredItemCollection)
      → IsStored c
      → trim c.name ≡ c.name
      → to_iso c.created_at ≡ some c.created_at
      → to_iso c.updated_at ≡ some c.updated_at
      → stored_of to_iso now (raw_collection c) c.row_keys ≡ c
  unfolding stored_of
  stored_of-raw c h name created updated = ground (
    arith,
    h.id_trimmed,
    name,
    take_whole 100 c.name h.name_short,
    created,
    updated,
    version_of_stored c.version h.counted,
  )

  normalize_collections-stored :
      (seen : List Text) (cs : List StoredItemCollection)
      → All IsStored cs
      → IsDistinct (ids cs)
      → All (λ id. contains id seen ≡ false) (ids cs)
      → All (λ (c : StoredItemCollection). trim c.name ≡ c.name) cs
      → All (λ (c : StoredItemCollection). to_iso c.created_at ≡ some c.created_at) cs
      → All (λ (c : StoredItemCollection). to_iso c.updated_at ≡ some c.updated_at) cs
      → normalize_collections to_iso now seen (map (λ c. some (raw_collection c)) cs) ≡ ok cs
  unfolding normalize_collections
  normalize_collections-stored seen [] h d f n c u = refl
  normalize_collections-stored seen (x ∷ cs) h d f n c u =
      let served : is_skipped seen (raw_collection x) ≡ false =
        ground (arith, h.0.id_trimmed, h.0.id_given, h.0.name_given, n.0, f.0) in
      let later =
        normalize_collections-stored (trim x.id ∷ seen) cs h.1 d.1
          (rw (h.0.id_trimmed) (fresh-strengthen x.id seen (ids cs) d.0 f.1)) n.1 c.1 u.1 in
      rw (served, later, add_collection_of)
        (rw (normalize_row_keys-stored x.row_keys h.0.keys) (rw (stored_of-raw x h.0 n.0 c.0 u.0)))

  active_back :
      (id : Option Text) (cs : List StoredItemCollection)
      → ((i : Text) → id ≡ some i → (trim i ≡ i) × (is_empty i ≡ false))
      → (id ≡ none → cs ≡ [])
      → or_text (trim (raw_id id)) (first_id cs) ≡ id
  active_back none cs h k = rw (trim-nil, k refl)
  active_back (some i) cs h k = let (trimmed, given) = h i refl in rw (trimmed, given)

  mode_back :
      (id : Option Text) (mode : ViewMode)
      → (id ≡ none → mode ≡ all)
      → mode_for id (is_active_mode mode) ≡ mode
  mode_back none mode h = sym (h refl)
  mode_back (some id) all h = refl
  mode_back (some id) active h = refl

  -- A state that is valid and readable, and that is written, is read back unchanged.
  pub normalize_state-raw_state :
      (s : State) → IsValid s → IsReadable s → normalize_state to_iso now (raw_state s) ≡ ok s
  unfolding normalize_state raw_state
  normalize_state-raw_state s v r =
      let same_id = active_back s.active_id s.collections r.active_id r.settled in
      rw
        (normalize_collections-stored [] s.collections v.stored v.distinct
          (fresh-nil (ids s.collections)) r.names r.created r.updated)
        (rw same_id (rw (mode_back s.active_id s.view_mode v.mode)))

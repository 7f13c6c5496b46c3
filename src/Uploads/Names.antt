-- ===== src/Uploads/Names.antt =====
-- The names of an ACP's files stay distinct, where uploads are not to keep both.
use content_pool_next.Base.{
  string_eq, Bool, false, not, ◌&&◌, ◌||◌, List, [], ◌∷◌, map, contains, is_empty, same, All,
  IsDistinct, ◌≡◌, refl, ap, ◌∙◌, arith, Bool-cases, inl, inr,
}
use content_pool_next.Base.Text.{Text, text_eq, text_beq_iff}
use content_pool_next.Base.Http.{ok, err, bad_request, conflict, throw_if, >>=-eq-ok, ok_injective}
use content_pool_next.Uploads.{
  World, Upload, UploadConflictStrategy, reject, overwrite, keep_both, is_overwrite, is_reject,
  normalize_file_name, set_entry, by_name, resolve_incoming_files,
}

abbrev pub entry_keys : List (Text × Upload) → List Text
entry_keys = map (λ e. e.0)

contains-set_entry :
    (world : World) (key : Text) (file : Upload) (entries : List (Text × Upload)) (k : Text)
    → contains k (entry_keys (set_entry world key file entries))
      ≡ (same key k || contains k (entry_keys entries))
contains-set_entry world key file [] k = refl
contains-set_entry world key file (e ∷ entries) k =
    ground (arith, contains-set_entry world key file entries k, text_beq_iff e.0 key)

set_entry-IsDistinct :
    (world : World) (key : Text) (file : Upload) (entries : List (Text × Upload))
    → IsDistinct (entry_keys entries)
    → IsDistinct (entry_keys (set_entry world key file entries))
set_entry-IsDistinct world key file [] h = (refl, tt)
set_entry-IsDistinct world key file (e ∷ entries) h = elim (Bool-cases (same e.0 key)) [
  | inl own ↦ rw own ((rw ((text_beq_iff e.0 key).0 own) at h.0), h.1)
  | inr other ↦ rw other (
    rw (contains-set_entry world key file entries e.0)
        (ground (arith, h.0, text_beq_iff key e.0, text_beq_iff e.0 key)),
    set_entry-IsDistinct world key file entries h.1,
  )
]

abbrev pub keeps_both : UploadConflictStrategy → Bool
keeps_both strategy = not (is_reject strategy) && not (is_overwrite strategy)

module _ (world : World) where
  abbrev pub upload_keys : List Upload → List Text
  upload_keys = map (λ f. normalize_file_name world f.original_name)

  -- An entry stands under the name of its file, which is not blank.
  abbrev pub IsEntry : Text × Upload → Type 0
  IsEntry e = (normalize_file_name world e.1.original_name ≡ e.0) × (is_empty e.0 ≡ false)

  set_entry-IsEntry :
      (key : Text) (file : Upload) (entries : List (Text × Upload))
      → normalize_file_name world file.original_name ≡ key
      → is_empty key ≡ false
      → All IsEntry entries
      → All IsEntry (set_entry world key file entries)
  set_entry-IsEntry key file [] named given h = ((named, given), tt)
  set_entry-IsEntry key file (e ∷ entries) named given h = elim (Bool-cases (same e.0 key)) [
    | inl own ↦ rw own ((named, given), h.1)
    | inr other ↦ rw other (h.0, set_entry-IsEntry key file entries named given h.1)
  ]

  by_name-IsDistinct :
      (entries : List (Text × Upload)) (twice : Bool) (files : List Upload)
      (found : List (Text × Upload)) (result : Bool)
      → by_name world entries twice files ≡ ok (found, result)
      → IsDistinct (entry_keys entries)
      → All IsEntry entries
      → IsDistinct (entry_keys found) × All IsEntry found
  unfolding by_name
  by_name-IsDistinct entries twice [] found result e h k =
      let all : entries ≡ found = ap (λ (p : List (Text × Upload) × Bool). p.0) (ok_injective e) in
      rw (← all) (h, k)
  by_name-IsDistinct entries twice (file ∷ files) found result e h k =
      let key = normalize_file_name world file.original_name in
      let (_, named, rest) = >>=-eq-ok (throw_if (is_empty key) bad_request) _ e in
      by_name-IsDistinct (set_entry world key file entries) _ files found result rest
        (set_entry-IsDistinct world key file entries h)
        (set_entry-IsEntry key file entries refl (ground (arith, named)) k)

  -- Names that are new to some entries, and not blank.
  abbrev AreNew : List (Text × Upload) → List Text → Type 0
  AreNew entries = All (λ key. (contains key (entry_keys entries) ≡ false) × (is_empty key ≡ false))

  away :
      (key : Text) (file : Upload) (entries : List (Text × Upload)) (keys : List Text)
      → AreNew (set_entry world key file entries) keys
      → contains key keys ≡ false
  away key file entries [] h = refl
  away key file entries (k ∷ keys) h =
      let new : (same key k || contains k (entry_keys entries)) ≡ false =
        rw (← contains-set_entry world key file entries k) h.0.0 in
      ground (arith, new, away key file entries keys h.1, text_beq_iff k key, text_beq_iff key k)

  earlier :
      (key : Text) (file : Upload) (entries : List (Text × Upload)) (keys : List Text)
      → AreNew (set_entry world key file entries) keys
      → AreNew entries keys
  earlier key file entries [] h = tt
  earlier key file entries (k ∷ keys) h =
      let new : (same key k || contains k (entry_keys entries)) ≡ false =
        rw (← contains-set_entry world key file entries k) h.0.0 in
      ((ground (arith, new), h.0.1), earlier key file entries keys h.1)

  -- Where no name came twice, the names of the files are distinct, new and not blank.
  by_name-once :
      (entries : List (Text × Upload)) (twice : Bool) (files : List Upload)
      (found : List (Text × Upload))
      → by_name world entries twice files ≡ ok (found, false)
      → (twice ≡ false)
        × IsDistinct (upload_keys files)
        × All
            (λ key. (contains key (entry_keys entries) ≡ false) × (is_empty key ≡ false))
            (upload_keys files)
  unfolding by_name
  by_name-once entries twice [] found e =
      (ap (λ (p : List (Text × Upload) × Bool). p.1) (ok_injective e), tt, tt)
  by_name-once entries twice (file ∷ files) found e =
      let key = normalize_file_name world file.original_name in
      let (_, named, rest) = >>=-eq-ok (throw_if (is_empty key) bad_request) _ e in
      let (flag, distinct, new) =
        by_name-once (set_entry world key file entries) _ files found rest in
      (
        ground (arith, flag),
        (away key file entries (upload_keys files) new, distinct),
        (
          (ground (arith, flag), ground (arith, named)),
          earlier key file entries (upload_keys files) new,
        ),
      )

  entry_names :
      (entries : List (Text × Upload))
      → All IsEntry entries
      → upload_keys (map (λ e. e.1) entries) ≡ entry_keys entries
  entry_names [] h = refl
  entry_names (e ∷ entries) h = rw (h.0.0, entry_names entries h.1)

  entry_keys_given :
      (entries : List (Text × Upload))
      → All IsEntry entries
      → All (λ key. is_empty key ≡ false) (entry_keys entries)
  entry_keys_given [] h = tt
  entry_keys_given (e ∷ entries) h = (h.0.1, entry_keys_given entries h.1)

  new_given : (keys : List Text) → AreNew [] keys → All (λ key. is_empty key ≡ false) keys
  new_given [] h = tt
  new_given (key ∷ keys) h = (h.0.1, new_given keys h.1)

  -- The files that are taken on have distinct names that are not blank.
  pub resolve_incoming_files-IsDistinct :
      (strategy : UploadConflictStrategy) (files accepted : List Upload)
      → keeps_both strategy ≡ false
      → resolve_incoming_files world strategy files ≡ ok accepted
      → IsDistinct (upload_keys accepted) × All (λ key. is_empty key ≡ false) (upload_keys accepted)
  unfolding resolve_incoming_files
  resolve_incoming_files-IsDistinct keep_both files accepted k e = absurd (ground arith)
  resolve_incoming_files-IsDistinct overwrite files accepted k e =
      let (found, named, last) = >>=-eq-ok (by_name world [] false files) _ e in
      let taken : map (λ e. e.1) found.0 ≡ accepted = ok_injective last in
      let (distinct, entries) = by_name-IsDistinct [] false files found.0 found.1 named tt tt in
      rw (← taken, entry_names found.0 entries) (distinct, entry_keys_given found.0 entries)
  resolve_incoming_files-IsDistinct reject files accepted k e =
      let (found, named, last) = >>=-eq-ok (by_name world [] false files) _ e in
      elim (Bool-cases found.1) [
        | inl twice ↦
            let refused : err conflict ≡ ok accepted = (rw twice at last) in absurd (ground arith)
        | inr once ↦
            let taken : ok files ≡ ok accepted = (rw once at last) in
            let (_, distinct, new) =
              by_name-once [] false files found.0 (named ∙ ap (λ b. ok (found.0, b)) once) in
            rw (← ok_injective taken) (distinct, new_given (upload_keys files) new)
      ]

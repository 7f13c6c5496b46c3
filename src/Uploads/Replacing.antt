-- ===== src/Uploads/Replacing.antt =====
-- Which stored files stay, where uploads are not to keep both.
use content_pool_next.Base.{
  String, string_eq, Bool, true, false, not, ◌&&◌, ◌||◌, List, [], ◌∷◌, map, filter, any, contains,
  contains-filter, contains-map-filter, is_empty, same, All, All_of_contains, ◌≡◌, refl, arith,
  Bool-cases, inl, inr,
}
use content_pool_next.Base.Text.{Text, text_eq, text_beq_iff}
use content_pool_next.Base.Http.{ok, internal, not_found, throw_if, >>=-eq-ok, ok_injective}
use content_pool_next.Uploads.{
  World, Upload, AcpFile, Commit, UploadConflictStrategy, reject, overwrite, keep_both,
  is_overwrite, normalize_file_name, files_of, without, commit, replaced_by,
  group_by_normalized_name, assert_no_rejected_conflicts, collect_overwrite_matches,
}
use content_pool_next.Uploads.Names.{upload_keys, keeps_both}

abbrev pub ids : List AcpFile → List Text
ids = map (λ f. f.id)

from_members :
    (P : Text → Type 0) (keys : List Text)
    → ((k : Text) → contains k keys ≡ true → P k)
    → All P keys
from_members P [] h = tt
from_members P (key ∷ keys) h = (
  h key (ground (arith, text_beq_iff key key)),
  from_members P keys (λ k m. h k (ground (arith, m))),
)

without-nothing : (files : List AcpFile) → without [] files ≡ files
without-nothing [] = refl
without-nothing (f ∷ files) = rw (without-nothing files)

and_false : (b : Bool) → (b && false) ≡ false
and_false b = ground arith

module _ (world : World) where
  abbrev pub file_keys : List AcpFile → List Text
  file_keys = map (λ f. normalize_file_name world f.original_name)

  any_contained :
      (group : List Text) (files : List Upload) (k : Text)
      → contains k (upload_keys world files) ≡ true
      → contains k group ≡ true
      → any (λ f. contains (normalize_file_name world f.original_name) group) files ≡ true
  any_contained group [] k h m = absurd (ground arith)
  any_contained group (f ∷ files) k h m = ground (
    arith,
    any_contained group files k,
    text_beq_iff (normalize_file_name world f.original_name) k,
  )

  module _ (files : List Upload) (acp_id : String)
      (given : All (λ key. is_empty key ≡ false) (upload_keys world files)) where
    abbrev pub IsFree : List Text → Type 0
    IsFree = All (λ key. contains key (upload_keys world files) ≡ false)

    reject-IsFree :
        (existing : List AcpFile)
        → any
            (λ f.
              contains
                (normalize_file_name world f.original_name)
                (group_by_normalized_name world existing))
            files
          ≡ false
        → IsFree (file_keys existing)
    reject-IsFree existing h = from_members _ (file_keys existing) (λ k m. free k m)
      where
        free :
            (k : Text)
            → contains k (file_keys existing) ≡ true
            → contains k (upload_keys world files) ≡ false
        free k m = elim (Bool-cases (contains k (upload_keys world files))) [
          | inr other ↦ other
          | inl named ↦
              let nonblank =
                All_of_contains (λ key. is_empty key ≡ false) k (upload_keys world files) given
                  named in
              let grouped : contains k (group_by_normalized_name world existing) ≡ true =
                rw (contains-filter (λ key. not (is_empty key)) k (file_keys existing), m, nonblank)
                  refl in
              let clash =
                any_contained (group_by_normalized_name world existing) files k named grouped in
              absurd (ground (arith, clash, h))
        ]

    overwrite-IsFree :
        (existing : List AcpFile) (gone : List Text)
        → ((i : Text)
            → contains i (ids (collect_overwrite_matches world files existing)) ≡ true
            → contains i gone ≡ true)
        → IsFree (file_keys (filter (λ f. not (contains f.id gone)) existing))
    unfolding collect_overwrite_matches
    overwrite-IsFree [] gone h = tt
    overwrite-IsFree (f ∷ existing) gone h =
        let key = normalize_file_name world f.original_name in
        elim (Bool-cases (contains key (upload_keys world files))) [
          | inl named ↦
              let nonblank =
                All_of_contains (λ key. is_empty key ≡ false) key (upload_keys world files) given
                  named in
              let shorter : (i : Text)
                  → (same f.id i
                      || contains i (ids (collect_overwrite_matches world files existing)))
                    ≡ true
                  → contains i gone ≡ true =
                (rw (nonblank, named) at h) in
              let removed = shorter f.id (ground (arith, text_beq_iff f.id f.id)) in
              rw removed (overwrite-IsFree existing gone (λ i m. shorter i (ground (arith, m))))
          | inr other ↦
              let rest =
                overwrite-IsFree existing gone
                  ((rw (other, and_false (not (is_empty key))) at h)) in
              elim (Bool-cases (contains f.id gone)) [
                | inl removed ↦ rw removed rest
                | inr kept ↦ rw kept (other, rest)
              ]
        ]

    commit-ok :
        (c : Commit) (strategy : UploadConflictStrategy) (stored replaced : List AcpFile)
        → commit world c strategy acp_id files stored ≡ ok replaced
        → (assert_no_rejected_conflicts world strategy files (files_of acp_id stored) ≡ ok tt)
          × (replaced_by world strategy files (files_of acp_id stored) ≡ replaced)
    unfolding commit
    commit-ok c strategy stored replaced e =
        let (_, _, checks) = >>=-eq-ok (throw_if (not c.acp_is_there) not_found) _ e in
        let (_, passed, rest) =
          >>=-eq-ok (assert_no_rejected_conflicts world strategy files (files_of acp_id stored)) _
            checks in
        let (_, _, last) = >>=-eq-ok (throw_if (not c.saves) internal) _ rest in
        (passed, ok_injective last)

    -- The files that stay after a transaction that commits have none of the names of the uploads.
    pub commit-IsFree :
        (c : Commit) (strategy : UploadConflictStrategy) (stored replaced : List AcpFile)
        → keeps_both strategy ≡ false
        → commit world c strategy acp_id files stored ≡ ok replaced
        → IsFree (file_keys (without replaced (files_of acp_id stored)))
    unfolding assert_no_rejected_conflicts
    commit-IsFree c keep_both stored replaced k e = absurd (ground arith)
    commit-IsFree c overwrite stored replaced k e =
        let (_, matches) = commit-ok c overwrite stored replaced e in
        rw (← matches) (
          overwrite-IsFree (files_of acp_id stored)
            (ids (collect_overwrite_matches world files (files_of acp_id stored))) (λ i m. m))
    commit-IsFree c reject stored replaced k e =
        let (passed, nothing) = commit-ok c reject stored replaced e in
        rw (← nothing, without-nothing (files_of acp_id stored))
          (reject-IsFree (files_of acp_id stored) (ground (arith, passed)))

    -- What is replaced was stored.
    pub commit-stored :
        (c : Commit) (strategy : UploadConflictStrategy) (stored replaced : List AcpFile) (i : Text)
        → commit world c strategy acp_id files stored ≡ ok replaced
        → contains i (ids stored) ≡ false
        → contains i (ids replaced) ≡ false
    unfolding collect_overwrite_matches
    commit-stored c strategy stored replaced i e absent =
        let (_, known) = commit-ok c strategy stored replaced e in
        let here =
          contains-map-filter (λ (f : AcpFile). f.id) (λ f. same f.acp_id acp_id) i stored absent in
        rw (← known) (elim (Bool-cases (is_overwrite strategy)) [
          | inl over ↦
              rw over
                (contains-map-filter (λ (f : AcpFile). f.id) _ i (files_of acp_id stored) here)
          | inr other ↦ rw other refl
        ])
